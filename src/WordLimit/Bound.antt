-- ===== src/WordLimit/Bound.antt =====
-- The bound on the words of a trimmed text, and of a review that is held to its limit.
use Prim.Native.String
use text.Mathlib.TextLemmas.{append-nil}
use sysadmin_assistant.Shared.{
  ℕ, suc, ◌+◌, ◌/◌, ◌≤◌, ◌<◌, ◌≡◌, refl, ap, ◌∙◌, String, Bool, true, false, ◌&&◌, not, Option,
  none, some, [], ◌∷◌, if◌then◌else◌, length, leb, Bool-cases, inl, inr, leb→le, both_true, arith,
}
use sysadmin_assistant.Shared.Text.{concat, is_empty, rstrip}
use sysadmin_assistant.WordLimit.{
  narrative_word_limit, word_count, word_ends, word_starts, sentence_ends, prefix, nth, before_nth,
  last_entry, cut_at, trimmed, trim_to_words, Request, or_text, condensed_of, settle,
  hold_to_word_limit,
}
use sysadmin_assistant.WordLimit.Count.{
  begun, length-word_ends, length-word_starts, word_count-begun, begun-rstrip, begun-append,
  begun-prefix-le,
}
use sysadmin_assistant.WordLimit.Positions.{nth-some, begun-word_end, last_sentence_end}

-- There is a text, of so many words at most.
abbrev pub IsHeld : Option String → ℕ → Type 0
IsHeld result n = (text : String) × (result ≡ some text) × (word_count text ≤ n)

cut_at-le :
    (boundary : Option ℕ) (half_way word_end : ℕ)
    → ((e : ℕ) → boundary ≡ some e → e ≤ word_end)
    → cut_at boundary half_way word_end ≤ word_end
unfolding cut_at
cut_at-le none half_way word_end h = omega arith
cut_at-le (some e) half_way word_end h = ground (arith, h e refl)

not_leb→lt : (m n : ℕ) → leb m n ≡ false → n < m
not_leb→lt m n h = ground arith

module _ (marker : String) where
  -- What is cut at or before the end of the last word that is allowed.
  marked-bound :
      (text : String) (limit word_end cut : ℕ)
      → nth (word_ends text) limit ≡ some word_end
      → cut ≤ word_end
      → word_count (concat (rstrip (prefix cut text) ∷ " " ∷ marker ∷ []))
        ≤ suc limit + word_count marker
  unfolding concat
  marked-bound text limit word_end cut found within =
      let front = rstrip (prefix cut text) in
      let whole =
        word_count-begun (String.◌++◌ front (String.◌++◌ " " (String.◌++◌ marker "")))
        ∙ ap (λ m. begun true (String.◌++◌ front (String.◌++◌ " " m))) (append-nil marker)
        ∙ begun-append true front marker in
      omega (
        arith,
        whole,
        word_count-begun marker,
        begun-rstrip true (prefix cut text),
        begun-prefix-le true cut word_end text within,
        begun-word_end text limit word_end found,
      )

  trimmed-IsHeld :
      (text : String) (limit : ℕ)
      → suc limit < length (word_ends text)
      → IsHeld (trimmed marker text (suc limit)) (suc limit + word_count marker)
  unfolding trimmed before_nth
  trimmed-IsHeld text limit many =
      let (word_end, last) = nth-some (word_ends text) limit (omega (arith, many)) in
      let (half_way, half) =
        nth-some (word_starts true text) (suc limit / 2)
          (omega (arith, many, length-word_ends text, length-word_starts true text)) in
      let boundary = last_entry (sentence_ends (prefix (suc word_end) text)) in
      let cut = cut_at boundary half_way word_end in
      (
        concat (rstrip (prefix cut text) ∷ " " ∷ marker ∷ []),
        rw (last, half) refl,
        marked-bound text limit word_end cut last
            (cut_at-le boundary half_way word_end (last_sentence_end text word_end)),
      )

  -- Trimmed to a limit above zero, every text gives a text, which has at most the limit's words and
  -- those of the marker.
  pub trim_to_words-IsHeld :
      (text : String) (limit : ℕ)
      → IsHeld (trim_to_words marker text (suc limit)) (suc limit + word_count marker)
  unfolding trim_to_words
  trim_to_words-IsHeld text limit = elim (Bool-cases (leb (length (word_ends text)) (suc limit))) [
    | inl short ↦ rw short (
      text,
      refl,
      omega (
        arith,
        leb→le (length (word_ends text)) (suc limit) short,
        length-word_ends text,
        word_count-begun text,
      ),
    )
    | inr long ↦
        rw long (trimmed-IsHeld text limit (not_leb→lt (length (word_ends text)) (suc limit) long))
  ]

module _ (marker : String) (strip_markdown : String → String)
    (client : Request → Option String) where
  settle-IsHeld :
      (condensed prose : String)
      → IsHeld
          (settle marker strip_markdown client condensed prose)
          (narrative_word_limit + word_count marker)
  unfolding settle
  settle-IsHeld condensed prose =
      elim (Bool-cases (not (is_empty condensed) && leb (word_count condensed) 150)) [
        | inl kept ↦
            (let short =
                (both_true (not (is_empty condensed)) (leb (word_count condensed) 150) kept).1 in
              rw kept (condensed, refl, omega (arith, leb→le (word_count condensed) 150 short)))
        | inr cut ↦ rw cut (trim_to_words-IsHeld marker (or_text condensed prose) 149)
      ]

  -- Whatever the language model answers, a review is held: its text has at most 150 words and those of
  -- the marker; and the model is asked once where the prose has more than 150 words, and else not.
  pub hold_to_word_limit-IsHeld :
      (prose instructions system : String) (gpu_lease_held : Bool)
      → let (result, requests) =
          hold_to_word_limit marker strip_markdown client prose instructions system
            gpu_lease_held in
        IsHeld result (narrative_word_limit + word_count marker)
        × (length requests ≡ (if leb (word_count prose) narrative_word_limit then 0 else 1))
  unfolding hold_to_word_limit
  hold_to_word_limit-IsHeld prose instructions system gpu_lease_held =
      elim (Bool-cases (leb (word_count prose) 150)) [
        | inl short ↦
            rw short ((prose, refl, omega (arith, leb→le (word_count prose) 150 short)), refl)
        | inr long ↦
            rw long
              (settle-IsHeld (condensed_of marker strip_markdown client (client _)) prose, refl)
      ]
