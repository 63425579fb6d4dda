-- ===== src/WordLimit/Positions.antt =====
-- Where the words and the sentences of a text end.
use Prim.Native.Char.{Char}
use sysadmin_assistant.Shared.{
  ℕ, zero, suc, ◌≤◌, ◌<◌, ◌≡◌, refl, sym, ap, subst, ◌∙◌, String, Bool, true, false, ◌&&◌, Option,
  none, some, List, [], ◌∷◌, map, if◌then◌else◌, if_cases, length, All, Bool-cases, inl, inr, arith,
  some_inj,
}
use sysadmin_assistant.Shared.Text.{is_space, starts_word, text_length}
use sysadmin_assistant.WordLimit.{word_ends, sentence_ends, is_stop, prefix, nth, last_entry}
use sysadmin_assistant.WordLimit.Count.{begun, joined}

abbrev later : Option ℕ → Option ℕ
later none = none
later (some e) = some (suc e)

nth-map : (xs : List ℕ) (n : ℕ) → nth (map suc xs) n ≡ later (nth xs n)
unfolding nth
nth-map [] n = refl
nth-map (x ∷ xs) zero = refl
nth-map (x ∷ xs) (suc n) = nth-map xs n

later-some : (o : Option ℕ) (e : ℕ) → later o ≡ some e → (d : ℕ) × (o ≡ some d) × (e ≡ suc d)
later-some none e h = grind (arith, h)
later-some (some d) e h = (d, refl, sym (some_inj h))

pub nth-some : (xs : List ℕ) (n : ℕ) → n < length xs → (e : ℕ) × (nth xs n ≡ some e)
unfolding nth
nth-some [] n h = absurd (omega (arith, h))
nth-some (x ∷ xs) zero h = (x, refl)
nth-some (x ∷ xs) (suc n) h = nth-some xs n (omega (arith, h))

-- Among so many characters at most so many words begin, one less inside a word.
abbrev Within : String → ℕ → ℕ → Type 0
Within s n e = (begun true (prefix e s) ≤ suc n) × (joined s (begun false (prefix e s)) ≤ suc n)

past_space :
    (c : Char) (s : String) (n d : ℕ)
    → is_space c ≡ true
    → Within s n d
    → Within (String.◌∷◌ c s) n (suc d)
unfolding prefix starts_word
past_space c s n d space h = rw space (h.0, h.0)

past_letter :
    (c : Char) (s : String) (n d : ℕ)
    → is_space c ≡ false
    → suc (begun false (prefix d s)) ≤ suc n
    → Within (String.◌∷◌ c s) n (suc d)
unfolding prefix starts_word
past_letter c s n d letter h = rw letter (h, h)

after_letter :
    (c : Char) (s : String) (n e : ℕ) (within : Bool)
    → is_space c ≡ false
    → starts_word s ≡ within
    → ((m d : ℕ) → nth (word_ends s) m ≡ some d → Within s m d)
    → nth (if within then map suc (word_ends s) else 1 ∷ map suc (word_ends s)) n ≡ some e
    → Within (String.◌∷◌ c s) n e
unfolding nth prefix
after_letter c s n e true letter starts inside h =
    let (d, found, is_next) =
      later-some (nth (word_ends s) n) e (sym (nth-map (word_ends s) n) ∙ h) in
    let bound : suc (begun false (prefix d s)) ≤ suc n =
      subst (λ b. (if b then suc (begun false (prefix d s)) else begun false (prefix d s)) ≤ suc n)
        starts (inside n d found).1 in
    subst (Within (String.◌∷◌ c s) n) (sym is_next) (past_letter c s n d letter bound)
after_letter c s zero e false letter starts inside h =
    subst (Within (String.◌∷◌ c s) 0) (some_inj h) (past_letter c s 0 0 letter (omega arith))
after_letter c s (suc n) e false letter starts inside h =
    let (d, found, is_next) =
      later-some (nth (word_ends s) n) e (sym (nth-map (word_ends s) n) ∙ h) in
    let bound : begun false (prefix d s) ≤ suc n =
      subst (λ b. (if b then suc (begun false (prefix d s)) else begun false (prefix d s)) ≤ suc n)
        starts (inside n d found).1 in
    subst (Within (String.◌∷◌ c s) (suc n)) (sym is_next)
      (past_letter c s (suc n) d letter (omega (arith, bound)))

begun-nth : (s : String) (n e : ℕ) → nth (word_ends s) n ≡ some e → Within s n e
unfolding word_ends nth
begun-nth String.[] n e h = grind (arith, h)
begun-nth (String.◌∷◌ c s) n e h =
    let rest = map suc (word_ends s) in
    let ends = if starts_word s then rest else 1 ∷ rest in
    elim (Bool-cases (is_space c)) [
      | inl space ↦
          (let (d, found, is_next) = later-some (nth (word_ends s) n) e (
              sym (nth-map (word_ends s) n)
              ∙ ap (λ b. nth (if b then rest else ends) n) (sym space)
              ∙ h) in
            subst (Within (String.◌∷◌ c s) n) (sym is_next)
              (past_space c s n d space (begun-nth s n d found)))
      | inr letter ↦
          after_letter c s n e (starts_word s) letter refl (begun-nth s)
            (ap (λ b. nth (if b then rest else ends) n) (sym letter) ∙ h)
    ]

-- Up to the end of a word no more words begin than are counted to it.
pub begun-word_end :
    (s : String) (n e : ℕ) → nth (word_ends s) n ≡ some e → begun true (prefix e s) ≤ suc n
begun-word_end s n e h = (begun-nth s n e h).0

pub text_length-prefix : (n : ℕ) (s : String) → text_length (prefix n s) ≤ n
unfolding prefix
text_length-prefix zero s = omega arith
text_length-prefix (suc n) String.[] = omega arith
text_length-prefix (suc n) (String.◌∷◌ c s) = omega (arith, text_length-prefix n s)

All-later : (xs : List ℕ) (n : ℕ) → All (λ e. e < n) xs → All (λ e. e < suc n) (map suc xs)
All-later [] n h = tt
All-later (x ∷ xs) n h = (omega (arith, h.0), All-later xs n h.1)

-- A sentence ends before the text does.
sentence_ends-All : (s : String) → All (λ e. e < text_length s) (sentence_ends s)
unfolding sentence_ends
sentence_ends-All String.[] = tt
sentence_ends-All (String.◌∷◌ c String.[]) = tt
sentence_ends-All (String.◌∷◌ c (String.◌∷◌ d s)) =
    let n = suc (suc (text_length s)) in
    let more =
      All-later (sentence_ends (String.◌∷◌ d s)) (suc (text_length s))
        (sentence_ends-All (String.◌∷◌ d s)) in
    if_cases (All (λ e. e < n)) (is_stop c && is_space d) (omega arith, more) more

last_entry-All : (xs : List ℕ) (n e : ℕ) → All (λ x. x < n) xs → last_entry xs ≡ some e → e < n
unfolding last_entry
last_entry-All [] n e h found = grind (arith, found)
last_entry-All (x ∷ []) n e h found = subst (λ v. v < n) (some_inj found) h.0
last_entry-All (x ∷ y ∷ xs) n e h found = last_entry-All (y ∷ xs) n e h.1 found

-- The last sentence that ends up to the end of a word.
pub last_sentence_end :
    (s : String) (word_end e : ℕ)
    → last_entry (sentence_ends (prefix (suc word_end) s)) ≡ some e
    → e ≤ word_end
last_sentence_end s word_end e found =
    let cut = prefix (suc word_end) s in
    omega (
      arith,
      last_entry-All (sentence_ends cut) (text_length cut) e (sentence_ends-All cut) found,
      text_length-prefix (suc word_end) s,
    )
