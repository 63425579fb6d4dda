-- ===== src/WordLimit.antt =====
-- sysadmin/core/text.py and sysadmin/core/word_limit.py: trimming a text to a number of words, and
-- holding a review to its limit. The marker of a cut and the removal of markdown are estate.text's and
-- the language model's answer is the client's: they are parameters. White space is ASCII. `none` is an
-- IndexError.
pub mod Count
pub mod Positions
pub mod Bound
use Prim.Native.Char.{Char, code}
use Prim.Native.String
use sysadmin_assistant.Shared.{
  ℕ, zero, suc, ◌-◌, ◌/◌, String, Bool, true, false, ◌&&◌, ◌||◌, not, Option, none, some, List, [],
  ◌∷◌, map, leb, ltb, ◌==◌, if◌then◌else◌, length, ◌>>=◌,
}
use sysadmin_assistant.Shared.Text.{
  concat, show, words, is_space, starts_word, is_empty, lstrip, rstrip,
}

abbrev pub narrative_word_limit : ℕ
narrative_word_limit = 150

abbrev pub condense_word_target : ℕ
condense_word_target = 120

-- `word_count`
unfoldable pub word_count : String → ℕ
word_count text = length (words text)

-- The ends of the words: `m.end()` for each match of `_WORD`.
unfoldable pub word_ends : String → List ℕ
word_ends String.[] = []
word_ends (String.◌∷◌ c s) =
    let rest = map suc (word_ends s) in
    if is_space c then rest else if starts_word s then rest else 1 ∷ rest

-- The starts of the words, where what is in front is white space or not.
unfoldable pub word_starts : Bool → String → List ℕ
word_starts before String.[] = []
word_starts before (String.◌∷◌ c s) =
    let rest = map suc (word_starts (is_space c) s) in
    if before && not (is_space c) then 0 ∷ rest else rest

is_stop : Char → Bool
is_stop c = code c == b'.' || (code c == b'!' || code c == b'?')

-- The ends of the sentences: `m.end()` for each match of `_SENTENCE_END`.
unfoldable pub sentence_ends : String → List ℕ
unfolding is_stop
sentence_ends String.[] = []
sentence_ends (String.◌∷◌ c String.[]) = []
sentence_ends (String.◌∷◌ c (String.◌∷◌ d s)) =
    let rest = map suc (sentence_ends (String.◌∷◌ d s)) in
    if is_stop c && is_space d then 1 ∷ rest else rest

-- `text[:n]`
unfoldable pub prefix : ℕ → String → String
prefix zero s = ""
prefix (suc n) String.[] = ""
prefix (suc n) (String.◌∷◌ c s) = String.◌∷◌ c (prefix n s)

-- `xs[n]`
unfoldable pub nth : List ℕ → ℕ → Option ℕ
nth [] n = none
nth (x ∷ xs) zero = some x
nth (x ∷ xs) (suc n) = nth xs n

-- `xs[-1]`
unfoldable pub last_entry : List ℕ → Option ℕ
last_entry [] = none
last_entry (x ∷ []) = some x
last_entry (x ∷ y ∷ xs) = last_entry (y ∷ xs)

-- `xs[n - 1]`, which is the last entry for 0.
unfoldable pub before_nth : List ℕ → ℕ → Option ℕ
before_nth xs zero = last_entry xs
before_nth xs (suc n) = nth xs n

-- `boundaries[-1] if boundaries and boundaries[-1] >= half_way else word_end`
unfoldable pub cut_at : Option ℕ → ℕ → ℕ → ℕ
cut_at none half_way word_end = word_end
cut_at (some boundary) half_way word_end = if leb half_way boundary then boundary else word_end

module _ (marker : String) where
  -- `trim_to_words` of a text with too many words.
  unfoldable pub trimmed : String → ℕ → Option String
  trimmed text limit = do
    word_end ← before_nth (word_ends text) limit
    half_way ← nth (word_starts true text) (limit / 2)
    let boundaries = sentence_ends (prefix (suc word_end) text)
    let cut = cut_at (last_entry boundaries) half_way word_end
    some (concat (rstrip (prefix cut text) ∷ " " ∷ marker ∷ []))

  -- `trim_to_words`
  unfoldable pub trim_to_words : String → ℕ → Option String
  trim_to_words text limit =
      if leb (length (word_ends text)) limit then some text else trimmed text limit

-- `condense_instructions`
unfoldable pub condense_instructions : String → String → String
condense_instructions review parts = concat (
    "Shorten "
    ∷ review
    ∷ " below to at most "
    ∷ show condense_word_target
    ∷ " words. Keep its three parts in order: "
    ∷ parts
    ∷ ". Do not add anything that is not already in it, and do not state any number. Plain prose only: no markdown, no headings, no lists."
    ∷ [])

-- `build_condense_prompt`
unfoldable pub build_condense_prompt : String → String → String
build_condense_prompt instructions prose = concat (instructions ∷ "\n\nReview:\n" ∷ prose ∷ [])

-- What `client.generate` is called with.
pub record Request : Type 0 where
  pub prompt : String
  pub system : String
  pub gpu_lease_held : Bool
  pub follows_own_inference : Bool

-- `condensed or prose`
or_text : String → String → String
or_text condensed prose = if is_empty condensed then prose else condensed

module _ (marker : String) (strip_markdown : String → String)
    (client : Request → Option String) where
  -- `strip_markdown(condensed).strip() if condensed else ""`
  condensed_of : Option String → String
  condensed_of none = ""
  condensed_of (some text) = if is_empty text then "" else rstrip (lstrip (strip_markdown text))

  -- What becomes of the second pass.
  settle : String → String → Option String
  unfolding or_text
  settle condensed prose =
      if not (is_empty condensed) && leb (word_count condensed) narrative_word_limit
      then some condensed
      else trim_to_words marker (or_text condensed prose) narrative_word_limit

  -- `hold_to_word_limit`, with the requests that it made.
  unfoldable pub hold_to_word_limit : String → String → String → Bool → Option String × List Request
  unfolding condensed_of settle
  hold_to_word_limit prose instructions system gpu_lease_held =
      let request : Request = record {
        prompt = build_condense_prompt instructions prose;
        system = system;
        gpu_lease_held = gpu_lease_held;
        follows_own_inference = true;
      } in
      if leb (word_count prose) narrative_word_limit
      then (some prose, [])
      else (settle (condensed_of (client request)) prose, request ∷ [])
