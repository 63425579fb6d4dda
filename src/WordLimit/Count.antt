-- ===== src/WordLimit/Count.antt =====
-- Counting words from the left, and what cutting, stripping and appending do to the count.
use Prim.Native.Char.{Char}
use Prim.Native.String.{char_at}
use Prim.Native.String
use text.Mathlib.TextLemmas.{cons-append, nil-append}
use sysadmin_assistant.Shared.{
  ℕ, zero, suc, ◌+◌, ◌≤◌, ◌≡◌, refl, ap, ◌∙◌, String, Bool, true, false, ◌&&◌, not, List, [], ◌∷◌,
  map, if◌then◌else◌, if_cases, length, Bool-cases, inl, inr, arith,
}
use sysadmin_assistant.Shared.Text.{words, add_char, is_space, starts_word, is_empty, rstrip}
use sysadmin_assistant.WordLimit.{word_count, word_ends, word_starts, prefix}

length-map {ℓ κ} :
    {A : Type ℓ} {B : Type κ} (f : A → B) (xs : List A) → length (map f xs) ≡ length xs
length-map f [] = refl
length-map f (x ∷ xs) = ap suc (length-map f xs)

-- The words that begin in the text, where what is in front is white space or not.
abbrev pub begun : Bool → String → ℕ
begun before String.[] = 0
begun before (String.◌∷◌ c s) =
    if before && not (is_space c) then suc (begun (is_space c) s) else begun (is_space c) s

pub length-word_starts :
    (before : Bool) (s : String) → length (word_starts before s) ≡ begun before s
unfolding word_starts
length-word_starts before String.[] = refl
length-word_starts before (String.◌∷◌ c s) =
    ground (arith, length-map suc (word_starts (is_space c) s), length-word_starts (is_space c) s)

-- A text that goes on with a word has a word.
abbrev pub joined : String → ℕ → ℕ
joined s n = if starts_word s then suc n else n

length-add_char :
    (c : Char) (b : Bool) (ws : List String) (n : ℕ)
    → length ws ≡ (if b then suc n else n)
    → length (add_char c b ws) ≡ suc n
unfolding add_char
length-add_char c true [] n h = ground (arith, h)
length-add_char c false [] n h = ap suc h
length-add_char c true (w ∷ ws) n h = h
length-add_char c false (w ∷ ws) n h = ap suc h

-- Inside a word the words that are to come are one less than those of the text, if it goes on with
-- the word.
words-begun :
    (s : String) → (length (words s) ≡ begun true s) × (length (words s) ≡ joined s (begun false s))
unfolding words starts_word
words-begun String.[] = (refl, refl)
words-begun (String.◌∷◌ c s) =
    let (apart, within) = words-begun s in
    elim (Bool-cases (is_space c)) [
      | inl space ↦ rw space (apart, apart)
      | inr letter ↦ rw letter (
        length-add_char c (starts_word s) (words s) (begun false s) within,
        length-add_char c (starts_word s) (words s) (begun false s) within,
      )
    ]

pub word_count-begun : (s : String) → word_count s ≡ begun true s
unfolding word_count
word_count-begun s = (words-begun s).0

length-end :
    (b : Bool) (rest : List ℕ) (n : ℕ)
    → length rest ≡ (if b then suc n else n)
    → length (if b then rest else 1 ∷ rest) ≡ suc n
length-end true rest n h = h
length-end false rest n h = ap suc h

ends-begun :
    (s : String)
    → (length (word_ends s) ≡ begun true s) × (length (word_ends s) ≡ joined s (begun false s))
unfolding word_ends starts_word
ends-begun String.[] = (refl, refl)
ends-begun (String.◌∷◌ c s) =
    let (apart, within) = ends-begun s in
    let same = length-map suc (word_ends s) in
    let more = length-end (starts_word s) (map suc (word_ends s)) (begun false s) (same ∙ within) in
    elim (Bool-cases (is_space c)) [
      | inl space ↦ rw space (same ∙ apart, same ∙ apart)
      | inr letter ↦ rw letter (more, more)
    ]

pub length-word_ends : (s : String) → length (word_ends s) ≡ begun true s
length-word_ends s = (ends-begun s).0

-- Stripping blanks behind the text begins no word.
pub begun-rstrip : (before : Bool) (s : String) → begun before (rstrip s) ≤ begun before s
unfolding rstrip
begun-rstrip before String.[] = omega arith
begun-rstrip before (String.◌∷◌ c s) =
    if_cases (λ t. begun before t ≤ begun before (String.◌∷◌ c s))
      (is_space c && is_empty (rstrip s)) (omega arith)
      (ground (arith, begun-rstrip (is_space c) s))

past_blank : (before : Bool) (n : ℕ) → (if before && false then suc n else n) ≡ 0 + n
past_blank true n = omega arith
past_blank false n = omega arith

-- A blank parts two texts.
pub begun-append :
    (before : Bool) (s t : String)
    → begun before (String.◌++◌ s (String.◌++◌ " " t)) ≡ begun before s + begun true t
unfolding is_space
begun-append before String.[] t =
    let c = char_at " " 0 in
    ap (begun before)
      (nil-append (String.◌++◌ " " t) ∙ cons-append c "" t ∙ ap (String.◌∷◌ c) (nil-append t))
    ∙ past_blank before (begun true t)
begun-append before (String.◌∷◌ c s) t =
    ap (begun before) (cons-append c s (String.◌++◌ " " t))
    ∙ ground (arith, begun-append (is_space c) s t)

-- The words that begin among so many characters.
pub begun-prefix-le :
    (before : Bool) (m n : ℕ) (s : String)
    → m ≤ n
    → begun before (prefix m s) ≤ begun before (prefix n s)
unfolding prefix
begun-prefix-le before zero n s h = omega arith
begun-prefix-le before (suc m) zero s h = omega (arith, h)
begun-prefix-le before (suc m) (suc n) String.[] h = omega arith
begun-prefix-le before (suc m) (suc n) (String.◌∷◌ c s) h =
    ground (arith, begun-prefix-le (is_space c) m n s (omega (arith, h)))
