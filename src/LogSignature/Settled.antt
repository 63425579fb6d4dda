-- ===== src/LogSignature/Settled.antt =====
-- What the substitutions leave: no digits, and no white space but single blanks.
use Prim.Native.Char.{Char, code}
use text.Mathlib.TextEquality.{Char-path}
use sysadmin_assistant.Shared.{
  ℕ, ◌≡◌, refl, sym, ap, ◌∙◌, String, Bool, true, false, ◌&&◌, not, ◌==◌, if◌then◌else◌, if_cases,
  Bool-cases, inl, inr, both_true, arith,
}
use sysadmin_assistant.Shared.Text.{is_digit, is_space}
use sysadmin_assistant.LogSignature.{num_sub, ws_sub, letter_n, blank}

-- No digits.
abbrev pub digit_free : String → Bool
digit_free String.[] = true
digit_free (String.◌∷◌ c s) = not (is_digit c) && digit_free s

-- No white space but blanks, and no two of them in a row; `before` says whether one stands in front.
abbrev pub spaced : Bool → String → Bool
spaced before String.[] = true
spaced before (String.◌∷◌ c s) =
    if is_space c then (code c == 32 && not before) && spaced true s else spaced false s

pub both_hold : {a b : Bool} → a ≡ true → b ≡ true → (a && b) ≡ true
both_hold h k = cc (h, k)

pub false_of_not : (b : Bool) → not b ≡ true → b ≡ false
false_of_not true h = grind (arith, h)
false_of_not false h = refl

n_is_no_digit : is_digit letter_n ≡ false
unfolding is_digit
n_is_no_digit = refl

blank_is_no_digit : is_digit blank ≡ false
unfolding is_digit
blank_is_no_digit = refl

-- A character that is no digit, in front of a text without digits.
pub digit_free-cons :
    (c : Char) (s : String)
    → is_digit c ≡ false
    → digit_free s ≡ true
    → digit_free (String.◌∷◌ c s) ≡ true
digit_free-cons c s other h = ap (λ b. not b && digit_free s) other ∙ h

pub digit_free-num_sub : (run : Bool) (s : String) → digit_free (num_sub run s) ≡ true
unfolding num_sub
digit_free-num_sub run String.[] = refl
digit_free-num_sub run (String.◌∷◌ c s) = elim (Bool-cases (is_digit c)) [
  | inl digit ↦ rw digit (
      if_cases (λ t. digit_free t ≡ true) run (digit_free-num_sub true s)
        (digit_free-cons letter_n (num_sub true s) n_is_no_digit (digit_free-num_sub true s)))
  | inr other ↦ rw other (digit_free-cons c (num_sub false s) other (digit_free-num_sub false s))
]

pub num_sub-digit_free : (run : Bool) (s : String) → digit_free s ≡ true → num_sub run s ≡ s
unfolding num_sub
num_sub-digit_free run String.[] h = refl
num_sub-digit_free run (String.◌∷◌ c s) h =
    let (first, more) = both_true (not (is_digit c)) (digit_free s) h in
    rw (false_of_not (is_digit c) first) (ap (String.◌∷◌ c) (num_sub-digit_free false s more))

pub digit_free-ws_sub :
    (run : Bool) (s : String) → digit_free s ≡ true → digit_free (ws_sub run s) ≡ true
unfolding ws_sub
digit_free-ws_sub run String.[] h = refl
digit_free-ws_sub run (String.◌∷◌ c s) h =
    let (first, more) = both_true (not (is_digit c)) (digit_free s) h in
    let rest = ws_sub (is_space c) s in
    let free = digit_free-ws_sub (is_space c) s more in
    if_cases (λ t. digit_free t ≡ true) (is_space c)
      (if_cases (λ t. digit_free t ≡ true) run free
        (digit_free-cons blank rest blank_is_no_digit free))
      (digit_free-cons c rest (false_of_not (is_digit c) first) free)

spaced-blank :
    (run : Bool) (t : String)
    → spaced true t ≡ true
    → spaced run (if run then t else String.◌∷◌ blank t) ≡ true
unfolding is_space
spaced-blank true t h = h
spaced-blank false t h = h

pub spaced-letter :
    (run : Bool) (c : Char) (t : String)
    → is_space c ≡ false
    → spaced false t ≡ true
    → spaced run (String.◌∷◌ c t) ≡ true
spaced-letter run c t other h =
    ap (λ b. if b then (code c == 32 && not run) && spaced true t else spaced false t) other ∙ h

pub spaced-ws_sub : (run : Bool) (s : String) → spaced run (ws_sub run s) ≡ true
unfolding ws_sub
spaced-ws_sub run String.[] = refl
spaced-ws_sub run (String.◌∷◌ c s) = elim (Bool-cases (is_space c)) [
  | inl space ↦ rw space (spaced-blank run (ws_sub true s) (spaced-ws_sub true s))
  | inr other ↦ rw other (spaced-letter run c (ws_sub false s) other (spaced-ws_sub false s))
]

same_test : (a b : ℕ) → (a == b) ≡ true → a ≡ b
same_test a b h = ground arith

kept_blank :
    (run : Bool) (c : Char) (s t : String)
    → (code c == 32 && not run) ≡ true
    → t ≡ s
    → (if run then t else String.◌∷◌ blank t) ≡ String.◌∷◌ c s
kept_blank true c s t h same = grind (arith, (both_true (code c == 32) false h).1)
kept_blank false c s t h same =
    let alike : blank ≡ c =
      sym (Char-path c blank (same_test (code c) 32 (both_true (code c == 32) true h).0)) in
    cc (alike, same)

-- What is found at the front of a spaced text.
pub spaced-space :
    (run : Bool) (c : Char) (s : String)
    → is_space c ≡ true
    → spaced run (String.◌∷◌ c s) ≡ true
    → ((code c == 32 && not run) ≡ true) × (spaced true s ≡ true)
spaced-space run c s space h = both_true (code c == 32 && not run) (spaced true s) (
    ap (λ b. if b then (code c == 32 && not run) && spaced true s else spaced false s) (sym space)
    ∙ h)

pub spaced-other :
    (run : Bool) (c : Char) (s : String)
    → is_space c ≡ false
    → spaced run (String.◌∷◌ c s) ≡ true
    → spaced false s ≡ true
spaced-other run c s other h =
    ap (λ b. if b then (code c == 32 && not run) && spaced true s else spaced false s) (sym other)
    ∙ h

pub ws_sub-spaced : (run : Bool) (s : String) → spaced run s ≡ true → ws_sub run s ≡ s
unfolding ws_sub
ws_sub-spaced run String.[] h = refl
ws_sub-spaced run (String.◌∷◌ c s) h = elim (Bool-cases (is_space c)) [
  | inl space ↦
      (let (fits, more) = spaced-space run c s space h in
        rw space (kept_blank run c s (ws_sub true s) fits (ws_sub-spaced true s more)))
  | inr other ↦ rw other (ap (String.◌∷◌ c) (ws_sub-spaced false s (spaced-other run c s other h)))
]
