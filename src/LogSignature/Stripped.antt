-- ===== src/LogSignature/Stripped.antt =====
-- A signature is its own signature: no substitution finds anything in it, and it is stripped.
use Prim.Native.Char.{Char, code}
use Prim.Native.String
use sysadmin_assistant.Shared.{
  ℕ, ◌≡◌, refl, ap, ◌∙◌, String, Bool, true, false, ◌&&◌, not, Option, none, some, ◌==◌,
  if◌then◌else◌, if_cases, Bool-cases, inl, inr, both_true, arith,
}
use sysadmin_assistant.Shared.Text.{is_digit, is_space, is_word_char, is_empty, lstrip, rstrip}
use sysadmin_assistant.LogSignature.{hex_here, hex_behind, hex_sub, num_sub, ws_sub, signature}
use sysadmin_assistant.LogSignature.Settled.{
  digit_free, spaced, both_hold, false_of_not, digit_free-cons, digit_free-num_sub,
  num_sub-digit_free, digit_free-ws_sub, spaced-letter, spaced-ws_sub, spaced-space, spaced-other,
  ws_sub-spaced,
}

no_zero : (c : Char) → is_digit c ≡ false → (code c == 48) ≡ false
unfolding is_digit
no_zero c h = ground (arith, h)

nothing_here :
    (before b : Bool) (o : Option ℕ) → b ≡ false → (if not before && b then o else none) ≡ none
nothing_here true b o h = refl
nothing_here false b o h = ap (λ x. if x then o else none) h

hex_sub-digit_free : (before : Bool) (s : String) → digit_free s ≡ true → hex_sub 0 before s ≡ s
unfolding hex_sub hex_here
hex_sub-digit_free before String.[] h = refl
hex_sub-digit_free before (String.◌∷◌ c s) h =
    let (first, more) = both_true (not (is_digit c)) (digit_free s) h in
    ap
      (λ o. elim o [
        | none ↦ String.◌∷◌ c (hex_sub 0 (is_word_char c) s)
        | some n ↦ String.◌++◌ "0xN" (hex_sub n true s)
      ])
      (nothing_here before (code c == 48) (hex_behind s)
        (no_zero c (false_of_not (is_digit c) first)))
    ∙ ap (String.◌∷◌ c) (hex_sub-digit_free (is_word_char c) s more)

lstrip-spaced : (s : String) → spaced true s ≡ true → lstrip s ≡ s
unfolding lstrip
lstrip-spaced String.[] h = refl
lstrip-spaced (String.◌∷◌ c s) h = elim (Bool-cases (is_space c)) [
  | inl space ↦ grind (arith, (both_true (code c == 32) false (spaced-space true c s space h).0).1)
  | inr other ↦ rw other refl
]

spaced_anywhere : (s : String) → spaced true s ≡ true → spaced false s ≡ true
spaced_anywhere String.[] h = refl
spaced_anywhere (String.◌∷◌ c s) h = elim (Bool-cases (is_space c)) [
  | inl space ↦ grind (arith, (both_true (code c == 32) false (spaced-space true c s space h).0).1)
  | inr other ↦ spaced-letter false c s other (spaced-other true c s other h)
]

spaced-lstrip : (s : String) → spaced false s ≡ true → spaced true (lstrip s) ≡ true
unfolding lstrip
spaced-lstrip String.[] h = refl
spaced-lstrip (String.◌∷◌ c s) h = elim (Bool-cases (is_space c)) [
  | inl space ↦
      (let more = (spaced-space false c s space h).1 in
        rw space (ap (spaced true) (lstrip-spaced s more) ∙ more))
  | inr other ↦ rw other (spaced-letter true c s other (spaced-other false c s other h))
]

digit_free-lstrip : (s : String) → digit_free s ≡ true → digit_free (lstrip s) ≡ true
unfolding lstrip
digit_free-lstrip String.[] h = refl
digit_free-lstrip (String.◌∷◌ c s) h =
    if_cases (λ t. digit_free t ≡ true) (is_space c)
      (digit_free-lstrip s (both_true (not (is_digit c)) (digit_free s) h).1) h

spaced-rstrip :
    (before : Bool) (s : String) → spaced before s ≡ true → spaced before (rstrip s) ≡ true
unfolding rstrip
spaced-rstrip before String.[] h = refl
spaced-rstrip before (String.◌∷◌ c s) h =
    if_cases (λ t. spaced before t ≡ true) (is_space c && is_empty (rstrip s)) refl
      (elim (Bool-cases (is_space c)) [
        | inl space ↦
            (let (fits, more) = spaced-space before c s space h in
              rw space (both_hold fits (spaced-rstrip true s more)))
        | inr other ↦
            spaced-letter before c (rstrip s) other
              (spaced-rstrip false s (spaced-other before c s other h))
      ])

digit_free-rstrip : (s : String) → digit_free s ≡ true → digit_free (rstrip s) ≡ true
unfolding rstrip
digit_free-rstrip String.[] h = refl
digit_free-rstrip (String.◌∷◌ c s) h =
    let (first, more) = both_true (not (is_digit c)) (digit_free s) h in
    if_cases (λ t. digit_free t ≡ true) (is_space c && is_empty (rstrip s)) refl
      (digit_free-cons c (rstrip s) (false_of_not (is_digit c) first) (digit_free-rstrip s more))

rstrip_idem : (s : String) → rstrip (rstrip s) ≡ rstrip s
unfolding rstrip
rstrip_idem String.[] = refl
rstrip_idem (String.◌∷◌ c s) = elim (Bool-cases (is_space c && is_empty (rstrip s))) [
  | inl gone ↦ rw gone refl
  | inr stays ↦ rw stays (
      ap (λ t. if is_space c && is_empty t then "" else String.◌∷◌ c t) (rstrip_idem s)
      ∙ ap (λ b. if b then "" else String.◌∷◌ c (rstrip s)) stays)
]

-- A signature holds no digits and no white space but single blanks between other characters, and the
-- signature of a signature is that signature.
pub signature_settles :
    (message : String)
    → (digit_free (signature message) ≡ true)
      × (spaced true (signature message) ≡ true)
      × (signature (signature message) ≡ signature message)
unfolding signature
signature_settles message =
    let numbered = num_sub false (hex_sub 0 false message) in
    let found = digit_free-num_sub false (hex_sub 0 false message) in
    let white = ws_sub false numbered in
    let free =
      digit_free-rstrip (lstrip white)
        (digit_free-lstrip white (digit_free-ws_sub false numbered found)) in
    let tidy =
      spaced-rstrip true (lstrip white) (spaced-lstrip white (spaced-ws_sub false numbered)) in
    let text = rstrip (lstrip white) in
    (
      free,
      tidy,
      ap (λ t. rstrip (lstrip (ws_sub false (num_sub false t))))
            (hex_sub-digit_free false text free)
          ∙ ap (λ t. rstrip (lstrip (ws_sub false t))) (num_sub-digit_free false text free)
          ∙ ap (λ t. rstrip (lstrip t)) (ws_sub-spaced false text (spaced_anywhere text tidy))
          ∙ ap rstrip (lstrip-spaced text tidy)
          ∙ rstrip_idem (lstrip white),
    )
