-- ===== src/Reload/Leaves/Changed.antt =====
-- Which paths `changed_under` names.
use Prim.Native.String
use Prim.Native.Char.{code}
use text.Mathlib.TextEquality.{Char-path}
use sysadmin_assistant.Shared.Text.{concat}
use text.Mathlib.TextLemmas.{nil-append, cons-append}
use sysadmin_assistant.Shared.{
  sym, subst, both_true, ◌↔◌, ◌⊎◌, ◌==◌, String, ◌≡◌, refl, ap, ◌∙◌, Bool, true, false, ◌&&◌, ◌||◌,
  not, List, [], ◌∷◌, ◌++◌, arith, any, keep, is_some, str_eq, str_eq_iff, str_eq_refl, inl, inr,
  Bool-cases,
}
use sysadmin_assistant.Shared.Dict.{Dict, lookup}
use sysadmin_assistant.Shared.Sort.{any-sort_by}
use sysadmin_assistant.Jobs.{sorted_set, text_less, without_repeats}
use sysadmin_assistant.Reload.Leaves.Read.{leaves, last_at, get-flatten}
use sysadmin_assistant.Reload.Leaves.{
  Value, flatten, starts_with, under, get, keys, changed_leaves, changed_under,
}

-- Is the text in the list?
abbrev pub has : String → List String → Bool
has x xs = any (λ y. str_eq y x) xs

without_repeats-has : (x : String) (xs : List String) → has x (without_repeats xs) ≡ has x xs
unfolding without_repeats
without_repeats-has x [] = refl
without_repeats-has x (y ∷ ys) = elim (Bool-cases (str_eq y x)) [
  | inl hit ↦
      let e : y ≡ x = (str_eq_iff y x).0 hit in
      ground (arith, without_repeats-has x ys, ap (λ k. has k (without_repeats ys)) e, hit)
  | inr other ↦ ground (arith, without_repeats-has x ys, other)
]

pub sorted_set-has : (x : String) (xs : List String) → has x (sorted_set xs) ≡ has x xs
unfolding sorted_set
sorted_set-has x xs =
    any-sort_by text_less (λ y. str_eq y x) (without_repeats xs) ∙ without_repeats-has x xs

pub keep-has :
    (p : String → Bool) (x : String) (xs : List String) → has x (keep p xs) ≡ (has x xs && p x)
keep-has p x [] = refl
keep-has p x (y ∷ ys) = elim (Bool-cases (str_eq y x)) [
  | inl hit ↦
      let e : p y ≡ p x = ap p ((str_eq_iff y x).0 hit) in ground (arith, keep-has p x ys, e, hit)
  | inr other ↦ ground (arith, keep-has p x ys, other)
]

pub append-has : (x : String) (xs ys : List String) → has x (xs ++ ys) ≡ (has x xs || has x ys)
append-has x [] ys = refl
append-has x (y ∷ xs) ys = ground (arith, append-has x xs ys)

pub keys-has : (x : String) (d : Dict String) → has x (keys d) ≡ is_some (lookup x d)
unfolding keys lookup
keys-has x [] = refl
keys-has x ((k, v) ∷ d) = ground (arith, keys-has x d)

-- A path that neither dump has reads as null in both.
get-none :
    (path : String) (d e : Dict String)
    → (is_some (lookup path d) || is_some (lookup path e)) ≡ false
    → str_eq (get path d) (get path e) ≡ true
unfolding get
get-none path d e h = ground (arith, h, str_eq_refl "null")

changed_leaves-has :
    (d e : Dict String) (prefixes : List String) (path : String)
    → has path (changed_leaves d e prefixes)
      ≡ (under prefixes path && not (str_eq (get path d) (get path e)))
unfolding changed_leaves
changed_leaves-has d e prefixes path =
    let p = λ (path : String). under prefixes path && not (str_eq (get path d) (get path e)) in
    ground (
      arith,
      keep-has p path (sorted_set (keys d ++ keys e)),
      sorted_set-has path (keys d ++ keys e),
      append-has path (keys d) (keys e),
      keys-has path d,
      keys-has path e,
      get-none path d e,
    )

-- Is the path the prefix, or the prefix, a dot and more?
abbrev pub IsAtOrBelow : String → String → Type 0
IsAtOrBelow path prefix =
    (path ≡ prefix) ⊎ ((rest : String) × (path ≡ String.◌++◌ (String.◌++◌ prefix ".") rest))

abbrev pub IsUnder : List String → String → Type 0
IsUnder [] path = ⊥
IsUnder (p ∷ ps) path = IsAtOrBelow path p ⊎ IsUnder ps path

starts_with-append :
    (s p : String) → starts_with s p ≡ true → (rest : String) × (s ≡ String.◌++◌ p rest)
unfolding starts_with
starts_with-append s String.[] h = (s, sym (nil-append s))
starts_with-append String.[] (String.◌∷◌ c p) h = cc
starts_with-append (String.◌∷◌ d s) (String.◌∷◌ c p) h =
    let (same, starts) = both_true (code d == code c) (starts_with s p) h in
    let (rest, e) = starts_with-append s p starts in
    (
      rest,
      ap (λ x. String.◌∷◌ x s) (Char-path d c (ground (arith, same)))
          ∙ ap (String.◌∷◌ c) e
          ∙ sym (cons-append c p rest),
    )

append-starts_with : (p rest : String) → starts_with (String.◌++◌ p rest) p ≡ true
unfolding starts_with
append-starts_with String.[] rest = refl
append-starts_with (String.◌∷◌ c p) rest =
    subst (λ t. starts_with t (String.◌∷◌ c p) ≡ true) (sym (cons-append c p rest))
      (ground (arith, append-starts_with p rest))

-- The test of the code.
abbrev at_or_below : String → String → Bool
at_or_below path p = str_eq path p || starts_with path (String.◌++◌ p ".")

at_or_below-IsAtOrBelow : (path p : String) → (at_or_below path p ≡ true) ↔ IsAtOrBelow path p
at_or_below-IsAtOrBelow path p = (
  (λ h. elim (Bool-cases (str_eq path p)) [
    | inl same ↦ inl ((str_eq_iff path p).0 same)
    | inr other ↦ inr (starts_with-append path (String.◌++◌ p ".") (ground (arith, h, other)))
  ]),
  λ h. elim h [
    | inl same ↦ ground (arith, (str_eq_iff path p).1 same)
    | inr (rest, e) ↦
        let starts =
          subst (λ t. starts_with t (String.◌++◌ p ".") ≡ true) (sym e)
            (append-starts_with (String.◌++◌ p ".") rest) in
        ground (arith, starts)
  ],
)

under-cons :
    (p : String) (ps : List String) (path : String)
    → under (p ∷ ps) path ≡ (at_or_below path p || under ps path)
unfolding under concat
under-cons p ps path = elim (Bool-cases (at_or_below path p)) [
  | inl hit ↦ rw hit refl
  | inr miss ↦ rw miss refl
]

under-IsUnder :
    (prefixes : List String) (path : String) → (under prefixes path ≡ true) ↔ IsUnder prefixes path
unfolding under
under-IsUnder [] path = ((λ h. cc), λ h. absurd h)
under-IsUnder (p ∷ ps) path =
    let here = at_or_below-IsAtOrBelow path p in
    let there = under-IsUnder ps path in
    (
      (λ h. elim (Bool-cases (at_or_below path p)) [
        | inl hit ↦ inl (here.0 hit)
        | inr miss ↦ inr (there.0 (ground (arith, under-cons p ps path, h, miss)))
      ]),
      λ h. elim h [
        | inl hit ↦ ground (arith, under-cons p ps path, here.1 hit)
        | inr later ↦ ground (arith, under-cons p ps path, there.1 later)
      ],
    )

-- The changes name a path exactly when it is one of the prefixes, or one of them with a dot and more
-- behind it, and the last leaf that has the path differs between the two dumps, a path that no leaf
-- has counting as null.
pub changed_under-has :
    (old new : Value) (prefixes : List String) (path : String)
    → (has path (changed_under old new prefixes) ≡ true) ↔ (
        IsUnder prefixes path
        × ¬ (last_at path (leaves "" old) "null" ≡ last_at path (leaves "" new) "null"))
unfolding changed_under
changed_under-has old new prefixes path =
    let d = flatten "" old in
    let e = flatten "" new in
    let named = changed_leaves-has d e prefixes path in
    let inside = under-IsUnder prefixes path in
    let before = get-flatten path old in
    let after = get-flatten path new in
    (
      (λ h. (
        inside.0 (ground (arith, named, h)),
        λ same.
            let equal = (str_eq_iff (get path d) (get path e)).1 (before ∙ same ∙ sym after) in
            absurd (ground (arith, named, h, equal)),
      )),
      λ h. elim (Bool-cases (str_eq (get path d) (get path e))) [
        | inl equal ↦
            absurd (h.1 (sym before ∙ (str_eq_iff (get path d) (get path e)).0 equal ∙ after))
        | inr differ ↦ ground (arith, named, inside.1 h.0, differ)
      ],
    )

pub keep_none :
    (p : String → Bool) (xs : List String) → ((x : String) → p x ≡ false) → keep p xs ≡ []
keep_none p [] never = refl
keep_none p (x ∷ xs) never = ground (arith, keep_none p xs never, never x)

-- Nothing has changed between a dump and itself.
pub changed_under_same : (v : Value) (prefixes : List String) → changed_under v v prefixes ≡ []
unfolding changed_under changed_leaves
changed_under_same v prefixes =
    keep_none _ (sorted_set (keys (flatten "" v) ++ keys (flatten "" v)))
      λ path. ground (arith, str_eq_refl (get path (flatten "" v)))
