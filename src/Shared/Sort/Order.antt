-- ===== src/Shared/Sort/Order.antt =====
-- What sorting gives where the order follows a number: the numbers rise, and sorting goes with
-- filtering.
use sysadmin_assistant.Shared.{
  ℕ, ◌≤◌, ◌≡◌, refl, sym, ap, ◌∙◌, inl, inr, Bool, true, false, List, [], ◌∷◌, ltb, if◌then◌else◌,
  Bool-cases, ltb→lt, not_ltb→ge, if_cases, keep, All, arith,
}
use sysadmin_assistant.Shared.Sort.{insert_sorted, sort_by, All-insert_sorted}

module _ {ℓ} {A : Type ℓ} (key : A → ℕ) where
  -- The numbers of the entries rise along the list.
  abbrev pub IsRising : List A → Type 0
  IsRising [] = Unit
  IsRising (x ∷ xs) = All (λ y. key x ≤ key y) xs × IsRising xs

  All-le :
      (x y : A) (zs : List A)
      → key x ≤ key y
      → All (λ z. key y ≤ key z) zs
      → All (λ z. key x ≤ key z) zs
  All-le x y [] le hs = tt
  All-le x y (z ∷ zs) le hs = (omega (arith, le, hs.0), All-le x y zs le hs.1)

  module _ (less : A → A → Bool) (less-le : (x y : A) → less x y ≡ true → key x ≤ key y)
      (not_less-le : (x y : A) → less x y ≡ false → key y ≤ key x) where
    insert_sorted-IsRising :
        (x : A) (ys : List A) → IsRising ys → IsRising (insert_sorted less x ys)
    unfolding insert_sorted
    insert_sorted-IsRising x [] rising = (tt, tt)
    insert_sorted-IsRising x (y ∷ ys) rising = elim (Bool-cases (less y x)) [
      | inl before ↦ rw before (
        All-insert_sorted less (λ z. key y ≤ key z) x ys (less-le y x before) rising.0,
        insert_sorted-IsRising x ys rising.1,
      )
      | inr after ↦
          rw after ((not_less-le y x after, All-le x y ys (not_less-le y x after) rising.0), rising)
    ]

    pub sort_by-IsRising : (xs : List A) → IsRising (sort_by less xs)
    unfolding sort_by
    sort_by-IsRising [] = tt
    sort_by-IsRising (x ∷ xs) = insert_sorted-IsRising x (sort_by less xs) (sort_by-IsRising xs)

  -- The strict order by the number.
  abbrev pub by_key : A → A → Bool
  by_key x y = ltb (key x) (key y)

  insert_sorted-first :
      (x : A) (ys : List A) → All (λ y. key x ≤ key y) ys → insert_sorted by_key x ys ≡ x ∷ ys
  unfolding insert_sorted
  insert_sorted-first x [] hs = refl
  insert_sorted-first x (y ∷ ys) hs = ground (arith, hs.0)

  All-keep :
      (x : A) (p : A → Bool) (ys : List A)
      → All (λ y. key x ≤ key y) ys
      → All (λ y. key x ≤ key y) (keep p ys)
  All-keep x p [] hs = tt
  All-keep x p (y ∷ ys) hs =
      if_cases (All (λ y. key x ≤ key y)) (p y) (hs.0, All-keep x p ys hs.1) (All-keep x p ys hs.1)

  keep-insert_sorted :
      (p : A → Bool) (x : A) (ys : List A)
      → IsRising ys
      → keep p (insert_sorted by_key x ys)
        ≡ (if p x then insert_sorted by_key x (keep p ys) else keep p ys)
  unfolding insert_sorted
  keep-insert_sorted p x [] rising = refl
  keep-insert_sorted p x (y ∷ ys) rising = elim (Bool-cases (ltb (key y) (key x))) [
    | inl before ↦ ground (arith, before, keep-insert_sorted p x ys rising.1)
    | inr after ↦ rw after (
        ap (λ zs. if p x then zs else keep p (y ∷ ys))
          (sym (
            insert_sorted-first x (keep p (y ∷ ys)) (
              All-keep x p (y ∷ ys) (
                not_ltb→ge (key y) (key x) after,
                All-le x y ys (not_ltb→ge (key y) (key x) after) rising.0,
              )))))
  ]

  if_sorted :
      (b : Bool) (x : A) (xs : List A)
      → (if b then insert_sorted by_key x (sort_by by_key xs) else sort_by by_key xs)
        ≡ sort_by by_key (if b then x ∷ xs else xs)
  unfolding sort_by
  if_sorted true x xs = refl
  if_sorted false x xs = refl

  -- Filtering a sorted list sorts the filtered one: a sort is stable.
  pub keep-sort_by :
      (p : A → Bool) (xs : List A) → keep p (sort_by by_key xs) ≡ sort_by by_key (keep p xs)
  unfolding sort_by
  keep-sort_by p [] = refl
  keep-sort_by p (x ∷ xs) =
      keep-insert_sorted p x (sort_by by_key xs) (
        sort_by-IsRising by_key (λ a b h. omega (arith, ltb→lt (key a) (key b) h))
          (λ a b. not_ltb→ge (key a) (key b)) xs)
      ∙ ap (λ zs. if p x then insert_sorted by_key x zs else zs) (keep-sort_by p xs)
      ∙ if_sorted (p x) x (keep p xs)
