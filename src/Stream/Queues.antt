-- ===== src/Stream/Queues.antt =====
-- A client's queue against the events that were dispatched.
use sysadmin_assistant.Shared.{
  ℕ, suc, zero, ◌-◌, ◌≤◌, ◌<◌, ◌≡◌, ap, sym, ◌∙◌, true, List, [], ◌∷◌, ◌++◌, arith, length,
  length-append, leb, if◌then◌else◌, inl, inr, Bool-cases,
}
use mathlib.Core.List.{append_assoc, append-nil}
use sysadmin_assistant.Stream.{Event, Queue, full, without_first, put_event}

abbrev pub drop {ℓ} : {A : Type ℓ} → ℕ → List A → List A
drop zero xs = xs
drop (suc n) [] = []
drop (suc n) (x ∷ xs) = drop n xs

-- The last `n` entries of a list.
abbrev pub last_of {ℓ} : {A : Type ℓ} → ℕ → List A → List A
last_of n xs = drop (length xs - n) xs

unfoldable pub put_all : List Event → Queue → Queue
put_all [] q = q
put_all (e ∷ es) q = put_all es (put_event e q)

-- The contents of a bounded queue when one more event is dispatched.
abbrev shifted : ℕ → List Event → Event → List Event
shifted max items e =
    if leb max (length items) then without_first items ++ e ∷ [] else items ++ e ∷ []

put_event-shifted :
    (e : Event) (q : Queue)
    → 0 < q.max_size
    → length q.items ≤ q.max_size
    → put_event e q ≡ record q { items = shifted q.max_size q.items e }
unfolding put_event full
put_event-shifted e q bounded fits = split q.items fits
  where
    split :
        (items : List Event)
        → length items ≤ q.max_size
        → put_event e (record q { items = items }) ≡ record q { items = shifted q.max_size items e }
    split [] f = ground arith
    split (x ∷ xs) f = ground arith

drop-none : {A : Type 0} (n : ℕ) (xs : List A) → n ≡ 0 → drop n xs ≡ xs
drop-none n xs none_left = ap (λ m. drop m xs) none_left

last_of-short : {A : Type 0} (n : ℕ) (xs : List A) → length xs ≤ n → last_of n xs ≡ xs
last_of-short n xs fits = drop-none (length xs - n) xs (omega arith)

-- One more entry in front of a list that is long enough is not among the last ones.
last_of-cons :
    {A : Type 0} (n : ℕ) (x : A) (xs : List A) → n ≤ length xs → last_of n (x ∷ xs) ≡ last_of n xs
last_of-cons n x xs long =
    let one_more : suc (length xs) - n ≡ suc (length xs - n) = omega arith in
    ap (λ m. drop m (x ∷ xs)) one_more

last_of-shifted :
    (n : ℕ) (items es : List Event) (e : Event)
    → 0 < n
    → length items ≤ n
    → last_of n (shifted n items e ++ es) ≡ last_of n (items ++ e ∷ es)
last_of-shifted n [] es e bounded fits = ap (last_of n) (drop_test n e es bounded)
  where
    drop_test : (n : ℕ) (e : Event) (es : List Event) → 0 < n → shifted n [] e ++ es ≡ e ∷ es
    drop_test n e es bounded = ground arith
last_of-shifted n (x ∷ xs) es e bounded fits = elim (Bool-cases (leb n (suc (length xs)))) [
  | inl is_full ↦
      ap (λ b. last_of n ((if b then xs ++ e ∷ [] else (x ∷ xs) ++ e ∷ []) ++ es)) is_full
      ∙ ap (last_of n) (append_assoc xs (e ∷ []) es)
      ∙ sym (last_of-cons n x (xs ++ e ∷ es) (long is_full))
  | inr room ↦
      ap (λ b. last_of n ((if b then xs ++ e ∷ [] else (x ∷ xs) ++ e ∷ []) ++ es)) room
      ∙ ap (last_of n) (append_assoc (x ∷ xs) (e ∷ []) es)
]
  where
    long : leb n (suc (length xs)) ≡ true → n ≤ length (xs ++ e ∷ es)
    long is_full = let counted = length-append xs (e ∷ es) in ground arith

shifted-fits :
    (n : ℕ) (items : List Event) (e : Event)
    → 0 < n
    → length items ≤ n
    → length (shifted n items e) ≤ n
shifted-fits n [] e bounded fits = ground arith
shifted-fits n (x ∷ xs) e bounded fits = let counted = length-append xs (e ∷ []) in ground arith

-- While events are dispatched to a queue with a bound, which holds no more than it, the queue
-- ends with the same bound, and holds the last of its entries and of the events, in order, as many as the bound allows.
pub put_all-last :
    (es : List Event) (q : Queue)
    → 0 < q.max_size
    → length q.items ≤ q.max_size
    → put_all es q ≡ record q { items = last_of q.max_size (q.items ++ es) }
unfolding put_all
put_all-last [] q bounded fits =
    ap (λ items. record q { items = items })
      (sym (ap (last_of q.max_size) (append-nil q.items) ∙ last_of-short q.max_size q.items fits))
put_all-last (e ∷ es) q bounded fits =
    ap (put_all es) (put_event-shifted e q bounded fits)
    ∙ put_all-last es (record q { items = shifted q.max_size q.items e }) bounded
        (shifted-fits q.max_size q.items e bounded fits)
    ∙ ap (λ items. record q { items = items })
        (last_of-shifted q.max_size q.items es e bounded fits)
