-- ===== src/Files/Duplicates/Groups.antt =====
-- The groups as the planner meets them, each with its keeper.
pub mod Members
use sysadmin_assistant.Shared.{
  suc, ◌⊎◌, String, ◌≡◌, refl, ap, sym, subst, ◌∙◌, Bool, true, false, Option, none, some, List, [],
  ◌∷◌, ◌++◌, arith, any, All, All-append, length, if◌then◌else◌, inl, inr, Bool-cases, str_eq,
  str_eq_iff,
}
use sysadmin_assistant.Shared.Dict.{Dict, lookup, insert, lookup-insert}
use sysadmin_assistant.Shared.Sort.{sort_by, any-sort_by, All-sort_by}
use sysadmin_assistant.Files.{FilePath, path_eq}
use sysadmin_assistant.Files.Entries.{path_eq-eq, path_eq_refl, path_eq_comm}
use sysadmin_assistant.Files.Duplicates.{
  Scan, digest_of, members_of, add_to_group, group_all, sorts_before, first_of, pick_keeper,
  removals_of, group_less, grouped,
}
use sysadmin_assistant.Files.Duplicates.Groups.Members.{
  IsDistinct, any-snoc, snoc-IsDistinct, AreGroups, no_members, All-later, pass-IsGroup,
  join-IsGroup, add_to_group-AreGroups, group_all-AreGroups, IsGroup,
}

-- No two entries have the same key, so each is what a lookup finds.
abbrev IsUnique : Dict (List FilePath) → Type 0
IsUnique [] = Unit
IsUnique ((k, v) ∷ d) = (lookup k d ≡ none) × IsUnique d

insert-IsUnique :
    (k : String) (v : List FilePath) (d : Dict (List FilePath))
    → IsUnique d
    → IsUnique (insert k v d)
unfolding insert lookup
insert-IsUnique k v [] u = (refl, tt)
insert-IsUnique k v ((j, w) ∷ d) u = elim (Bool-cases (str_eq j k)) [
  | inl same ↦ subst (λ b. IsUnique (if b then (j, v) ∷ d else (j, w) ∷ insert k v d)) (sym same) u
  | inr differs ↦
      let absent : lookup j (insert k v d) ≡ none =
        lookup-insert k j v d ∙ ground (arith, differs, u.0, str_eq_iff k j, str_eq_iff j k) in
      subst (λ b. IsUnique (if b then (j, v) ∷ d else (j, w) ∷ insert k v d)) (sym differs)
        (absent, insert-IsUnique k v d u.1)
]

group_all-IsUnique :
    (scan : Scan) (walked : List FilePath) (groups : Dict (List FilePath))
    → IsUnique groups
    → IsUnique (group_all scan walked groups)
unfolding group_all
group_all-IsUnique scan [] groups u = u
group_all-IsUnique scan (p ∷ walked) groups u =
    group_all-IsUnique scan walked (add_to_group p (digest_of scan p) groups)
      (added (digest_of scan p))
  where
    added : (found : Option String) → IsUnique (add_to_group p found groups)
    added none = u
    added (some digest) =
        insert-IsUnique digest (members_of (lookup digest groups) ++ p ∷ []) groups u

-- What a lookup of its key finds is the entry.
abbrev Found : Dict (List FilePath) → String × List FilePath → Type 0
Found d g = lookup g.0 d ≡ some g.1

Found-later :
    (j : String) (w : List FilePath) (d gs : Dict (List FilePath))
    → lookup j d ≡ none
    → All (Found d) gs
    → All (Found ((j, w) ∷ d)) gs
unfolding lookup
Found-later j w d [] absent found = tt
Found-later j w d ((k, v) ∷ gs) absent found =
    (one (Bool-cases (str_eq j k)), Found-later j w d gs absent found.1)
  where
    one :
        (str_eq j k ≡ true) ⊎ (str_eq j k ≡ false)
        → (if str_eq j k then some w else lookup k d) ≡ some v
    one (inl same) =
        let clash = ap (λ i. lookup i d) ((str_eq_iff j k).0 same) in
        ground (arith, clash, absent, found.0)
    one (inr differs) = ground (arith, differs, found.0)

IsUnique-Found : (d : Dict (List FilePath)) → IsUnique d → All (Found d) d
unfolding lookup
IsUnique-Found [] u = tt
IsUnique-Found ((j, w) ∷ d) u = (
  ap (λ b. if b then some w else lookup j d) ((str_eq_iff j j).1 refl),
  Found-later j w d d u.0 (IsUnique-Found d u.1),
)

abbrev pub all_groups : Scan → Dict (List FilePath)
all_groups scan = group_all scan scan.walked []

-- What is known of a group that the planner meets.
abbrev pub IsMet : Scan → String × List FilePath → Type 0
IsMet scan g = (lookup g.0 (all_groups scan) ≡ some g.1) × IsGroup scan [] g.0 g.1

Found-IsMet :
    (scan : Scan) (gs : Dict (List FilePath))
    → AreGroups scan [] (all_groups scan)
    → All (Found (all_groups scan)) gs
    → All (IsMet scan) gs
Found-IsMet scan [] all found = tt
Found-IsMet scan ((k, v) ∷ gs) all found = (
  (found.0, subst (λ o. IsGroup scan [] k (members_of o)) found.0 (all k)),
  Found-IsMet scan gs all found.1,
)

pub grouped-IsMet : (scan : Scan) → IsDistinct scan.walked → All (IsMet scan) (grouped scan)
unfolding grouped lookup
grouped-IsMet scan distinct = All-sort_by group_less (IsMet scan) (all_groups scan) (
    Found-IsMet scan (all_groups scan)
      (group_all-AreGroups scan scan.walked [] distinct
        (λ digest. no_members scan scan.walked digest))
      (IsUnique-Found (all_groups scan) (group_all-IsUnique scan scan.walked [] tt)))

-- A group that has members has a keeper among them.
pub pick_keeper-member :
    (scan : Scan) (strategy : String) (m : FilePath) (ms : List FilePath)
    → (k : FilePath) × (pick_keeper scan strategy (m ∷ ms) ≡ some k)
      × (any (path_eq k) (m ∷ ms) ≡ true)
unfolding pick_keeper
pick_keeper-member scan strategy m ms =
    split (sort_by (sorts_before scan strategy) (m ∷ ms))
      (λ p. any-sort_by (sorts_before scan strategy) p (m ∷ ms))
  where
    split :
        (sorted : List FilePath)
        → ((p : FilePath → Bool) → any p sorted ≡ any p (m ∷ ms))
        → (k : FilePath) × (first_of sorted ≡ some k) × (any (path_eq k) (m ∷ ms) ≡ true)
    split [] same = absurd (nothing (same (path_eq m)))
      where
        nothing : any (path_eq m) [] ≡ any (path_eq m) (m ∷ ms) → ⊥
        nothing h = ground (arith, h, path_eq_refl m)
    split (k ∷ sorted) same = (k, refl, sym (same (path_eq k)) ∙ here)
      where
        here : any (path_eq k) (k ∷ sorted) ≡ true
        here = ground (arith, path_eq_refl k)

none_removed :
    (k : FilePath) (ms : List FilePath)
    → any (path_eq k) ms ≡ false
    → length (removals_of k ms) ≡ length ms
none_removed k [] absent = refl
none_removed k (m ∷ ms) absent =
    let rest = none_removed k ms (ground arith) in
    let other = path_eq_comm m k in ground (arith, rest, other, absent)

-- All members but the keeper are removed.
pub removals_of-length :
    (k : FilePath) (ms : List FilePath)
    → IsDistinct ms
    → any (path_eq k) ms ≡ true
    → suc (length (removals_of k ms)) ≡ length ms
removals_of-length k [] distinct there = ground arith
removals_of-length k (m ∷ ms) distinct there = elim (Bool-cases (path_eq m k)) [
  | inl same ↦
      let meet = path_eq-eq m k same in
      let rest = none_removed k ms (ap (λ p. any (path_eq p) ms) (sym meet) ∙ distinct.0) in
      ground (arith, same, rest)
  | inr other ↦
      let apart = path_eq_comm m k in
      let rest = removals_of-length k ms distinct.1 (ground (arith, there, other, apart)) in
      ground (arith, other, rest)
]

pub keeper_not_removed :
    (k : FilePath) (ms : List FilePath) → any (λ p. path_eq p k) (removals_of k ms) ≡ false
keeper_not_removed k [] = refl
keeper_not_removed k (m ∷ ms) = let rest = keeper_not_removed k ms in ground (arith, rest)
