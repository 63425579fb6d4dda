-- ===== src/Files/Duplicates/Groups/Members.antt =====
-- The members of the groups of a walk: they have the digest of the group, and differ.
use sysadmin_assistant.Shared.{
  String, ◌≡◌, refl, sym, subst, false, Option, none, some, List, [], ◌∷◌, ◌++◌, arith, any, All,
  All-append, if◌then◌else◌, inl, inr, Bool-cases, str_eq, str_eq_iff,
}
use sysadmin_assistant.Shared.Dict.{Dict, lookup, lookup-insert}
use sysadmin_assistant.Files.{FilePath, path_eq}
use sysadmin_assistant.Files.Duplicates.{Scan, digest_of, members_of, add_to_group, group_all}

-- The paths differ from each other.
abbrev pub IsDistinct : List FilePath → Type 0
IsDistinct [] = Unit
IsDistinct (p ∷ paths) = (any (path_eq p) paths ≡ false) × IsDistinct paths

pub any-snoc :
    (q p : FilePath) (ms : List FilePath)
    → any (path_eq q) ms ≡ false
    → path_eq q p ≡ false
    → any (path_eq q) (ms ++ p ∷ []) ≡ false
any-snoc q p [] absent apart = ground arith
any-snoc q p (m ∷ ms) absent apart = ground (arith, any-snoc q p ms)

pub snoc-IsDistinct :
    (ms : List FilePath) (p : FilePath)
    → IsDistinct ms
    → All (λ q. path_eq q p ≡ false) ms
    → IsDistinct (ms ++ p ∷ [])
snoc-IsDistinct [] p distinct apart = (refl, tt)
snoc-IsDistinct (m ∷ ms) p distinct apart =
    (any-snoc m p ms distinct.0 apart.0, snoc-IsDistinct ms p distinct.1 apart.1)

-- The members of a group, while `rest` is still to be walked.
pub record IsGroup (scan : Scan) (rest : List FilePath) (digest : String) (ms : List FilePath)
    : Type 0 where
  pub same : All (λ p. digest_of scan p ≡ some digest) ms
  pub distinct : IsDistinct ms
  pub walked : All (λ p. any (path_eq p) rest ≡ false) ms

abbrev pub AreGroups : Scan → List FilePath → Dict (List FilePath) → Type 0
AreGroups scan rest groups =
    (digest : String) → IsGroup scan rest digest (members_of (lookup digest groups))

pub no_members :
    (scan : Scan) (rest : List FilePath) (digest : String) → IsGroup scan rest digest []
no_members scan rest digest = record { same = tt; distinct = tt; walked = tt }

pub All-later :
    (p : FilePath) (rest ms : List FilePath)
    → All (λ q. any (path_eq q) (p ∷ rest) ≡ false) ms
    → All (λ q. path_eq q p ≡ false) ms × All (λ q. any (path_eq q) rest ≡ false) ms
All-later p rest [] h = (tt, tt)
All-later p rest (m ∷ ms) h =
    let later = All-later p rest ms h.1 in
    ((ground (arith, h.0), later.0), (ground (arith, h.0), later.1))

pub pass-IsGroup :
    (scan : Scan) (p : FilePath) (rest : List FilePath) (digest : String) (ms : List FilePath)
    → IsGroup scan (p ∷ rest) digest ms
    → IsGroup scan rest digest ms
pass-IsGroup scan p rest digest ms g = record {
  same = g.same;
  distinct = g.distinct;
  walked = (All-later p rest ms g.walked).1;
}

pub join-IsGroup :
    (scan : Scan) (p : FilePath) (rest : List FilePath) (digest : String) (ms : List FilePath)
    → digest_of scan p ≡ some digest
    → any (path_eq p) rest ≡ false
    → IsGroup scan (p ∷ rest) digest ms
    → IsGroup scan rest digest (ms ++ p ∷ [])
join-IsGroup scan p rest digest ms found fresh g =
    let later = All-later p rest ms g.walked in
    record {
      same = All-append (λ q. digest_of scan q ≡ some digest) ms (p ∷ []) g.same (found, tt);
      distinct = snoc-IsDistinct ms p g.distinct later.0;
      walked = All-append (λ q. any (path_eq q) rest ≡ false) ms (p ∷ []) later.1 (fresh, tt);
    }

pub add_to_group-AreGroups :
    (scan : Scan) (p : FilePath) (rest : List FilePath) (found : Option String)
    (groups : Dict (List FilePath))
    → digest_of scan p ≡ found
    → any (path_eq p) rest ≡ false
    → AreGroups scan (p ∷ rest) groups
    → AreGroups scan rest (add_to_group p found groups)
add_to_group-AreGroups scan p rest none groups is fresh all digest =
    pass-IsGroup scan p rest digest (members_of (lookup digest groups)) (all digest)
add_to_group-AreGroups scan p rest (some own) groups is fresh all digest =
    let ms = members_of (lookup own groups) ++ p ∷ [] in
    subst (λ m. IsGroup scan rest digest (members_of m)) (sym (lookup-insert own digest ms groups))
      (elim (Bool-cases (str_eq own digest)) [
        | inl same ↦
            subst
              (λ b.
                IsGroup scan rest digest (members_of (if b then some ms else lookup digest groups)))
              (sym same)
              (subst (λ d. IsGroup scan rest d ms) ((str_eq_iff own digest).0 same)
                (join-IsGroup scan p rest own (members_of (lookup own groups)) is fresh (all own)))
        | inr differs ↦
            subst
              (λ b.
                IsGroup scan rest digest (members_of (if b then some ms else lookup digest groups)))
              (sym differs)
              (pass-IsGroup scan p rest digest (members_of (lookup digest groups)) (all digest))
      ])

pub group_all-AreGroups :
    (scan : Scan) (walked : List FilePath) (groups : Dict (List FilePath))
    → IsDistinct walked
    → AreGroups scan walked groups
    → AreGroups scan [] (group_all scan walked groups)
unfolding group_all
group_all-AreGroups scan [] groups distinct all = all
group_all-AreGroups scan (p ∷ walked) groups distinct all =
    group_all-AreGroups scan walked (add_to_group p (digest_of scan p) groups) distinct.1
      (add_to_group-AreGroups scan p walked (digest_of scan p) groups refl distinct.0 all)
