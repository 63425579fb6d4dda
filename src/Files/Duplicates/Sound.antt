-- ===== src/Files/Duplicates/Sound.antt =====
-- A cleanup of duplicates can always be planned and carried out, and keeps a copy of each file.
use sysadmin_assistant.Shared.{
  ℕ, ◌⊎◌, String, ◌≡◌, refl, ap, sym, subst, ◌∙◌, Bool, true, false, not, ◌||◌, ◌==◌, Option, none,
  some, List, [], ◌∷◌, ◌++◌, arith, any, map, All, All-append, length, ltb, leb, if◌then◌else◌, inl,
  inr, Bool-cases,
}
use sysadmin_assistant.Shared.Dict.{lookup}
use sysadmin_assistant.Shared.Text.{concat}
use sysadmin_assistant.Files.{FilePath, path_eq}
use sysadmin_assistant.Files.Entries.{path_eq-eq, path_eq_comm}
use sysadmin_assistant.Files.Actions.{FileOperation}
use sysadmin_assistant.Files.Duplicates.{
  Scan, digest_of, members_of, pick_keeper, removal, removals_of, plan_group, group_planned,
  plan_groups,
}
use sysadmin_assistant.Files.Duplicates.Groups.Members.{IsDistinct}
use sysadmin_assistant.Files.Duplicates.Groups.{
  all_groups, IsMet, pick_keeper-member, removals_of-length, keeper_not_removed,
}

-- The operation names a copy that is kept: another path with the same digest.
abbrev pub KeepsCopy : Scan → FileOperation → Type 0
KeepsCopy scan o =
    (kept : FilePath) × (o.keep_path ≡ some kept)
    × (digest_of scan o.source ≡ digest_of scan kept)
    × (path_eq o.source kept ≡ false)

module _ (scan : Scan) (strategy : String) where
  unfoldable pub keeper_of : String → Option FilePath
  keeper_of digest = pick_keeper scan strategy (members_of (lookup digest (all_groups scan)))

  pub record IsRemoval (o : FileOperation) : Type 0 where
    pub digest : String
    pub kept : FilePath
    pub keeps : o.keep_path ≡ some kept
    pub source_digest : digest_of scan o.source ≡ some digest
    pub kept_digest : digest_of scan kept ≡ some digest
    pub apart : path_eq o.source kept ≡ false
    pub chosen : keeper_of digest ≡ some kept

  pub IsRemoval-KeepsCopy : (os : List FileOperation) → All IsRemoval os → All (KeepsCopy scan) os
  IsRemoval-KeepsCopy [] h = tt
  IsRemoval-KeepsCopy (o ∷ os) h =
      let r = h.0 in
      ((r.kept, r.keeps, r.source_digest ∙ sym r.kept_digest, r.apart), IsRemoval-KeepsCopy os h.1)

  abbrev keeper_for : Option String → Option FilePath
  keeper_for none = none
  keeper_for (some digest) = keeper_of digest

  abbrev is_path : FilePath → Option FilePath → Bool
  is_path p none = false
  is_path p (some q) = path_eq p q

  -- The source of one removal is not what another keeps.
  pub source_not_kept :
      (o x : FileOperation) → (r : IsRemoval o) → IsRemoval x → path_eq r.kept x.source ≡ false
  unfolding keeper_of
  source_not_kept o x r y = elim (Bool-cases (path_eq r.kept x.source)) [
    | inr differs ↦ differs
    | inl same ↦
        let meet = path_eq-eq r.kept x.source same in
        let digests = sym r.kept_digest ∙ ap (digest_of scan) meet ∙ y.source_digest in
        let kepts = sym r.chosen ∙ ap keeper_for digests ∙ y.chosen in
        let clash = ap (is_path x.source) kepts in
        let turned = path_eq_comm r.kept x.source in ground (arith, same, turned, clash, y.apart)
  ]

  member_digest :
      (k : FilePath) (d : String) (ms : List FilePath)
      → All (λ p. digest_of scan p ≡ some d) ms
      → any (path_eq k) ms ≡ true
      → digest_of scan k ≡ some d
  member_digest k d [] same there = ground arith
  member_digest k d (m ∷ ms) same there = elim (Bool-cases (path_eq k m)) [
    | inl meet ↦ ap (digest_of scan) (path_eq-eq k m meet) ∙ same.0
    | inr differs ↦ member_digest k d ms same.1 (ground arith)
  ]

  removals-IsRemoval :
      (k : FilePath) (d : String) (ms : List FilePath)
      → All (λ p. digest_of scan p ≡ some d) ms
      → digest_of scan k ≡ some d
      → keeper_of d ≡ some k
      → All IsRemoval (map (removal scan strategy k) (removals_of k ms))
  unfolding removal
  removals-IsRemoval k d [] same kd chosen = tt
  removals-IsRemoval k d (m ∷ ms) same kd chosen = elim (Bool-cases (path_eq m k)) [
    | inl meet ↦
        subst
          (λ b. All IsRemoval (
            map (removal scan strategy k)
              (if not b then m ∷ removals_of k ms else removals_of k ms)))
          (sym meet) (removals-IsRemoval k d ms same.1 kd chosen)
    | inr differs ↦
        subst
          (λ b. All IsRemoval (
            map (removal scan strategy k)
              (if not b then m ∷ removals_of k ms else removals_of k ms)))
          (sym differs)
          (
            record {
              digest = d;
              kept = k;
              keeps = refl;
              source_digest = same.0;
              kept_digest = kd;
              apart = differs;
              chosen = chosen;
            },
            removals-IsRemoval k d ms same.1 kd chosen,
          )
  ]

  equal_counts : {a b : ℕ} → a ≡ b → (a == b) ≡ true
  equal_counts same = ground arith

  chosen_keeper :
      (d : String) (k : FilePath)
      → pick_keeper scan strategy (members_of (lookup d (all_groups scan))) ≡ some k
      → keeper_of d ≡ some k
  unfolding keeper_of
  chosen_keeper d k chosen = chosen

  -- The invariant that the code checks holds.
  plan_group-removes :
      (d : String) (k : FilePath) (ms : List FilePath)
      → IsDistinct ms
      → any (path_eq k) ms ≡ true
      → plan_group scan strategy d ms (some k)
        ≡ inr (map (removal scan strategy k) (removals_of k ms))
  plan_group-removes d k ms distinct there =
      let counted = removals_of-length k ms distinct there in
      let gone = keeper_not_removed k ms in
      let all = removals_of k ms in
      let raised =
        inl (concat ("duplicate group " ∷ d ∷ " would not retain exactly one copy" ∷ [])) in
      ap
        (λ b.
          if◌then◌else◌ {A = String ⊎ List FileOperation} (not b || any (λ p. path_eq p k) all)
            raised (inr (map (removal scan strategy k) all)))
        (equal_counts counted)
      ∙ ap
          (λ b.
            if◌then◌else◌ {A = String ⊎ List FileOperation} b raised
              (inr (map (removal scan strategy k) all)))
          gone

  abbrev Planned : Type 0
  Planned = String ⊎ (List FileOperation × Bool)

  abbrev Removes : Planned → Type 0
  Removes planned = (r : List FileOperation × Bool) × (planned ≡ inr r) × All IsRemoval r.0

  group_step :
      (max_operations : ℕ) (gs : List (String × List FilePath)) (os more : List FileOperation)
      (few full : Bool) (group : String ⊎ List FileOperation)
      → group ≡ inr more
      → All IsRemoval os
      → Removes (plan_groups scan strategy max_operations gs os)
      → Removes (plan_groups scan strategy max_operations gs (os ++ more))
      → Removes (group_planned (plan_groups scan strategy max_operations gs) os few full group)
  group_step max_operations gs os more true full group is removals skipped extended = skipped
  group_step max_operations gs os more false true group is removals skipped extended =
      ((os, true), refl, removals)
  group_step max_operations gs os more false false group is removals skipped extended = (
    extended.0,
    ap (group_planned (plan_groups scan strategy max_operations gs) os false false) is ∙ extended.1,
    extended.2,
  )

  pub plan_groups-removes :
      (max_operations : ℕ) (gs : List (String × List FilePath)) (os : List FileOperation)
      → All (IsMet scan) gs
      → All IsRemoval os
      → (r : List FileOperation × Bool) × (plan_groups scan strategy max_operations gs os ≡ inr r)
        × All IsRemoval r.0
  unfolding plan_groups
  plan_groups-removes max_operations [] os met removals = ((os, false), refl, removals)
  plan_groups-removes max_operations ((d, []) ∷ gs) os met removals =
      plan_groups-removes max_operations gs os met.1 removals
  plan_groups-removes max_operations ((d, m ∷ ms) ∷ gs) os met removals =
      let keeper = pick_keeper-member scan strategy m ms in
      let group = met.0.1 in
      let kd = member_digest keeper.0 d (m ∷ ms) group.same keeper.2 in
      let chosen = ap (λ o. pick_keeper scan strategy (members_of o)) met.0.0 ∙ keeper.1 in
      let more = map (removal scan strategy keeper.0) (removals_of keeper.0 (m ∷ ms)) in
      let planned =
        ap (plan_group scan strategy d (m ∷ ms)) keeper.1
        ∙ plan_group-removes d keeper.0 (m ∷ ms) group.distinct keeper.2 in
      let extended =
        All-append IsRemoval os more removals (
          removals-IsRemoval keeper.0 d (m ∷ ms) group.same kd (chosen_keeper d keeper.0 chosen)) in
      group_step max_operations gs os more (ltb (length (m ∷ ms)) 2)
        (leb max_operations (length os))
        (plan_group scan strategy d (m ∷ ms) (pick_keeper scan strategy (m ∷ ms))) planned removals
        (plan_groups-removes max_operations gs os met.1 removals)
        (plan_groups-removes max_operations gs (os ++ more) met.1 extended)
