-- ===== src/Files/Duplicates/Cleanup.antt =====
-- Planning a cleanup of duplicates and carrying it out.
use sysadmin_assistant.Shared.{
  ℕ, String, ◌≡◌, refl, ap, ◌∙◌, Bool, true, false, not, ◌&&◌, ◌||◌, Option, some, List, [], ◌∷◌,
  arith, any, All, if◌then◌else◌, ◌⊎◌, inl, inr, Bool-cases, str_eq,
}
use sysadmin_assistant.Shared.Text.{concat}
use sysadmin_assistant.Files.{FilePath, path_eq, FileSystem, Host}
use sysadmin_assistant.Files.Actions.{FileOperation, FileActionResponse, path_text}
use sysadmin_assistant.Files.Execute.{removing, loses_kept, keeps_one_of, finalise, execute_plan}
use sysadmin_assistant.Files.Kept.{execute_plan_runs}
use sysadmin_assistant.Files.Duplicates.{
  Scan, plan_groups, grouped, strategy_or, planned_cleanup, duplicate_strategies,
  plan_duplicate_cleanup, new_response,
}
use sysadmin_assistant.Files.Duplicates.Groups.Members.{IsDistinct}
use sysadmin_assistant.Files.Duplicates.Groups.{grouped-IsMet}
use sysadmin_assistant.Files.Duplicates.Sound.{
  KeepsCopy, IsRemoval, IsRemoval-KeepsCopy, source_not_kept, plan_groups-removes,
}

module _ (scan : Scan) (strategy : String) where
  kept_stays :
      (o : FileOperation) (r : IsRemoval scan strategy o) (os : List FileOperation)
      → All (IsRemoval scan strategy) os
      → any (path_eq r.kept) (removing os) ≡ false
  unfolding removing
  kept_stays o r [] h = refl
  kept_stays o r (x ∷ os) h =
      let rest = kept_stays o r os h.1 in
      let apart = source_not_kept scan strategy o x r h.0 in
      elim (Bool-cases
        ((str_eq x.action "trash" || str_eq x.action "delete") && str_eq x.status "planned")) [
          | inl goes ↦
              ap (λ b. any (path_eq r.kept) (if b then x.source ∷ removing os else removing os))
                goes
              ∙ ap (λ b. if b then true else any (path_eq r.kept) (removing os)) apart
              ∙ rest
          | inr stays ↦
              ap (λ b. any (path_eq r.kept) (if b then x.source ∷ removing os else removing os))
                stays
              ∙ rest
        ]

  none_lost :
      (os rest : List FileOperation)
      → All (IsRemoval scan strategy) os
      → All (IsRemoval scan strategy) rest
      → any (λ o. keeps_one_of (removing os) o.keep_path) rest ≡ false
  none_lost os [] h g = refl
  none_lost os (o ∷ rest) h g =
      let stays = ap (keeps_one_of (removing os)) g.0.keeps ∙ kept_stays o g.0 os h in
      ap (λ b. if b then true else any (λ o. keeps_one_of (removing os) o.keep_path) rest) stays
      ∙ none_lost os rest h g.1

-- What a cleanup plans: it runs, and each operation names a copy that is kept.
abbrev pub IsSound : Scan → String ⊎ FileActionResponse → Type 0
IsSound scan planned =
    (response : FileActionResponse) × (planned ≡ inr response)
    × (loses_kept response.operations ≡ false)
    × All (KeepsCopy scan) response.operations

cleanup-IsSound :
    (scan : Scan) (root : FilePath) (strategy : String) (max_operations : ℕ) (known is_dir : Bool)
    → known ≡ true
    → IsDistinct scan.walked
    → IsSound scan (
        if◌then◌else◌ {A = String ⊎ FileActionResponse}
          (not known)
          (inl (
            concat (
              "unknown strategy " ∷ scan.repr strategy ∷ "; expected one of newest, largest" ∷ [])))
          (if◌then◌else◌ {A = String ⊎ FileActionResponse}
            (not is_dir)
            (inr (
              finalise (record (new_response "clean_duplicates" root) {
                message = concat ("scan root " ∷ path_text root ∷ " does not exist" ∷ []);
              })))
            (planned_cleanup root strategy
              (plan_groups scan strategy max_operations (grouped scan) []))))
unfolding finalise loses_kept
cleanup-IsSound scan root strategy max_operations false is_dir known distinct = ground arith
cleanup-IsSound scan root strategy max_operations true false known distinct = (_, refl, refl, tt)
cleanup-IsSound scan root strategy max_operations true true known distinct =
    let planned =
      plan_groups-removes scan strategy max_operations (grouped scan) []
        (grouped-IsMet scan distinct) tt in
    (
      _,
      ap (planned_cleanup root strategy) planned.1,
      none_lost scan strategy planned.0.0 planned.0.0 planned.2 planned.2,
      IsRemoval-KeepsCopy scan strategy planned.0.0 planned.2,
    )

-- For a known strategy and a walk that meets no path twice, the cleanup of duplicates is planned
-- without an error, each of its operations removes a path and names another one with the same digest that
-- is kept, and the plan is carried out without being refused.
pub cleanup_keeps_copies :
    (scan : Scan) (root : FilePath) (default : String) (max_operations : ℕ) (wanted : Option String)
    (host : Host) (trash_root : FilePath) (permanent : Bool) (fs : FileSystem)
    → IsDistinct scan.walked
    → any (str_eq (strategy_or default wanted)) duplicate_strategies ≡ true
    → (response : FileActionResponse) × (plan_duplicate_cleanup scan root default max_operations
          wanted
        ≡ inr response)
      × All (KeepsCopy scan) response.operations
      × (loses_kept response.operations ≡ false)
      × (run : FileSystem × FileActionResponse) × (execute_plan host root trash_root permanent fs
            response
          ≡ some run)
unfolding plan_duplicate_cleanup
cleanup_keeps_copies scan root default max_operations wanted host trash_root permanent fs distinct
      known =
    let strategy = strategy_or default wanted in
    let sound =
      cleanup-IsSound scan root strategy max_operations (any (str_eq strategy) duplicate_strategies)
        scan.is_dir known distinct in
    (
      sound.0,
      sound.1,
      sound.3,
      sound.2,
      _,
      execute_plan_runs host root trash_root permanent fs sound.0 sound.2,
    )
