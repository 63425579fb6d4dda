-- ===== src/Files/Kept.antt =====
-- What `execute_plan` keeps and what it decides.
use sysadmin_assistant.Shared.{
  ◌≤◌, String, ◌≡◌, ◌⊎◌, refl, ap, ◌∙◌, Bool, true, false, not, ◌&&◌, Option, none, some, List, [],
  ◌∷◌, arith, any, if◌then◌else◌, inl, inr, str_eq,
}
use sysadmin_assistant.Files.{
  FilePath, path_eq, Entry, file, directory, symlink, FileSystem, find, Host,
}
use sysadmin_assistant.Files.Entries.{copies}
use sysadmin_assistant.Files.Actions.{
  FileOperation, FileActionResponse, resolve_within, is_under, skip,
}
use sysadmin_assistant.Files.Execute.{
  is_regular, is_file, execute_action, execute_resolved, execute_one, execute_all, execute_plan,
  loses_kept, is_symlink, finalise,
}
use sysadmin_assistant.Files.Safe.{Keeps}
use sysadmin_assistant.Files.Fate.{Fate, Safe-Fate, Fate-Spares, Safe-refl, execute_action-Fate}

-- Is the file at the path the source of a planned operation?
abbrev pub takes_away : Host → FilePath → List FileOperation → Bool
takes_away host p operations =
    any (λ o. str_eq o.status "planned" && path_eq (host.resolve o.source) p) operations

found_file :
    (found : Option Entry) → is_regular found ≡ true → (t : String) × (found ≡ some (file t))
found_file none regular = ground arith
found_file (some (file t)) regular = (t, refl)
found_file (some directory) regular = ground arith
found_file (some (symlink target)) regular = ground arith

module _ (host : Host) (roots : List FilePath) (trash_root : FilePath) (permanent : Bool) where
  execute_resolved-Fate :
      (fs : FileSystem) (operation : FileOperation) (s : FilePath)
      → Fate permanent s fs
          (execute_resolved host roots trash_root permanent fs operation (some s)).0
  unfolding is_file
  execute_resolved-Fate fs operation s =
      split (is_symlink host fs operation.source) (is_regular (find s fs)) refl
    where
      split :
          (link regular : Bool)
          → is_regular (find s fs) ≡ regular
          → Fate permanent s fs
              (if◌then◌else◌ {A = FileSystem × FileOperation} link
                (fs, skip operation "source is a symlink — never followed")
                (if◌then◌else◌ {A = FileSystem × FileOperation}
                  (not regular)
                  (fs, skip operation "source no longer exists")
                  (execute_action host roots trash_root permanent fs operation s))).0
      split true regular is = Safe-Fate permanent s fs fs (Safe-refl s fs)
      split false false is = Safe-Fate permanent s fs fs (Safe-refl s fs)
      split false true is =
          let there = found_file (find s fs) is in
          execute_action-Fate host roots trash_root permanent fs operation s there.0 there.1

  -- An operation that is not planned does nothing; a planned one acts on its resolved source.
  execute_one-Fate :
      (fs : FileSystem) (o : FileOperation)
      → ((str_eq o.status "planned" ≡ false)
          × ((execute_one host roots trash_root permanent fs o).0 ≡ fs))
        ⊎ ((str_eq o.status "planned" ≡ true)
            × Fate permanent
                (host.resolve o.source)
                fs
                (execute_one host roots trash_root permanent fs o).0)
  unfolding execute_one resolve_within
  execute_one-Fate fs o =
      split (str_eq o.status "planned") (any (is_under (host.resolve o.source)) roots)
    where
      split :
          (planned within : Bool)
          → ((planned ≡ false)
              × ((if◌then◌else◌ {A = FileSystem × FileOperation}
                    (not planned)
                    (fs, o)
                    (execute_resolved host roots trash_root permanent fs o
                      (if within then some (host.resolve o.source) else none))).0
                  ≡ fs))
            ⊎ ((planned ≡ true)
                × Fate permanent
                    (host.resolve o.source)
                    fs
                    (if◌then◌else◌ {A = FileSystem × FileOperation}
                      (not planned)
                      (fs, o)
                      (execute_resolved host roots trash_root permanent fs o
                        (if within then some (host.resolve o.source) else none))).0)
      split false within = inl (refl, refl)
      split true false = inr (
        refl,
        Safe-Fate permanent (host.resolve o.source) fs fs (Safe-refl (host.resolve o.source) fs),
      )
      split true true = inr (refl, execute_resolved-Fate fs o (host.resolve o.source))

  execute_one-spares :
      (fs : FileSystem) (o : FileOperation) (p : FilePath) (t : String)
      → (str_eq o.status "planned" && path_eq (host.resolve o.source) p) ≡ false
      → find p fs ≡ some (file t)
      → find p (execute_one host roots trash_root permanent fs o).0 ≡ some (file t)
  execute_one-spares fs o p t apart found = elim (execute_one-Fate fs o) [
    | inl idle ↦ ap (find p) idle.1 ∙ found
    | inr acts ↦
        Fate-Spares permanent (host.resolve o.source) fs
          (execute_one host roots trash_root permanent fs o).0 acts.1 p t
          (ground (arith, apart, acts.0)) found
  ]

  execute_all-spares :
      (fs : FileSystem) (operations : List FileOperation) (p : FilePath) (t : String)
      → takes_away host p operations ≡ false
      → find p fs ≡ some (file t)
      → find p (execute_all host roots trash_root permanent fs operations).0 ≡ some (file t)
  unfolding execute_all
  execute_all-spares fs [] p t apart found = found
  execute_all-spares fs (o ∷ operations) p t apart found =
      execute_all-spares (execute_one host roots trash_root permanent fs o).0 operations p t
        (ground arith) (execute_one-spares fs o p t (ground arith) found)

module _ (host : Host) (roots : List FilePath) (trash_root : FilePath) where
  execute_one-Keeps :
      (fs : FileSystem) (o : FileOperation)
      → Keeps fs (execute_one host roots trash_root false fs o).0
  execute_one-Keeps fs o c = elim (execute_one-Fate host roots trash_root false fs o) [
    | inl idle ↦ let same = ap (copies c) idle.1 in omega arith
    | inr acts ↦ acts.1.0 c
  ]

  execute_all-Keeps :
      (fs : FileSystem) (operations : List FileOperation)
      → Keeps fs (execute_all host roots trash_root false fs operations).0
  unfolding execute_all
  execute_all-Keeps fs [] c = omega arith
  execute_all-Keeps fs (o ∷ operations) c =
      let first = execute_one-Keeps fs o c in
      let rest = execute_all-Keeps (execute_one host roots trash_root false fs o).0 operations c in
      omega arith

pub execute_plan_runs :
    (host : Host) (root trash_root : FilePath) (permanent : Bool) (fs : FileSystem)
    (response : FileActionResponse)
    → loses_kept response.operations ≡ false
    → execute_plan host root trash_root permanent fs response ≡ (
        let run = execute_all host (root ∷ []) trash_root permanent fs response.operations in
        some (run.0, finalise (record response { operations = run.1; dry_run = false })))
unfolding execute_plan
execute_plan_runs host root trash_root permanent fs response sound =
    let run = execute_all host (root ∷ []) trash_root permanent fs response.operations in
    ap
      (λ b.
        if b
        then none
        else some (run.0, finalise (record response { operations = run.1; dry_run = false })))
      sound

-- A plan that would not take away a path which it is to keep is run, and a file that stands at
-- a path stands there afterwards with its content, unless a planned operation has that path as its
-- source, resolved: whatever calls the host refuses, and whether or not permanent deletes are
-- allowed, nothing is overwritten.
pub execute_plan-spares :
    (host : Host) (root trash_root : FilePath) (permanent : Bool) (fs : FileSystem)
    (response : FileActionResponse) (p : FilePath) (t : String)
    → loses_kept response.operations ≡ false
    → takes_away host p response.operations ≡ false
    → find p fs ≡ some (file t)
    → (run : FileSystem × FileActionResponse) × (execute_plan host root trash_root permanent fs
          response
        ≡ some run)
      × (find p run.0 ≡ some (file t))
execute_plan-spares host root trash_root permanent fs response p t sound apart found = (
  _,
  execute_plan_runs host root trash_root permanent fs response sound,
  execute_all-spares host (root ∷ []) trash_root permanent fs response.operations p t apart found,
)

-- When permanent deletes are not allowed, a plan that would not take away a path which it is to
-- keep is run, and of every content there are afterwards at least as many files as before, whatever calls
-- the host refuses.
pub execute_plan-copies :
    (host : Host) (root trash_root : FilePath) (fs : FileSystem) (response : FileActionResponse)
    (content : String)
    → loses_kept response.operations ≡ false
    → (run : FileSystem × FileActionResponse) × (execute_plan host root trash_root false fs response
        ≡ some run)
      × (copies content fs ≤ copies content run.0)
execute_plan-copies host root trash_root fs response content sound = (
  _,
  execute_plan_runs host root trash_root false fs response sound,
  execute_all-Keeps host (root ∷ []) trash_root fs response.operations content,
)
