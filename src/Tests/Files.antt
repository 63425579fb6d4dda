-- ===== src/Tests/Files.antt =====
-- A plan that archives one file and trashes another, where both names are taken.
use sysadmin_assistant.Shared.{
  any, All, inr, ◌≡◌, ◌≤◌, refl, true, false, none, some, [], ◌∷◌, length, ℕ, str_eq, Option,
  String, if◌then◌else◌,
}
use sysadmin_assistant.Files.{
  FilePath, FileSystem, file, directory, find, path_eq, Host, SystemCall, rename, OsError,
  cross_device,
}
use sysadmin_assistant.Files.Entries.{copies}
use sysadmin_assistant.Files.Actions.{
  FileOperation, FileActionResponse, candidate, taken, free_name,
}
use sysadmin_assistant.Files.Execute.{execute_plan, loses_kept}
use sysadmin_assistant.Files.FreeName.{free_name-first, all_taken}
use sysadmin_assistant.Files.Kept.{takes_away, execute_plan-copies, execute_plan-spares}
use sysadmin_assistant.Files.Decided.{execute_plan-decides}
use sysadmin_assistant.Files.Duplicates.{
  Scan, strategy_or, duplicate_strategies, plan_duplicate_cleanup,
}
use sysadmin_assistant.Files.Duplicates.Groups.Members.{IsDistinct}
use sysadmin_assistant.Files.Duplicates.Sound.{KeepsCopy}
use sysadmin_assistant.Files.Duplicates.Cleanup.{cleanup_keeps_copies}

abbrev home : FilePath
home = "ann" ∷ "home" ∷ []

abbrev trash : FilePath
trash = "Trash" ∷ home

abbrev in_home : String → FilePath
in_home name = name ∷ home

abbrev disk : FileSystem
disk =
    ([], directory)
    ∷ ("home" ∷ [], directory)
    ∷ (home, directory)
    ∷ (in_home "a.pdf", file "alpha")
    ∷ (in_home "b.pdf", file "beta")
    ∷ (in_home "c.pdf", file "beta")
    ∷ (trash, directory)
    ∷ ("files" ∷ trash, directory)
    ∷ ("b.pdf" ∷ "files" ∷ trash, file "old")
    ∷ []

-- The archive is on another device than the home folder.
abbrev across : SystemCall → Option OsError
across (rename source destination) =
    if path_eq destination ("a.pdf" ∷ "archive" ∷ home) then some cross_device else none
across call = none

abbrev host : Host
host = record {
  refuses = across;
  torn = λ call. none;
  same_device = λ p q. true;
  resolve = λ p. p;
  describe = λ error. "OSError";
  stem = λ name. "b";
  suffix = λ name. ".pdf";
  quote = λ p. "path";
  repr = λ text. text;
  deleted_at = "2026-01-01T00:00:00";
}

abbrev move_a : FileOperation
move_a = record {
  action = "move";
  source = in_home "a.pdf";
  destination = some ("a.pdf" ∷ "archive" ∷ home);
  category = none;
  size_bytes = 5;
  status = "planned";
  reason = none;
  keep_path = none;
}

abbrev trash_b : FileOperation
trash_b = record {
  action = "trash";
  source = in_home "b.pdf";
  destination = none;
  category = none;
  size_bytes = 4;
  status = "planned";
  reason = none;
  keep_path = some (in_home "c.pdf");
}

abbrev plan : FileActionResponse
plan = record {
  operation = "organise";
  dry_run = true;
  scan_root = home;
  operations = move_a ∷ trash_b ∷ [];
  flagged = [];
  planned_count = 2;
  done_count = 0;
  skipped_count = 0;
  failed_count = 0;
  total_bytes = 9;
  truncated = false;
  message = "";
}

keeps_one : loses_kept plan.operations ≡ false
unfolding loses_kept str_eq path_eq
keeps_one = refl

stays : takes_away host (in_home "c.pdf") plan.operations ≡ false
unfolding str_eq path_eq
stays = refl

stands : find (in_home "c.pdf") disk ≡ some (file "beta")
unfolding find str_eq path_eq
stands = refl

free_name-first_example :
    (i : ℕ) × (free_name host disk trash "b.pdf" ≡ candidate host "b.pdf" i)
    × (taken disk trash (candidate host "b.pdf" i) ≡ false)
    × (all_taken host disk trash "b.pdf" i ≡ true)
free_name-first_example = free_name-first host disk trash "b.pdf"

execute_plan-copies_example :
    (run : FileSystem × FileActionResponse) × (execute_plan host home trash false disk plan
      ≡ some run)
    × (copies "beta" disk ≤ copies "beta" run.0)
execute_plan-copies_example = execute_plan-copies host home trash disk plan "beta" keeps_one

execute_plan-spares_example :
    (run : FileSystem × FileActionResponse) × (execute_plan host home trash true disk plan
      ≡ some run)
    × (find (in_home "c.pdf") run.0 ≡ some (file "beta"))
execute_plan-spares_example =
    execute_plan-spares host home trash true disk plan (in_home "c.pdf") "beta" keeps_one stays
      stands

execute_plan-decides_example :
    (run : FileSystem × FileActionResponse) × (execute_plan host home trash false disk plan
      ≡ some run)
    × (run.1.planned_count ≡ 0)
    × (length run.1.operations ≡ length plan.operations)
execute_plan-decides_example = execute_plan-decides host home trash false disk plan keeps_one

-- Two copies and a file of its own.
abbrev scan : Scan
scan = record {
  is_dir = true;
  walked = in_home "a.pdf" ∷ in_home "b.pdf" ∷ in_home "c.pdf" ∷ [];
  size_of = λ p. 4096;
  modified = λ p. 7;
  file_hash = λ p size. if path_eq p (in_home "a.pdf") then some "one" else some "two";
  repr = λ text. text;
}

walk-IsDistinct : IsDistinct scan.walked
unfolding str_eq path_eq
walk-IsDistinct = (refl, (refl, (refl, tt)))

known_strategy : any (str_eq (strategy_or "newest" none)) duplicate_strategies ≡ true
unfolding str_eq
known_strategy = refl

cleanup_keeps_copies_example :
    (response : FileActionResponse) × (plan_duplicate_cleanup scan home "newest" 100 none
      ≡ inr response)
    × All (KeepsCopy scan) response.operations
    × (loses_kept response.operations ≡ false)
    × (run : FileSystem × FileActionResponse) × (execute_plan host home trash false disk response
        ≡ some run)
cleanup_keeps_copies_example =
    cleanup_keeps_copies scan home "newest" 100 none host trash false disk walk-IsDistinct
      known_strategy
