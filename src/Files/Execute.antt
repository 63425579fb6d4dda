-- ===== src/Files/Execute.antt =====
-- `_execute_trash` and `execute_plan`. The scan root, the trash root and whether a permanent delete is
-- allowed come from the configuration, the paths resolved.
use sysadmin_assistant.Shared.{
  ℕ, ◌+◌, inl, inr, String, Bool, true, false, not, ◌&&◌, ◌||◌, Option, none, some, List, [], ◌∷◌,
  any, if◌then◌else◌, str_eq,
}
use sysadmin_assistant.Shared.Text.{concat}
use sysadmin_assistant.Files.{
  FilePath, path_eq, Entry, Entry.file, Entry.directory, Entry.symlink, FileSystem, find, Host,
  Outcome, next, make_directory, os_unlink,
}
use sysadmin_assistant.Files.Actions.{
  FileOperation, FileActionResponse, resolve_within, send_to_trash, skip, escapes, execute_move,
}

-- `trash_is_usable`: an error of the `mkdir` makes it false.
abbrev pub usable : Host → FilePath → FilePath → Outcome Unit → FileSystem × Bool
usable host path files_dir (fs, inl error) = (fs, false)
usable host path files_dir (fs, inr made) = (fs, host.same_device files_dir path)

unfoldable pub trash_is_usable : Host → FileSystem → FilePath → FilePath → FileSystem × Bool
trash_is_usable host fs path trash_root =
    usable host path ("files" ∷ trash_root) (make_directory host fs ("files" ∷ trash_root))

abbrev pub unrecoverable : String
unrecoverable =
    "trash unavailable for this file (different filesystem); refusing an unrecoverable delete — set force_delete and enable actions.allow_permanent_delete to override"

abbrev pub deleted : FileOperation → FileOperation
deleted operation = record operation {
  action = "delete";
  destination = none;
  status = "done";
  reason = some "permanently deleted (trash unavailable, delete forced)";
}

abbrev pub trashed :
    Host → Bool → FileOperation → FilePath → FilePath → FileSystem × Bool → Outcome FileOperation
trashed host permanent_allowed operation source trash_root (fs, true) =
    next (send_to_trash host fs source trash_root) λ fs destination.
      (fs, inr (record operation { destination = some destination; status = "done" }))
trashed host false operation source trash_root (fs, false) =
    (fs, inr (skip operation unrecoverable))
trashed host true operation source trash_root (fs, false) =
    next (os_unlink host fs source) λ fs u. (fs, inr (deleted operation))

unfoldable pub execute_trash :
    Host → Bool → FileSystem → FileOperation → FilePath → FilePath → Outcome FileOperation
unfolding trash_is_usable
execute_trash host permanent_allowed fs operation source trash_root =
    trashed host permanent_allowed operation source trash_root
      (trash_is_usable host fs source trash_root)

abbrev is_link : Option Entry → Bool
is_link none = false
is_link (some (file text)) = false
is_link (some directory) = false
is_link (some (symlink target)) = true

-- `path.is_symlink()`: the last name is not followed.
unfoldable pub is_symlink : Host → FileSystem → FilePath → Bool
is_symlink host fs [] = false
is_symlink host fs (name ∷ dir) = is_link (find (name ∷ host.resolve dir) fs)

abbrev pub is_regular : Option Entry → Bool
is_regular none = false
is_regular (some (file text)) = true
is_regular (some directory) = false
is_regular (some (symlink target)) = false

-- `path.is_file()` of a resolved path.
unfoldable pub is_file : FileSystem → FilePath → Bool
is_file fs p = is_regular (find p fs)

abbrev pub reported : Host → FileOperation → Outcome FileOperation → FileSystem × FileOperation
reported host operation (fs, inr reply) = (fs, reply)
reported host operation (fs, inl error) =
    (fs, record operation { status = "failed"; reason = some (host.describe error) })

-- The two actions there are, of a source that is a regular file.
unfoldable pub execute_action :
    Host
    → List FilePath
    → FilePath
    → Bool
    → FileSystem
    → FileOperation
    → FilePath
    → FileSystem × FileOperation
unfolding execute_move execute_trash
execute_action host roots trash_root permanent_allowed fs operation source =
    if str_eq operation.action "move"
    then reported host operation (execute_move host roots fs operation source)
    else if str_eq operation.action "trash"
    then reported host operation
        (execute_trash host permanent_allowed fs operation source trash_root)
    else (fs, skip operation (concat ("unsupported action " ∷ host.repr operation.action ∷ [])))

abbrev pub execute_resolved :
    Host
    → List FilePath
    → FilePath
    → Bool
    → FileSystem
    → FileOperation
    → Option FilePath
    → FileSystem × FileOperation
execute_resolved host roots trash_root permanent_allowed fs operation none =
    (fs, skip operation (escapes operation.source))
execute_resolved host roots trash_root permanent_allowed fs operation (some source) =
    if is_symlink host fs operation.source
    then (fs, skip operation "source is a symlink — never followed")
    else if not (is_file fs source)
    then (fs, skip operation "source no longer exists")
    else execute_action host roots trash_root permanent_allowed fs operation source

-- One operation of `execute_plan`'s loop.
unfoldable pub execute_one :
    Host → List FilePath → FilePath → Bool → FileSystem → FileOperation → FileSystem × FileOperation
execute_one host roots trash_root permanent_allowed fs operation =
    if not (str_eq operation.status "planned")
    then (fs, operation)
    else execute_resolved host roots trash_root permanent_allowed fs operation
        (resolve_within host operation.source roots)

unfoldable pub execute_all :
    Host
    → List FilePath
    → FilePath
    → Bool
    → FileSystem
    → List FileOperation
    → FileSystem × List FileOperation
unfolding execute_one
execute_all host roots trash_root permanent_allowed fs [] = (fs, [])
execute_all host roots trash_root permanent_allowed fs (operation ∷ operations) =
    let first = execute_one host roots trash_root permanent_allowed fs operation in
    let rest = execute_all host roots trash_root permanent_allowed first.0 operations in
    (rest.0, first.1 ∷ rest.1)

-- The paths that the plan takes away.
unfoldable pub removing : List FileOperation → List FilePath
removing [] = []
removing (o ∷ operations) =
    let rest = removing operations in
    if (str_eq o.action "trash" || str_eq o.action "delete") && str_eq o.status "planned"
    then o.source ∷ rest
    else rest

abbrev pub keeps_one_of : List FilePath → Option FilePath → Bool
keeps_one_of gone none = false
keeps_one_of gone (some kept) = any (path_eq kept) gone

-- Does `_assert_duplicates_retain_one` raise?
unfoldable pub loses_kept : List FileOperation → Bool
unfolding removing
loses_kept operations = any (λ o. keeps_one_of (removing operations) o.keep_path) operations

unfoldable pub count_status : String → List FileOperation → ℕ
count_status status [] = 0
count_status status (o ∷ operations) =
    let rest = count_status status operations in if str_eq o.status status then 1 + rest else rest

unfoldable pub bytes_of : List FileOperation → ℕ
bytes_of [] = 0
bytes_of (o ∷ operations) =
    let rest = bytes_of operations in
    if str_eq o.status "planned" || str_eq o.status "done" then o.size_bytes + rest else rest

unfoldable pub finalise : FileActionResponse → FileActionResponse
unfolding count_status bytes_of
finalise response = record response {
  planned_count = count_status "planned" response.operations;
  done_count = count_status "done" response.operations;
  skipped_count = count_status "skipped" response.operations;
  failed_count = count_status "failed" response.operations;
  total_bytes = bytes_of response.operations;
}

-- `none` is the error that a path which is to be kept would go.
unfoldable pub execute_plan :
    Host
    → FilePath
    → FilePath
    → Bool
    → FileSystem
    → FileActionResponse
    → Option (FileSystem × FileActionResponse)
unfolding loses_kept execute_all finalise
execute_plan host root trash_root permanent_allowed fs response =
    let run = execute_all host (root ∷ []) trash_root permanent_allowed fs response.operations in
    if loses_kept response.operations
    then none
    else some (run.0, finalise (record response { operations = run.1; dry_run = false }))
