-- ===== src/Files/Actions.antt =====
-- Moving one file and trashing one: `_safe_move`, `send_to_trash`, `_execute_move`, and the records of
-- core/contracts.py that the actions report in.
use sysadmin_assistant.Shared.{
  ℕ, zero, suc, inl, inr, String, Bool, ◌||◌, Option, none, some, List, [], ◌∷◌, any, length,
  if◌then◌else◌,
}
use sysadmin_assistant.Shared.Text.{concat, show}
use sysadmin_assistant.Files.{
  FilePath, path_eq, parent, FileSystem, OsError, OsError.file_exists, OsError.cross_device,
  OsError.os_error, Host, Outcome, next, exists, occupied, make_directory, create_exclusive,
  os_rename, copy2, write_text, os_unlink, unlink_missing_ok,
}

pub record FileOperation : Type 0 where
  pub action : String
  pub source : FilePath
  pub destination : Option FilePath
  pub category : Option String
  pub size_bytes : ℕ
  pub status : String
  pub reason : Option String
  pub keep_path : Option FilePath

pub record FileFlag : Type 0 where
  pub path : FilePath
  pub kind : String
  pub reason : String
  pub size_bytes : ℕ

pub record FileActionResponse : Type 0 where
  pub operation : String
  pub dry_run : Bool
  pub scan_root : FilePath
  pub operations : List FileOperation
  pub flagged : List FileFlag
  pub planned_count : ℕ
  pub done_count : ℕ
  pub skipped_count : ℕ
  pub failed_count : ℕ
  pub total_bytes : ℕ
  pub truncated : Bool
  pub message : String

path_prefix : FilePath → String
path_prefix [] = ""
path_prefix (name ∷ dir) = concat (path_prefix dir ∷ "/" ∷ name ∷ [])

-- `str(path)`
abbrev pub path_text : FilePath → String
unfolding path_prefix
path_text [] = "/"
path_text (name ∷ dir) = path_prefix (name ∷ dir)

unfoldable pub is_under : FilePath → FilePath → Bool
is_under [] root = path_eq [] root
is_under (name ∷ dir) root = let above = is_under dir root in path_eq (name ∷ dir) root || above

unfoldable pub resolve_within : Host → FilePath → List FilePath → Option FilePath
resolve_within host path roots =
    if any (is_under (host.resolve path)) roots then some (host.resolve path) else none

unfoldable pub candidate : Host → String → ℕ → String
candidate host name zero = name
candidate host name (suc n) = concat (host.stem name ∷ "." ∷ show (suc n) ∷ host.suffix name ∷ [])

abbrev pub in_files : FilePath → String → FilePath
in_files trash_root name = name ∷ "files" ∷ trash_root

abbrev pub in_info : FilePath → String → FilePath
in_info trash_root name = concat (name ∷ ".trashinfo" ∷ []) ∷ "info" ∷ trash_root

unfoldable pub taken : FileSystem → FilePath → String → Bool
taken fs trash_root name =
    exists fs (in_files trash_root name) || exists fs (in_info trash_root name)

-- The loop of `send_to_trash` from a value of its counter.
unfoldable pub free_from : Host → FileSystem → FilePath → String → ℕ → ℕ → String
free_from host fs trash_root name zero n = candidate host name n
free_from host fs trash_root name (suc fuel) n =
    let rest = free_from host fs trash_root name fuel (suc n) in
    if taken fs trash_root (candidate host name n) then rest else candidate host name n

-- As many candidates as there are entries, and two more, are enough.
unfoldable pub free_name : Host → FileSystem → FilePath → String → String
unfolding free_from
free_name host fs trash_root name = free_from host fs trash_root name (suc (suc (length fs))) 0

abbrev pub name_of : FilePath → String
name_of [] = ""
name_of (name ∷ dir) = name

unfoldable pub trash_info : Host → FilePath → String
trash_info host path =
    concat
      ("[Trash Info]\nPath=" ∷ host.quote path ∷ "\nDeletionDate=" ∷ host.deleted_at ∷ "\n" ∷ [])

-- What follows an attempt that raised: clean up, then raise.
abbrev pub raising : {A : Type 0} → Outcome Unit → OsError → Outcome A
raising cleaned error = next cleaned (λ fs u. (fs, inl error))

abbrev pub into_trash : Host → FilePath → FilePath → Outcome Unit → Outcome FilePath
into_trash host info_path destination (fs, inl error) =
    raising (unlink_missing_ok host fs info_path) error
into_trash host info_path destination (fs, inr moved) = (fs, inr destination)

-- From the free name on.
unfoldable pub trash_as : Host → FileSystem → FilePath → FilePath → String → Outcome FilePath
unfolding trash_info
trash_as host fs path trash_root name =
    let info_path = in_info trash_root name in
    let destination = in_files trash_root name in
    next (write_text host fs info_path (trash_info host path))
      λ noted u. into_trash host info_path destination (os_rename host noted path destination)

unfoldable pub send_to_trash : Host → FileSystem → FilePath → FilePath → Outcome FilePath
unfolding trash_as
send_to_trash host fs path trash_root = next (make_directory host fs ("files" ∷ trash_root)) λ fs u.
    next (make_directory host fs ("info" ∷ trash_root))
      λ fs u. trash_as host fs path trash_root (free_name host fs trash_root (name_of path))

abbrev pub copied_over : Host → FilePath → FilePath → Outcome Unit → Outcome Unit
copied_over host source destination (fs, inr moved) = (fs, inr tt)
copied_over host source destination (fs, inl cross_device) =
    next (copy2 host fs source destination) λ fs u. os_unlink host fs source
copied_over host source destination (fs, inl file_exists) =
    raising (unlink_missing_ok host fs destination) file_exists
copied_over host source destination (fs, inl (os_error text)) =
    raising (unlink_missing_ok host fs destination) (os_error text)

unfoldable pub safe_move : Host → FileSystem → FilePath → FilePath → Outcome Unit
safe_move host fs source destination = next (make_directory host fs (parent destination)) λ fs u.
    next (create_exclusive host fs destination)
      λ fs u. copied_over host source destination (os_rename host fs source destination)

abbrev pub skip : FileOperation → String → FileOperation
skip operation reason = record operation { status = "skipped"; reason = some reason }

abbrev pub moved_to : FileOperation → FilePath → Outcome Unit → Outcome FileOperation
moved_to operation destination (fs, inr done) =
    (fs, inr (record operation { destination = some destination; status = "done" }))
moved_to operation destination (fs, inl file_exists) =
    (fs, inr (skip operation "destination appeared during the move — not overwriting"))
moved_to operation destination (fs, inl cross_device) = (fs, inl cross_device)
moved_to operation destination (fs, inl (os_error text)) = (fs, inl (os_error text))

abbrev pub escapes : FilePath → String
escapes path =
    concat
      ("refusing to operate on " ∷ path_text path ∷ ": resolves outside the allowed roots" ∷ [])

abbrev pub move_into :
    Host
    → FileSystem
    → FileOperation
    → FilePath
    → FilePath
    → Option FilePath
    → Outcome FileOperation
move_into host fs operation source wanted none = (fs, inr (skip operation (escapes wanted)))
move_into host fs operation source wanted (some destination) =
    if occupied fs destination
    then (fs, inr (skip operation "destination already exists — not overwriting"))
    else moved_to operation destination (safe_move host fs source destination)

abbrev pub move_to :
    Host
    → List FilePath
    → FileSystem
    → FileOperation
    → FilePath
    → Option FilePath
    → Outcome FileOperation
move_to host roots fs operation source none = (fs, inr (skip operation "no destination"))
move_to host roots fs operation source (some wanted) =
    move_into host fs operation source wanted (resolve_within host wanted roots)

unfoldable pub execute_move :
    Host → List FilePath → FileSystem → FileOperation → FilePath → Outcome FileOperation
execute_move host roots fs operation source =
    move_to host roots fs operation source operation.destination
