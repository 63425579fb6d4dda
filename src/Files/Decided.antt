-- ===== src/Files/Decided.antt =====
-- Every operation of a plan is decided when it has been executed.
use sysadmin_assistant.Shared.{
  ◌+◌, String, ◌≡◌, refl, ap, ◌∙◌, Bool, true, false, not, Option, none, some, List, [], ◌∷◌, arith,
  length, if◌then◌else◌, inl, inr, str_eq,
}
use sysadmin_assistant.Shared.Text.{concat}
use sysadmin_assistant.Files.{
  FilePath, FileSystem, file_exists, cross_device, os_error, Host, Outcome, next, occupied,
  os_unlink,
}
use sysadmin_assistant.Files.Actions.{
  FileOperation, FileActionResponse, resolve_within, skip, escapes, execute_move, move_into,
  move_to, moved_to, safe_move, send_to_trash,
}
use sysadmin_assistant.Files.Execute.{
  is_file, is_symlink, trashed, deleted, execute_trash, trash_is_usable, reported, execute_action,
  execute_resolved, execute_one, execute_all, execute_plan, loses_kept, count_status, finalise,
}
use sysadmin_assistant.Files.Kept.{execute_plan_runs}

abbrev Decided : FileOperation → Type 0
Decided o = str_eq o.status "planned" ≡ false

skip-Decided : (o : FileOperation) (reason : String) → Decided (skip o reason)
unfolding str_eq
skip-Decided o reason = refl

-- What an attempt replies, when it does not raise.
abbrev Replies : Outcome FileOperation → Type 0
Replies (fs, inl error) = Unit
Replies (fs, inr reply) = Decided reply

replied-Replies :
    {A : Type 0} (o : Outcome A) (f : A → FileOperation)
    → ((a : A) → Decided (f a))
    → Replies (next o (λ fs a. (fs, inr (f a))))
replied-Replies (fs, inl error) f decided = tt
replied-Replies (fs, inr a) f decided = decided a

reported-Decided :
    (host : Host) (operation : FileOperation) (o : Outcome FileOperation)
    → Replies o
    → Decided (reported host operation o).1
unfolding str_eq
reported-Decided host operation (fs, inl error) replies = refl
reported-Decided host operation (fs, inr reply) replies = replies

moved_to-Replies :
    (operation : FileOperation) (destination : FilePath) (o : Outcome Unit)
    → Replies (moved_to operation destination o)
unfolding str_eq
moved_to-Replies operation destination (fs, inr done) = refl
moved_to-Replies operation destination (fs, inl file_exists) = refl
moved_to-Replies operation destination (fs, inl cross_device) = tt
moved_to-Replies operation destination (fs, inl (os_error text)) = tt

trashed-Replies :
    (host : Host) (permanent : Bool) (operation : FileOperation) (s trash_root : FilePath)
    (after : FileSystem × Bool)
    → Replies (trashed host permanent operation s trash_root after)
unfolding str_eq
trashed-Replies host permanent operation s trash_root (fs, true) =
    replied-Replies (send_to_trash host fs s trash_root)
      (λ destination. record operation { destination = some destination; status = "done" })
      (λ destination. refl)
trashed-Replies host false operation s trash_root (fs, false) = refl
trashed-Replies host true operation s trash_root (fs, false) =
    replied-Replies (os_unlink host fs s) (λ u. deleted operation) (λ u. refl)

execute_move-Replies :
    (host : Host) (roots : List FilePath) (fs : FileSystem) (operation : FileOperation)
    (s : FilePath)
    → Replies (execute_move host roots fs operation s)
unfolding execute_move
execute_move-Replies host roots fs operation s = to operation.destination
  where
    occupied-Replies :
        (destination : FilePath) (there : Bool)
        → Replies (
            if there
            then (fs, inr (skip operation "destination already exists — not overwriting"))
            else moved_to operation destination (safe_move host fs s destination))
    occupied-Replies destination true =
        skip-Decided operation "destination already exists — not overwriting"
    occupied-Replies destination false =
        moved_to-Replies operation destination (safe_move host fs s destination)

    into :
        (wanted : FilePath) (found : Option FilePath)
        → Replies (move_into host fs operation s wanted found)
    into wanted none = skip-Decided operation (escapes wanted)
    into wanted (some destination) = occupied-Replies destination (occupied fs destination)

    to : (wanted : Option FilePath) → Replies (move_to host roots fs operation s wanted)
    to none = skip-Decided operation "no destination"
    to (some wanted) = into wanted (resolve_within host wanted roots)

module _ (host : Host) (roots : List FilePath) (trash_root : FilePath) (permanent : Bool) where
  execute_action-Decided :
      (fs : FileSystem) (o : FileOperation) (s : FilePath)
      → Decided (execute_action host roots trash_root permanent fs o s).1
  unfolding execute_action execute_trash
  execute_action-Decided fs o s = split (str_eq o.action "move") (str_eq o.action "trash")
    where
      split :
          (moves trashes : Bool)
          → Decided
              (if◌then◌else◌ {A = FileSystem × FileOperation} moves
                (reported host o (execute_move host roots fs o s))
                (if◌then◌else◌ {A = FileSystem × FileOperation} trashes
                  (reported host o (execute_trash host permanent fs o s trash_root))
                  (fs, skip o (concat ("unsupported action " ∷ host.repr o.action ∷ []))))).1
      split true trashes =
          reported-Decided host o (execute_move host roots fs o s)
            (execute_move-Replies host roots fs o s)
      split false true =
          reported-Decided host o (execute_trash host permanent fs o s trash_root)
            (trashed-Replies host permanent o s trash_root (trash_is_usable host fs s trash_root))
      split false false = skip-Decided o (concat ("unsupported action " ∷ host.repr o.action ∷ []))

  execute_resolved-Decided :
      (fs : FileSystem) (o : FileOperation) (found : Option FilePath)
      → Decided (execute_resolved host roots trash_root permanent fs o found).1
  execute_resolved-Decided fs o none = skip-Decided o (escapes o.source)
  execute_resolved-Decided fs o (some s) = split (is_symlink host fs o.source) (is_file fs s)
    where
      split :
          (link regular : Bool)
          → Decided
              (if◌then◌else◌ {A = FileSystem × FileOperation} link
                (fs, skip o "source is a symlink — never followed")
                (if◌then◌else◌ {A = FileSystem × FileOperation}
                  (not regular)
                  (fs, skip o "source no longer exists")
                  (execute_action host roots trash_root permanent fs o s))).1
      split true regular = skip-Decided o "source is a symlink — never followed"
      split false false = skip-Decided o "source no longer exists"
      split false true = execute_action-Decided fs o s

  execute_one-Decided :
      (fs : FileSystem) (o : FileOperation)
      → Decided (execute_one host roots trash_root permanent fs o).1
  unfolding execute_one
  execute_one-Decided fs o = split (str_eq o.status "planned") refl
    where
      split :
          (planned : Bool)
          → str_eq o.status "planned" ≡ planned
          → Decided
              (if◌then◌else◌ {A = FileSystem × FileOperation}
                (not planned)
                (fs, o)
                (execute_resolved host roots trash_root permanent fs o
                  (resolve_within host o.source roots))).1
      split true is = execute_resolved-Decided fs o (resolve_within host o.source roots)
      split false is = is

  execute_all-decides :
      (fs : FileSystem) (operations : List FileOperation)
      → (count_status "planned" (execute_all host roots trash_root permanent fs operations).1 ≡ 0)
        × (length (execute_all host roots trash_root permanent fs operations).1 ≡ length operations)
  unfolding execute_all count_status
  execute_all-decides fs [] = (refl, refl)
  execute_all-decides fs (o ∷ operations) =
      let first = execute_one host roots trash_root permanent fs o in
      let rest = execute_all-decides first.0 operations in
      (
        ap
              (λ b.
                if b
                then 1
                  + count_status "planned"
                      (execute_all host roots trash_root permanent first.0 operations).1
                else count_status "planned"
                    (execute_all host roots trash_root permanent first.0 operations).1)
              (execute_one-Decided fs o)
            ∙ rest.0,
        omega (arith, rest.1),
      )

-- A plan that would not take away a path which it is to keep is run, and the report has as many
-- operations as the plan, none of them still planned, whatever calls the host refuses.
pub execute_plan-decides :
    (host : Host) (root trash_root : FilePath) (permanent : Bool) (fs : FileSystem)
    (response : FileActionResponse)
    → loses_kept response.operations ≡ false
    → (run : FileSystem × FileActionResponse) × (execute_plan host root trash_root permanent fs
          response
        ≡ some run)
      × (run.1.planned_count ≡ 0)
      × (length run.1.operations ≡ length response.operations)
unfolding finalise
execute_plan-decides host root trash_root permanent fs response sound =
    let decided =
      execute_all-decides host (root ∷ []) trash_root permanent fs response.operations in
    (_, execute_plan_runs host root trash_root permanent fs response sound, decided.0, decided.1)
