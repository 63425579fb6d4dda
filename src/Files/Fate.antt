-- ===== src/Files/Fate.antt =====
-- What becomes of the files when one action is executed.
use sysadmin_assistant.Shared.{
  String, ◌≡◌, refl, sym, subst, ◌∙◌, Bool, true, false, Option, none, some, List, [], ◌∷◌,
  if◌then◌else◌, is_some, inl, inr, Bool-cases, str_eq,
}
use sysadmin_assistant.Shared.Text.{concat}
use sysadmin_assistant.Files.{
  FilePath, Entry, file, FileSystem, find, OsError, file_exists, cross_device, os_error, Host,
  Outcome, next, occupied, make_directory, os_unlink, remove, asked, missing, unlink,
}
use sysadmin_assistant.Files.Entries.{find-remove}
use sysadmin_assistant.Files.Actions.{
  FileOperation, resolve_within, skip, execute_move, safe_move, send_to_trash, moved_to, move_into,
  move_to,
}
use sysadmin_assistant.Files.Execute.{
  usable, deleted, trash_is_usable, trashed, execute_trash, reported, execute_action,
}
use sysadmin_assistant.Files.Safe.{Spares, Grows, Safe, Grows-refl, Grows-Safe, Safe-trans}
use sysadmin_assistant.Files.Calls.{make_directory-Grows}
use sysadmin_assistant.Files.Moves.{safe_move-Safe, send_to_trash-Safe}
use sysadmin_assistant.Files.FreeName.{free_name-free}

pub Safe-refl : (s : FilePath) (fs : FileSystem) → Safe s fs fs
Safe-refl s fs = Grows-Safe s fs fs (Grows-refl fs)

moved_to_state :
    (operation : FileOperation) (destination : FilePath) (o : Outcome Unit)
    → (moved_to operation destination o).0 ≡ o.0
moved_to_state operation destination (fs, inr done) = refl
moved_to_state operation destination (fs, inl file_exists) = refl
moved_to_state operation destination (fs, inl cross_device) = refl
moved_to_state operation destination (fs, inl (os_error text)) = refl

reported_state :
    (host : Host) (operation : FileOperation) (o : Outcome FileOperation)
    → (reported host operation o).0 ≡ o.0
reported_state host operation (fs, inl error) = refl
reported_state host operation (fs, inr reply) = refl

execute_move-Safe :
    (host : Host) (roots : List FilePath) (fs : FileSystem) (operation : FileOperation)
    (s : FilePath) (t : String)
    → find s fs ≡ some (file t)
    → Safe s fs (execute_move host roots fs operation s).0
unfolding execute_move
execute_move-Safe host roots fs operation s t there = to operation.destination
  where
    into :
        (wanted : FilePath) (found : Option FilePath)
        → Safe s fs (move_into host fs operation s wanted found).0
    into wanted none = Safe-refl s fs
    into wanted (some destination) = elim (Bool-cases (occupied fs destination)) [
      | inl there_already ↦
          subst
            (λ b.
              Safe s fs
                (if◌then◌else◌ {A = Outcome FileOperation} b
                  (fs, inr (skip operation "destination already exists — not overwriting"))
                  (moved_to operation destination (safe_move host fs s destination))).0)
            (sym there_already) (Safe-refl s fs)
      | inr room ↦
          subst
            (λ b.
              Safe s fs
                (if◌then◌else◌ {A = Outcome FileOperation} b
                  (fs, inr (skip operation "destination already exists — not overwriting"))
                  (moved_to operation destination (safe_move host fs s destination))).0)
            (sym room)
            (subst (Safe s fs)
              (sym (moved_to_state operation destination (safe_move host fs s destination)))
              (safe_move-Safe host fs s destination t there))
    ]

    to : (wanted : Option FilePath) → Safe s fs (move_to host roots fs operation s wanted).0
    to none = Safe-refl s fs
    to (some wanted) = into wanted (resolve_within host wanted roots)

-- What becomes of the files: a permanent delete may take the source's content with it.
abbrev pub Fate : Bool → FilePath → FileSystem → FileSystem → Type 0
Fate false s before after = Safe s before after
Fate true s before after = Spares s before after

pub Safe-Fate :
    (permanent : Bool) (s : FilePath) (a b : FileSystem) → Safe s a b → Fate permanent s a b
Safe-Fate false s a b safe = safe
Safe-Fate true s a b safe = safe.1

pub Fate-Spares :
    (permanent : Bool) (s : FilePath) (a b : FileSystem) → Fate permanent s a b → Spares s a b
Fate-Spares false s a b fate = fate.1
Fate-Spares true s a b fate = fate

replied_state :
    {A B : Type 0} (o : Outcome A) (f : A → B) → (next o (λ fs a. (fs, inr (f a)))).0 ≡ o.0
replied_state (fs, inl error) f = refl
replied_state (fs, inr a) f = refl

os_unlink-Spares :
    (host : Host) (fs : FileSystem) (s : FilePath) → Spares s fs (os_unlink host fs s).0
unfolding os_unlink
os_unlink-Spares host fs s p t apart found = split (host.refuses (unlink s)) (find s fs)
  where
    split :
        (refused : Option OsError) (own : Option Entry)
        → find p
            (asked refused fs (if is_some own then (remove s fs, inr tt) else (fs, inl missing))).0
          ≡ some (file t)
    split (some error) own = found
    split none none = found
    split none (some e) = find-remove s p fs apart ∙ found

trashed-Fate :
    (host : Host) (permanent : Bool) (operation : FileOperation) (s trash_root : FilePath)
    (t : String) (after : FileSystem × Bool)
    → find s after.0 ≡ some (file t)
    → Fate permanent s after.0 (trashed host permanent operation s trash_root after).0
trashed-Fate host false operation s trash_root t (after, false) there = Safe-refl s after
trashed-Fate host true operation s trash_root t (after, false) there =
    subst (Spares s after) (sym (replied_state (os_unlink host after s) (λ u. deleted operation)))
      (os_unlink-Spares host after s)
trashed-Fate host permanent operation s trash_root t (after, true) there =
    Safe-Fate permanent s after (trashed host permanent operation s trash_root (after, true)).0 (
      subst (Safe s after)
        (sym (
          replied_state (send_to_trash host after s trash_root)
            (λ destination. record operation { destination = some destination; status = "done" })))
        (send_to_trash-Safe host after s trash_root t
          (λ fs name. free_name-free host fs trash_root name) there))

usable_state :
    (host : Host) (path files_dir : FilePath) (o : Outcome Unit)
    → (usable host path files_dir o).0 ≡ o.0
usable_state host path files_dir (fs, inl error) = refl
usable_state host path files_dir (fs, inr made) = refl

Fate-after :
    (permanent : Bool) (s : FilePath) (a b c : FileSystem)
    → Grows a b
    → Fate permanent s b c
    → Fate permanent s a c
Fate-after false s a b c grown fate = Safe-trans s a b c (Grows-Safe s a b grown) fate
Fate-after true s a b c grown fate = λ p t apart found. fate p t apart (grown.1 p t found)

execute_trash-Fate :
    (host : Host) (permanent : Bool) (fs : FileSystem) (operation : FileOperation)
    (s trash_root : FilePath) (t : String)
    → find s fs ≡ some (file t)
    → Fate permanent s fs (execute_trash host permanent fs operation s trash_root).0
unfolding execute_trash trash_is_usable
execute_trash-Fate host permanent fs operation s trash_root t there =
    let made = make_directory host fs ("files" ∷ trash_root) in
    let after = usable host s ("files" ∷ trash_root) made in
    let grown =
      subst (Grows fs) (sym (usable_state host s ("files" ∷ trash_root) made))
        (make_directory-Grows host fs ("files" ∷ trash_root)) in
    Fate-after permanent s fs after.0 (trashed host permanent operation s trash_root after).0 grown
      (trashed-Fate host permanent operation s trash_root t after (grown.1 s t there))

pub execute_action-Fate :
    (host : Host) (roots : List FilePath) (trash_root : FilePath) (permanent : Bool)
    (fs : FileSystem) (operation : FileOperation) (s : FilePath) (t : String)
    → find s fs ≡ some (file t)
    → Fate permanent s fs (execute_action host roots trash_root permanent fs operation s).0
unfolding execute_action
execute_action-Fate host roots trash_root permanent fs operation s t there =
    split (str_eq operation.action "move") (str_eq operation.action "trash")
  where
    split :
        (moves trashes : Bool)
        → Fate permanent s fs
            (if◌then◌else◌ {A = FileSystem × FileOperation} moves
              (reported host operation (execute_move host roots fs operation s))
              (if◌then◌else◌ {A = FileSystem × FileOperation} trashes
                (reported host operation (execute_trash host permanent fs operation s trash_root))
                (
                  fs,
                  skip operation (concat ("unsupported action " ∷ host.repr operation.action ∷ [])),
                ))).0
    split true trashes =
        subst (Fate permanent s fs)
          (sym (reported_state host operation (execute_move host roots fs operation s)))
          (Safe-Fate permanent s fs (execute_move host roots fs operation s).0
            (execute_move-Safe host roots fs operation s t there))
    split false true =
        subst (Fate permanent s fs)
          (sym (
            reported_state host operation (execute_trash host permanent fs operation s trash_root)))
          (execute_trash-Fate host permanent fs operation s trash_root t there)
    split false false = Safe-Fate permanent s fs fs (Safe-refl s fs)
