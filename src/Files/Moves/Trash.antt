-- ===== src/Files/Moves/Trash.antt =====
-- Trashing a file: the note beside it, the rename, and what is left when they fail.
use sysadmin_assistant.Shared.{
  String, ◌≡◌, refl, ap, sym, subst, Bool, false, ◌||◌, Option, none, some, arith, is_some, inl,
  inr, Option-cases,
}
use sysadmin_assistant.Files.{
  FilePath, file, directory, symlink, FileSystem, find, put, OsError, rename, write, Host, Outcome,
  next, asked, wrote, renamed, left_behind, followed, followed_entry, exists, os_rename, write_text,
  unlink_missing_ok,
}
use sysadmin_assistant.Files.Actions.{
  in_files, in_info, taken, raising, into_trash, trash_as, trash_info,
}
use sysadmin_assistant.Files.Execute.{is_regular}
use sysadmin_assistant.Files.Safe.{
  Grows, Safe, Grows-refl, Safe-trans, Grows-Safe, put-Grows, moved-Safe,
}
use sysadmin_assistant.Files.Calls.{withdrawn-Grows}

-- A call that is followed by another one.
pub next-Safe :
    {A B : Type 0} (s : FilePath) (fs : FileSystem) (o : Outcome A) (k : FileSystem → A → Outcome B)
    → Grows fs o.0
    → ((after : FileSystem) (a : A) → Grows fs after → Safe s after (k after a).0)
    → Safe s fs (next o k).0
next-Safe s fs (after, inl error) k grown rest = Grows-Safe s fs after grown
next-Safe s fs (after, inr a) k grown rest =
    Safe-trans s fs after (k after a).0 (Grows-Safe s fs after grown) (rest after a grown)

pub raising_lem :
    (A : Type 0) (cleaned : Outcome Unit) (error : OsError)
    → (raising {A = A} cleaned error).0 ≡ cleaned.0
raising_lem A (fs, inl e) error = refl
raising_lem A (fs, inr done) error = refl

-- A path that does not exist resolves to one without an entry, and is no file itself.
pub exists-none :
    (fs : FileSystem) (p : FilePath) → exists fs p ≡ false → find (followed fs p) fs ≡ none
unfolding exists
exists-none fs p gone = elim (Option-cases (find (followed fs p) fs)) [
  | inl nothing ↦ nothing
  | inr (e, found) ↦ ground (arith, gone, found)
]

pub exists-irregular :
    (fs : FileSystem) (p : FilePath) → exists fs p ≡ false → is_regular (find p fs) ≡ false
unfolding exists
exists-irregular fs p gone = elim (Option-cases (find p fs)) [
  | inl nothing ↦ ap is_regular nothing
  | inr (file text, found) ↦
      let through = ap (λ o. is_some (find (followed_entry p o) fs)) found in
      ground (arith, gone, found, through)
  | inr (directory, found) ↦ ap is_regular found
  | inr (symlink target, found) ↦ ap is_regular found
]

pub into_trash-Safe :
    (host : Host) (fs : FileSystem) (s d info target : FilePath) (x t : String)
    (refused : Option OsError)
    → find s fs ≡ some (file t)
    → find target fs ≡ none
    → is_regular (find d fs) ≡ false
    → is_regular (find info fs) ≡ false
    → Safe s fs
        (into_trash host info d (
          asked refused
            (put target (file x) fs)
            (renamed (put target (file x) fs) s d (some (file t))))).0
into_trash-Safe host fs s d info target x t none there absent empty irregular =
    moved-Safe target d x fs absent empty s t there
into_trash-Safe host fs s d info target x t (some error) there absent empty irregular =
    let cleaned = unlink_missing_ok host (put target (file x) fs) info in
    subst (Safe s fs) (sym (raising_lem FilePath cleaned error))
      (Grows-Safe s fs cleaned.0 (withdrawn-Grows host target info x fs absent irregular))

pub left_behind-Grows :
    (fs : FileSystem) (p : FilePath) (torn : Option String)
    → find p fs ≡ none
    → Grows fs (left_behind fs p torn)
left_behind-Grows fs p none absent = Grows-refl fs
left_behind-Grows fs p (some y) absent = put-Grows p (file y) fs absent

pub neither : (a b : Bool) → (a || b) ≡ false → (a ≡ false) × (b ≡ false)
neither a b both = (ground arith, ground arith)

-- The note is written beside the trash, and the file follows.
pub noted-Safe :
    (host : Host) (fs : FileSystem) (s info d : FilePath) (x t : String) (refused : Option OsError)
    → find s fs ≡ some (file t)
    → exists fs info ≡ false
    → exists fs d ≡ false
    → Safe s fs
        (next
          (wrote host
            (write info)
            fs
            (followed fs info)
            refused
            (put (followed fs info) (file x) fs, inr tt))
          (λ noted u. into_trash host info d (os_rename host noted s d))).0
unfolding os_rename
noted-Safe host fs s info d x t (some error) there no_info no_file =
    let torn = host.torn (write info) in
    Grows-Safe s fs (left_behind fs (followed fs info) torn)
      (left_behind-Grows fs (followed fs info) torn (exists-none fs info no_info))
noted-Safe host fs s info d x t none there no_info no_file =
    let noted = put (followed fs info) (file x) fs in
    let absent = exists-none fs info no_info in
    subst
      (λ found.
        Safe s fs
          (into_trash host info d
            (asked (host.refuses (rename s d)) noted (renamed noted s d found))).0)
      (sym ((put-Grows (followed fs info) (file x) fs absent).1 s t there))
      (into_trash-Safe host fs s d info (followed fs info) x t (host.refuses (rename s d)) there
        absent (exists-irregular fs d no_file) (exists-irregular fs info no_info))

pub trash_as-Safe :
    (host : Host) (fs : FileSystem) (s trash_root : FilePath) (name t : String)
    → find s fs ≡ some (file t)
    → taken fs trash_root name ≡ false
    → Safe s fs (trash_as host fs s trash_root name).0
unfolding trash_as write_text taken
trash_as-Safe host fs s trash_root name t there free =
    let info = in_info trash_root name in
    let d = in_files trash_root name in
    let gone = neither (exists fs d) (exists fs info) free in
    noted-Safe host fs s info d (trash_info host s) t (host.refuses (write info)) there gone.1
      gone.0
