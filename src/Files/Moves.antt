-- ===== src/Files/Moves.antt =====
-- Moving a file and trashing it, whatever the host refuses: what they spare.
mod Trash
use sysadmin_assistant.Shared.{
  ◌⊎◌, String, ◌≡◌, refl, ap, sym, subst, Bool, false, ◌||◌, Option, none, some, ◌∷◌, arith,
  if◌then◌else◌, is_some, inl, inr, Option-cases,
}
use sysadmin_assistant.Files.{
  FilePath, parent, Entry, file, directory, symlink, FileSystem, find, put, remove, OsError,
  file_exists, cross_device, os_error, create, rename, copy, write, unlink, Host, Outcome, next,
  asked, wrote, renamed, copied, missing, left_behind, followed, followed_entry, exists, occupied,
  make_directory, create_exclusive, os_rename, copy2, write_text, os_unlink, unlink_missing_ok,
}
use sysadmin_assistant.Files.Actions.{
  in_files, in_info, taken, name_of, free_name, raising, into_trash, trash_as, trash_info,
  copied_over, safe_move, send_to_trash,
}
use sysadmin_assistant.Files.Execute.{is_regular}
use sysadmin_assistant.Files.Safe.{
  Grows, Safe, Grows-refl, Safe-trans, Grows-Safe, put-Grows, moved-Safe, rewritten-Grows,
  copied-Safe,
}
use sysadmin_assistant.Files.Calls.{make_directory-Grows, withdrawn-Grows}
use sysadmin_assistant.Files.Moves.Trash.{
  next-Safe, raising_lem, exists-none, exists-irregular, into_trash-Safe, left_behind-Grows,
  neither, noted-Safe, trash_as-Safe,
}

create_exclusive-cases :
    (host : Host) (fs : FileSystem) (p : FilePath)
    → ((error : OsError) × (create_exclusive host fs p ≡ (fs, inl error)))
      ⊎ ((find p fs ≡ none) × (create_exclusive host fs p ≡ (put p (file "") fs, inr tt)))
unfolding create_exclusive
create_exclusive-cases host fs p = split (host.refuses (create p)) (find p fs) refl
  where
    split :
        (refused : Option OsError) (found : Option Entry)
        → find p fs ≡ found
        → ((error : OsError) × (asked refused fs
                (if is_some found then (fs, inl file_exists) else (put p (file "") fs, inr tt))
              ≡ (fs, inl error)))
          ⊎ ((find p fs ≡ none)
              × (asked refused fs
                    (if is_some found then (fs, inl file_exists) else (put p (file "") fs, inr tt))
                  ≡ (put p (file "") fs, inr tt)))
    split (some error) found is = inl (error, refl)
    split none none is = inr (is, refl)
    split none (some e) is = inl (file_exists, refl)

torn-Grows :
    (fs : FileSystem) (d : FilePath) (torn : Option String)
    → find d fs ≡ none
    → Grows fs (left_behind (put d (file "") fs) d torn)
torn-Grows fs d none absent = put-Grows d (file "") fs absent
torn-Grows fs d (some y) absent = rewritten-Grows d "" y fs absent

withdrawn-Safe :
    (host : Host) (fs : FileSystem) (s d : FilePath) (error : OsError)
    → find d fs ≡ none
    → Safe s fs (raising {A = Unit} (unlink_missing_ok host (put d (file "") fs) d) error).0
withdrawn-Safe host fs s d error absent =
    let cleaned = unlink_missing_ok host (put d (file "") fs) d in
    subst (Safe s fs) (sym (raising_lem Unit cleaned error))
      (Grows-Safe s fs cleaned.0 (withdrawn-Grows host d d "" fs absent (ap is_regular absent)))

-- The copy of a move across devices, over the file just made.
copied-over-Safe :
    (host : Host) (fs : FileSystem) (s d : FilePath) (t : String)
    (refused_copy refused_unlink : Option OsError)
    → find s fs ≡ some (file t)
    → find d fs ≡ none
    → Safe s fs
        (next
          (wrote host
            (copy s d)
            (put d (file "") fs)
            d
            refused_copy
            (copied (put d (file "") fs) d (some (file t))))
          (λ after u.
            asked refused_unlink after
              (if occupied after s then (remove s after, inr tt) else (after, inl missing)))).0
copied-over-Safe host fs s d t (some error) refused_unlink there absent =
    let left = host.torn (copy s d) in
    Grows-Safe s fs (left_behind (put d (file "") fs) d left) (torn-Grows fs d left absent)
copied-over-Safe host fs s d t none (some error) there absent =
    Grows-Safe s fs (put d (file t) (put d (file "") fs)) (rewritten-Grows d "" t fs absent)
copied-over-Safe host fs s d t none none there absent =
    split (find s (put d (file t) (put d (file "") fs)))
  where
    split :
        (found : Option Entry)
        → Safe s fs
            (asked none (put d (file t) (put d (file "") fs)) (
              if is_some found
              then (remove s (put d (file t) (put d (file "") fs)), inr tt)
              else (put d (file t) (put d (file "") fs), inl missing))).0
    split none =
        Grows-Safe s fs (put d (file t) (put d (file "") fs)) (rewritten-Grows d "" t fs absent)
    split (some e) = copied-Safe s d t "" fs there absent

copied_over_step :
    (host : Host) (fs : FileSystem) (s d : FilePath) (t : String) (refused : Option OsError)
    → find s fs ≡ some (file t)
    → find d fs ≡ none
    → Safe s fs
        (copied_over host s d
          (asked refused (put d (file "") fs) (renamed (put d (file "") fs) s d (some (file t))))).0
unfolding copy2 os_unlink
copied_over_step host fs s d t none there absent =
    moved-Safe d d "" fs absent (ap is_regular absent) s t there
copied_over_step host fs s d t (some cross_device) there absent =
    subst
      (λ found.
        Safe s fs
          (next
            (wrote host (copy s d) (put d (file "") fs) d (host.refuses (copy s d))
              (copied (put d (file "") fs) d found))
            (λ after u. os_unlink host after s)).0)
      (sym ((put-Grows d (file "") fs absent).1 s t there))
      (copied-over-Safe host fs s d t (host.refuses (copy s d)) (host.refuses (unlink s)) there
        absent)
copied_over_step host fs s d t (some file_exists) there absent =
    withdrawn-Safe host fs s d file_exists absent
copied_over_step host fs s d t (some (os_error text)) there absent =
    withdrawn-Safe host fs s d (os_error text) absent

copied_over-Safe :
    (host : Host) (fs : FileSystem) (s d : FilePath) (t : String)
    → find s fs ≡ some (file t)
    → find d fs ≡ none
    → Safe s fs (copied_over host s d (os_rename host (put d (file "") fs) s d)).0
unfolding os_rename
copied_over-Safe host fs s d t there absent =
    subst
      (λ found.
        Safe s fs
          (copied_over host s d (
            asked (host.refuses (rename s d)) (put d (file "") fs)
              (renamed (put d (file "") fs) s d found))).0)
      (sym ((put-Grows d (file "") fs absent).1 s t there))
      (copied_over_step host fs s d t (host.refuses (rename s d)) there absent)

pub safe_move-Safe :
    (host : Host) (fs : FileSystem) (s d : FilePath) (t : String)
    → find s fs ≡ some (file t)
    → Safe s fs (safe_move host fs s d).0
unfolding safe_move
safe_move-Safe host fs s d t there =
    next-Safe s fs (make_directory host fs (parent d)) _ (make_directory-Grows host fs (parent d))
      λ fs1 u grown. elim (create_exclusive-cases host fs1 d) [
        | inl (error, raised) ↦
            subst
              (λ o. Safe s fs1 (next o (λ fs2 u. copied_over host s d (os_rename host fs2 s d))).0)
              (sym raised) (Grows-Safe s fs1 fs1 (Grows-refl fs1))
        | inr (absent, made) ↦
            subst
              (λ o. Safe s fs1 (next o (λ fs2 u. copied_over host s d (os_rename host fs2 s d))).0)
              (sym made) (copied_over-Safe host fs1 s d t (grown.1 s t there) absent)
      ]

pub send_to_trash-Safe :
    (host : Host) (fs : FileSystem) (s trash_root : FilePath) (t : String)
    → ((fs : FileSystem) (name : String)
        → taken fs trash_root (free_name host fs trash_root name) ≡ false)
    → find s fs ≡ some (file t)
    → Safe s fs (send_to_trash host fs s trash_root).0
unfolding send_to_trash
send_to_trash-Safe host fs s trash_root t frees there =
    next-Safe s fs (make_directory host fs ("files" ∷ trash_root)) _
      (make_directory-Grows host fs ("files" ∷ trash_root))
      λ fs1 u g1.
        next-Safe s fs1 (make_directory host fs1 ("info" ∷ trash_root)) _
          (make_directory-Grows host fs1 ("info" ∷ trash_root))
          λ fs2 u g2.
            trash_as-Safe host fs2 s trash_root (free_name host fs2 trash_root (name_of s)) t
              (g2.1 s t (g1.1 s t there)) (frees fs2 (name_of s))
