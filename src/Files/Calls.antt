-- ===== src/Files/Calls.antt =====
-- The system calls, moving and trashing, whatever the host refuses: what they spare.
use sysadmin_assistant.Shared.{
  ◌<◌, String, ◌≡◌, refl, ap, ◌∙◌, Bool, true, false, Option, none, some, [], ◌∷◌, arith, length,
  if◌then◌else◌, is_some, inl, inr, Bool-cases,
}
use sysadmin_assistant.Files.{
  FilePath, path_eq, Entry, file, directory, FileSystem, find, put, remove, OsError, file_exists,
  Host, Outcome, make_directory, os_unlink, unlink_missing_ok, mkdir, unlink, missing, next,
  is_directory, followed, of_ancestor, asked,
}
use sysadmin_assistant.Files.Entries.{path_eq-eq, find-put}
use sysadmin_assistant.Files.Execute.{is_regular}
use sysadmin_assistant.Files.Safe.{Grows, Grows-refl, Grows-trans, put-Grows, cleaned-Grows}

longer_differs : (p q : FilePath) → length p < length q → path_eq p q ≡ false
longer_differs p q shorter = elim (Bool-cases (path_eq p q)) [
  | inl same ↦ let meet = ap (λ r. length r) (path_eq-eq p q same) in ground arith
  | inr other ↦ other
]

-- What making the directory `p` comes to.
abbrev Made : FilePath → FileSystem → FileSystem → Type 0
Made p before after =
    Grows before after × ((q : FilePath) → length p < length q → find q after ≡ find q before)

Made-refl : (p : FilePath) (fs : FileSystem) → Made p fs fs
Made-refl p fs = (Grows-refl fs, (λ q longer. refl))

last_directory :
    (refused : Option OsError) (name : String) (dir : FilePath) (fs : FileSystem)
    → find (name ∷ dir) fs ≡ none
    → (made : Outcome Unit) → Made dir fs made.0
    → Made
        (name ∷ dir)
        fs
        (next
          (of_ancestor made)
          (λ after u. asked refused after (put (name ∷ dir) directory after, inr tt))).0
last_directory refused name dir fs absent (after, inl error) m =
    (m.0, (λ q longer. m.1 q (omega arith)))
last_directory (some error) name dir fs absent (after, inr done) m =
    (m.0, (λ q longer. m.1 q (omega arith)))
last_directory none name dir fs absent (after, inr done) m = (
  Grows-trans fs after (put (name ∷ dir) directory after) m.0
      (put-Grows (name ∷ dir) directory after (m.1 (name ∷ dir) (omega arith) ∙ absent)),
  (λ q longer.
      find-put (name ∷ dir) q directory after
      ∙ ap (λ b. if b then some directory else find q after) (longer_differs (name ∷ dir) q longer)
      ∙ m.1 q (omega arith)),
)

directory_step :
    (refused : Option OsError) (name : String) (dir : FilePath) (fs : FileSystem) (known : Bool)
    (found : Option Entry)
    → find (name ∷ dir) fs ≡ found
    → (made : Outcome Unit) → Made dir fs made.0
    → Made
        (name ∷ dir)
        fs
        (if known
          then (fs, inr tt)
          else if is_some found
          then asked refused fs (fs, inl file_exists)
          else next
              (of_ancestor made)
              (λ after u. asked refused after (put (name ∷ dir) directory after, inr tt))).0
directory_step refused name dir fs true found is made m = Made-refl (name ∷ dir) fs
directory_step refused name dir fs false none is made m =
    last_directory refused name dir fs is made m
directory_step none name dir fs false (some e) is made m = Made-refl (name ∷ dir) fs
directory_step (some error) name dir fs false (some e) is made m = Made-refl (name ∷ dir) fs

make_directory-Made :
    (host : Host) (fs : FileSystem) (p : FilePath) → Made p fs (make_directory host fs p).0
unfolding make_directory
make_directory-Made host fs [] = Made-refl [] fs
make_directory-Made host fs (name ∷ dir) =
    directory_step (host.refuses (mkdir (name ∷ dir))) name dir fs
      (is_directory (find (followed fs (name ∷ dir)) fs)) (find (name ∷ dir) fs) refl
      (make_directory host fs dir) (make_directory-Made host fs dir)

pub make_directory-Grows :
    (host : Host) (fs : FileSystem) (p : FilePath) → Grows fs (make_directory host fs p).0
make_directory-Grows host fs p = (make_directory-Made host fs p).0

-- A note just made is withdrawn, or the host refuses that.
pub withdrawn-Grows :
    (host : Host) (target q : FilePath) (x : String) (fs : FileSystem)
    → find target fs ≡ none
    → is_regular (find q fs) ≡ false
    → Grows fs (unlink_missing_ok host (put target (file x) fs) q).0
unfolding unlink_missing_ok os_unlink
withdrawn-Grows host target q x fs absent irregular =
    split (host.refuses (unlink q)) (find q (put target (file x) fs))
  where
    split :
        (refused : Option OsError) (found : Option Entry)
        → Grows fs
            (if is_some found
              then asked refused (put target (file x) fs) (
                  if is_some found
                  then (remove q (put target (file x) fs), inr tt)
                  else (put target (file x) fs, inl missing))
              else (put target (file x) fs, inr tt)).0
    split refused none = put-Grows target (file x) fs absent
    split none (some e) = cleaned-Grows target q x fs absent irregular
    split (some error) (some e) = put-Grows target (file x) fs absent
