-- ===== src/Files/Entries.antt =====
-- Finding, putting and removing entries: what a path holds afterwards, and how many files have a
-- given content.
use sysadmin_assistant.Shared.{
  ℕ, ◌+◌, String, ◌≡◌, refl, true, false, Option, none, some, [], ◌∷◌, arith, str_eq, str_eq_iff,
  if◌then◌else◌,
}
use sysadmin_assistant.Files.{
  FilePath, path_eq, Entry, file, directory, symlink, FileSystem, find, put, remove,
}

pub path_eq_refl : (p : FilePath) → path_eq p p ≡ true
unfolding path_eq
path_eq_refl [] = refl
path_eq_refl (x ∷ p) = ground (arith, str_eq_iff x x, path_eq_refl p)

pub path_eq-eq : (p q : FilePath) → path_eq p q ≡ true → p ≡ q
unfolding path_eq
path_eq-eq [] [] same = refl
path_eq-eq [] (y ∷ q) same = ground arith
path_eq-eq (x ∷ p) [] same = ground arith
path_eq-eq (x ∷ p) (y ∷ q) same = ground (arith, str_eq_iff x y, path_eq-eq p q)

pub path_eq_comm : (p q : FilePath) → path_eq p q ≡ path_eq q p
path_eq_comm p q = ground (arith, path_eq-eq p q, path_eq-eq q p, path_eq_refl p)

pub find-put :
    (p q : FilePath) (e : Entry) (fs : FileSystem)
    → find q (put p e fs) ≡ (if path_eq p q then some e else find q fs)
unfolding find put
find-put p q e [] = refl
find-put p q e ((r, d) ∷ fs) = ground (
  arith,
  path_eq-eq r p,
  path_eq-eq r q,
  path_eq-eq p q,
  path_eq_refl p,
  path_eq_refl q,
  find-put p q e fs,
)

pub find-remove :
    (p q : FilePath) (fs : FileSystem) → path_eq p q ≡ false → find q (remove p fs) ≡ find q fs
unfolding find remove
find-remove p q [] differs = refl
find-remove p q ((r, d) ∷ fs) differs =
    ground (arith, path_eq-eq r p, path_eq-eq r q, find-remove p q fs differs)

-- Is the entry a file with the content?
abbrev pub holds : String → Entry → ℕ
holds c (file text) = if str_eq text c then 1 else 0
holds c directory = 0
holds c (symlink target) = 0

abbrev pub held : String → Option Entry → ℕ
held c none = 0
held c (some e) = holds c e

-- The number of files with the content.
unfoldable pub copies : String → FileSystem → ℕ
copies c [] = 0
copies c ((p, e) ∷ fs) = holds c e + copies c fs

pub copies-put :
    (c : String) (p : FilePath) (e : Entry) (fs : FileSystem)
    → copies c (put p e fs) + held c (find p fs) ≡ copies c fs + holds c e
unfolding copies put find
copies-put c p e [] = omega arith
copies-put c p e ((q, d) ∷ fs) = let rest = copies-put c p e fs in ground arith

pub copies-remove :
    (c : String) (p : FilePath) (fs : FileSystem)
    → copies c (remove p fs) + held c (find p fs) ≡ copies c fs
unfolding copies remove find
copies-remove c p [] = omega arith
copies-remove c p ((q, d) ∷ fs) = let rest = copies-remove c p fs in ground arith
