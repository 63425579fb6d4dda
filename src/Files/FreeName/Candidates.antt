-- ===== src/Files/FreeName/Candidates.antt =====
-- The candidates of `send_to_trash` differ, and so do the places that they stand for.
use sysadmin_assistant.Shared.{
  ℕ, suc, ◌≤◌, ◌<◌, String, ◌≡◌, ◌⊎◌, refl, ap, Bool, true, false, ◌&&◌, [], ◌∷◌, arith, length,
  if◌then◌else◌, is_some, inl, inr, Bool-cases, Option-cases, str_eq,
}
use text.Mathlib.TextLemmas.{append_cancel_left, append_cancel_right}
use sysadmin_assistant.Shared.Text.{concat, show}
use sysadmin_assistant.Shared.Text.Decimal.{show-injective}
use sysadmin_assistant.Files.{
  FilePath, path_eq, FileSystem, find, exists, occupied, followed_entry, Host,
}
use sysadmin_assistant.Files.Entries.{path_eq-eq}
use sysadmin_assistant.Files.Actions.{candidate, in_files, in_info, taken}

-- The file system without the entries at a path.
unfoldable pub without : FilePath → FileSystem → FileSystem
without p [] = []
without p ((q, e) ∷ fs) = let rest = without p fs in if path_eq q p then rest else (q, e) ∷ rest

pub length-without_le : (p : FilePath) (fs : FileSystem) → length (without p fs) ≤ length fs
unfolding without
length-without_le p [] = omega arith
length-without_le p ((q, e) ∷ fs) = let rest = length-without_le p fs in ground arith

pub length-without :
    (p : FilePath) (fs : FileSystem) → occupied fs p ≡ true → length (without p fs) < length fs
unfolding without find
length-without p [] there = ground arith
length-without p ((q, e) ∷ fs) there =
    let fewer = length-without_le p fs in ground (arith, length-without p fs)

pub find-without :
    (p q : FilePath) (fs : FileSystem) → path_eq p q ≡ false → find q (without p fs) ≡ find q fs
unfolding without find
find-without p q [] apart = refl
find-without p q ((r, e) ∷ fs) apart =
    ground (arith, path_eq-eq r p, path_eq-eq r q, find-without p q fs apart)

-- The two places of a name: one has an entry.
abbrev pub Used : FileSystem → FilePath → String → Type 0
Used fs trash_root name =
    (occupied fs (in_files trash_root name) ≡ true) ⊎ (occupied fs (in_info trash_root name) ≡ true)

pub exists-occupied : (fs : FileSystem) (p : FilePath) → exists fs p ≡ true → occupied fs p ≡ true
unfolding exists
exists-occupied fs p there = elim (Option-cases (find p fs)) [
  | inl nothing ↦
      let through = ap (λ o. is_some (find (followed_entry p o) fs)) nothing in
      ground (arith, there, nothing, through)
  | inr (e, found) ↦ ap is_some found
]

pub taken-Used :
    (fs : FileSystem) (trash_root : FilePath) (name : String)
    → taken fs trash_root name ≡ true
    → Used fs trash_root name
unfolding taken
taken-Used fs trash_root name used = elim (Bool-cases (exists fs (in_files trash_root name))) [
  | inl there ↦ inl (exists-occupied fs (in_files trash_root name) there)
  | inr not_there ↦ inr (exists-occupied fs (in_info trash_root name) (ground arith))
]

pub Unused-free :
    (fs : FileSystem) (trash_root : FilePath) (name : String)
    → (occupied fs (in_files trash_root name) ≡ false)
      × (occupied fs (in_info trash_root name) ≡ false)
    → taken fs trash_root name ≡ false
Unused-free fs trash_root name unused = elim (Bool-cases (taken fs trash_root name)) [
  | inr free ↦ free
  | inl there ↦ elim (taken-Used fs trash_root name there) [
    | inl a_file ↦ ground (arith, unused, a_file)
    | inr an_info ↦ ground (arith, unused, an_info)
  ]
]

pub candidate-injective :
    (host : Host) (name : String) (m n : ℕ)
    → candidate host name (suc m) ≡ candidate host name (suc n)
    → m ≡ n
unfolding candidate concat
candidate-injective host name m n same =
    let tails = append_cancel_left (host.stem name) _ _ same in
    let numbers = append_cancel_left "." _ _ tails in
    let printed = append_cancel_right (show (suc m)) (show (suc n)) _ numbers in
    let equal = show-injective (suc m) (suc n) printed in omega arith

pub and_false : (b : Bool) → (b && false) ≡ false
and_false true = refl
and_false false = refl

pub folders_differ :
    (trash_root : FilePath) (a b : String)
    → (path_eq (in_files trash_root a) (in_info trash_root b) ≡ false)
      × (path_eq (in_info trash_root b) (in_files trash_root a) ≡ false)
unfolding path_eq str_eq
folders_differ trash_root a b = (
  and_false (str_eq a (concat (b ∷ ".trashinfo" ∷ []))),
  and_false (str_eq (concat (b ∷ ".trashinfo" ∷ [])) a),
)

unfoldable pub first_name : FilePath → String
first_name [] = ""
first_name (name ∷ dir) = name
