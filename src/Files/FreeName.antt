-- ===== src/Files/FreeName.antt =====
-- The search of `send_to_trash` for a name ends: more candidates are tried than the file system has
-- entries, and no two are alike.
mod Candidates
use sysadmin_assistant.Shared.{
  ◌&&◌, ℕ, zero, suc, ◌+◌, ◌≤◌, ◌<◌, String, ◌≡◌, ◌⊎◌, refl, ap, sym, subst, ◌∙◌, Bool, true, false,
  ◌||◌, ◌&&◌, ◌≢◌, Option, none, some, List, [], ◌∷◌, arith, length, if◌then◌else◌, is_some, inl,
  inr, Bool-cases, Option-cases, str_eq, ltb, ltb→lt,
}
use Prim.Native.String
use text.Mathlib.TextLemmas.{append_cancel_left, append_cancel_right}
use sysadmin_assistant.Shared.Text.{concat, show}
use sysadmin_assistant.Shared.Text.Decimal.{show-injective}
use sysadmin_assistant.Files.{
  FilePath, path_eq, FileSystem, find, exists, occupied, followed_entry, Host,
}
use sysadmin_assistant.Files.Entries.{path_eq-eq, path_eq_refl, path_eq_comm}
use sysadmin_assistant.Files.Actions.{candidate, in_files, in_info, taken, free_from, free_name}
use sysadmin_assistant.Files.FreeName.Candidates.{
  without, length-without_le, length-without, find-without, Used, exists-occupied, taken-Used,
  Unused-free, candidate-injective, and_false, folders_differ, first_name,
}

module _ (host : Host) (name : String) (trash_root : FilePath) where
  names_differ : (k j : ℕ) → k < j → candidate host name (suc k) ≢ candidate host name (suc j)
  names_differ k j less same =
      let equal = candidate-injective host name k j same in absurd_less k j less equal
    where
      absurd_less : (k j : ℕ) → k < j → k ≡ j → ⊥
      absurd_less k j less equal = omega arith

  files_apart :
      (k j : ℕ)
      → k < j
      → path_eq
          (in_files trash_root (candidate host name (suc k)))
          (in_files trash_root (candidate host name (suc j)))
        ≡ false
  unfolding first_name
  files_apart k j less =
      elim (Bool-cases (
        path_eq (in_files trash_root (candidate host name (suc k)))
          (in_files trash_root (candidate host name (suc j))))) [
            | inl same ↦ absurd (names_differ k j less (ap first_name (path_eq-eq _ _ same)))
            | inr apart ↦ apart
          ]

  infos_apart :
      (k j : ℕ)
      → k < j
      → path_eq
          (in_info trash_root (candidate host name (suc k)))
          (in_info trash_root (candidate host name (suc j)))
        ≡ false
  unfolding first_name concat
  infos_apart k j less =
      elim (Bool-cases (
        path_eq (in_info trash_root (candidate host name (suc k)))
          (in_info trash_root (candidate host name (suc j))))) [
            | inl same ↦ absurd (
                names_differ k j less
                  (append_cancel_right _ _ _ (ap first_name (path_eq-eq _ _ same))))
            | inr apart ↦ apart
          ]

  abbrev Unused : FileSystem → ℕ → Type 0
  Unused fs j =
      (occupied fs (in_files trash_root (candidate host name (suc j))) ≡ false)
      × (occupied fs (in_info trash_root (candidate host name (suc j))) ≡ false)

  -- Without the entries of one candidate, the later ones are as they were.
  Unused-without :
      (fs : FileSystem) (k j : ℕ)
      → k < j
      → Unused
          (without
            (in_files trash_root (candidate host name (suc k)))
            (without (in_info trash_root (candidate host name (suc k))) fs))
          j
      → Unused fs j
  Unused-without fs k j less unused =
      let used = candidate host name (suc k) in
      let later = candidate host name (suc j) in
      let rest = without (in_info trash_root used) fs in
      (
        ap is_some (
              sym (
                find-without (in_files trash_root used) (in_files trash_root later) rest
                  (files_apart k j less)
                ∙ find-without (in_info trash_root used) (in_files trash_root later) fs
                    (folders_differ trash_root later used).1))
            ∙ unused.0,
        ap is_some (
              sym (
                find-without (in_files trash_root used) (in_info trash_root later) rest
                  (folders_differ trash_root used later).0
                ∙ find-without (in_info trash_root used) (in_info trash_root later) fs
                    (infos_apart k j less)))
            ∙ unused.1,
      )

  fewer_without :
      (fs : FileSystem) (used : String)
      → Used fs trash_root used
      → length (without (in_files trash_root used) (without (in_info trash_root used) fs))
        < length fs
  fewer_without fs used (inl there) =
      let rest = without (in_info trash_root used) fs in
      let still =
        ap is_some (
          find-without (in_info trash_root used) (in_files trash_root used) fs
            (folders_differ trash_root used used).1)
        ∙ there in
      let fewer = length-without (in_files trash_root used) rest still in
      let rest_fewer = length-without_le (in_info trash_root used) fs in omega arith
  fewer_without fs used (inr there) =
      let fewer = length-without (in_info trash_root used) fs there in
      let rest_fewer =
        length-without_le (in_files trash_root used) (without (in_info trash_root used) fs) in
      omega arith

  Used-cases :
      (fs : FileSystem) (k : ℕ) → Used fs trash_root (candidate host name (suc k)) ⊎ Unused fs k
  Used-cases fs k =
      elim (Bool-cases (occupied fs (in_files trash_root (candidate host name (suc k))))) [
        | inl there ↦ inl (inl there)
        | inr no_file ↦
            elim (Bool-cases (occupied fs (in_info trash_root (candidate host name (suc k))))) [
              | inl there ↦ inl (inr there)
              | inr no_info ↦ inr (no_file, no_info)
            ]
      ]

  -- Among more candidates than there are entries, one is unused.
  free_within :
      (n : ℕ) (fs : FileSystem) (k : ℕ)
      → length fs ≤ n
      → (j : ℕ) × (k ≤ j) × (j ≤ k + n) × Unused fs j
  free_within zero fs k small = elim (Used-cases fs k) [
    | inr unused ↦ (k, omega arith, omega arith, unused)
    | inl used ↦
        let fewer = fewer_without fs (candidate host name (suc k)) used in absurd (none_left fewer)
  ]
    where
      none_left : {m : ℕ} → m < length fs → ⊥
      none_left fewer = omega arith
  free_within (suc n) fs k small = elim (Used-cases fs k) [
    | inr unused ↦ (k, omega arith, omega arith, unused)
    | inl used ↦
        let name_k = candidate host name (suc k) in
        let fewer = fewer_without fs name_k used in
        let found =
          free_within n
            (without (in_files trash_root name_k) (without (in_info trash_root name_k) fs)) (suc k)
            (omega arith) in
        (found.0, omega arith, omega arith, Unused-without fs k found.0 (omega arith) found.3)
  ]

  abbrev FirstFree : FileSystem → ℕ → String → Type 0
  FirstFree fs n chosen =
      (i : ℕ) × (chosen ≡ candidate host name i)
      × (taken fs trash_root (candidate host name i) ≡ false)
      × ((m : ℕ) → n ≤ m → m < i → taken fs trash_root (candidate host name m) ≡ true)

  free_from-FirstFree :
      (fs : FileSystem) (fuel n j : ℕ)
      → n ≤ j
      → j ≤ n + fuel
      → taken fs trash_root (candidate host name j) ≡ false
      → FirstFree fs n (free_from host fs trash_root name fuel n)
  unfolding free_from
  free_from-FirstFree fs zero n j reached enough free =
      let here : n ≡ j = omega arith in
      (
        n,
        refl,
        ap (λ v. taken fs trash_root (candidate host name v)) here ∙ free,
        (λ m from upto. absurd (omega arith)),
      )
  free_from-FirstFree fs (suc fuel) n j reached enough free =
      elim (Bool-cases (taken fs trash_root (candidate host name n))) [
        | inr free_here ↦ (
          n,
          ap
              (λ b.
                if b then free_from host fs trash_root name fuel (suc n) else candidate host name n)
              free_here,
          free_here,
          (λ m from upto. absurd (omega arith)),
        )
        | inl used ↦
            let rest = free_from-FirstFree fs fuel (suc n) j (past used) (omega arith) free in
            (
              rest.0,
              ap
                    (λ b.
                      if b
                      then free_from host fs trash_root name fuel (suc n)
                      else candidate host name n)
                    used
                  ∙ rest.1,
              rest.2,
              (λ m from upto. elim (Bool-cases (ltb n m)) [
                | inl above ↦ rest.3 m (ltb→lt n m above) upto
                | inr same ↦
                    let here : m ≡ n = ground arith in
                    ap (λ v. taken fs trash_root (candidate host name v)) here ∙ used
              ]),
            )
      ]
    where
      past : taken fs trash_root (candidate host name n) ≡ true → suc n ≤ j
      past used = elim (Bool-cases (ltb n j)) [
        | inl above ↦ ltb→lt n j above
        | inr same ↦
            let here : n ≡ j = ground arith in
            let clash = ap (λ v. taken fs trash_root (candidate host name v)) here ∙ free in
            ground (arith, clash, used)
      ]

-- Are all the candidates before the `n`-th one taken?
unfoldable pub all_taken : Host → FileSystem → FilePath → String → ℕ → Bool
all_taken host fs trash_root name zero = true
all_taken host fs trash_root name (suc n) =
    taken fs trash_root (candidate host name n) && all_taken host fs trash_root name n

all_taken_below :
    (host : Host) (fs : FileSystem) (trash_root : FilePath) (name : String) (i : ℕ)
    → ((m : ℕ) → m < i → taken fs trash_root (candidate host name m) ≡ true)
    → all_taken host fs trash_root name i ≡ true
unfolding all_taken
all_taken_below host fs trash_root name zero below = refl
all_taken_below host fs trash_root name (suc n) below =
    ap (λ b. b && all_taken host fs trash_root name n) (below n (omega arith))
    ∙ all_taken_below host fs trash_root name n (λ m upto. below m (omega arith))

-- The search for a name in the trash ends with the first candidate that neither folder has
-- taken: the name itself, or the name with a number before its suffix.
pub free_name-first :
    (host : Host) (fs : FileSystem) (trash_root : FilePath) (name : String)
    → (i : ℕ) × (free_name host fs trash_root name ≡ candidate host name i)
      × (taken fs trash_root (candidate host name i) ≡ false)
      × (all_taken host fs trash_root name i ≡ true)
unfolding free_name
free_name-first host fs trash_root name =
    let found = free_within host name trash_root (length fs) fs 0 (omega arith) in
    let free = Unused-free fs trash_root (candidate host name (suc found.0)) found.3 in
    let first =
      free_from-FirstFree host name trash_root fs (suc (suc (length fs))) 0 (suc found.0)
        (omega arith) (omega arith) free in
    let below =
      all_taken_below host fs trash_root name first.0 (λ m upto. first.3 m (omega arith) upto) in
    (first.0, first.1, first.2, below)

pub free_name-free :
    (host : Host) (fs : FileSystem) (trash_root : FilePath) (name : String)
    → taken fs trash_root (free_name host fs trash_root name) ≡ false
free_name-free host fs trash_root name =
    let first = free_name-first host fs trash_root name in
    ap (taken fs trash_root) first.1 ∙ first.2
