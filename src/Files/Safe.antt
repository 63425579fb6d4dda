-- ===== src/Files/Safe.antt =====
-- What a change of the file system spares: the copies of a content, and the files at the other
-- paths than one.
use sysadmin_assistant.Shared.{
  ◌+◌, ◌≤◌, String, ◌≡◌, refl, ap, ◌∙◌, false, Option, none, some, arith, if◌then◌else◌, inl, inr,
  Bool-cases,
}
use sysadmin_assistant.Files.{
  FilePath, path_eq, Entry, file, directory, symlink, FileSystem, find, put, remove,
}
use sysadmin_assistant.Files.Entries.{
  path_eq-eq, path_eq_comm, find-put, find-remove, holds, held, copies, copies-put, copies-remove,
}
use sysadmin_assistant.Files.Execute.{is_regular}

abbrev pub Keeps : FileSystem → FileSystem → Type 0
Keeps before after = (c : String) → copies c before ≤ copies c after

-- Every file stands as it stood.
abbrev pub Stands : FileSystem → FileSystem → Type 0
Stands before after =
    (p : FilePath) (t : String) → find p before ≡ some (file t) → find p after ≡ some (file t)

-- Every file at another path than `s` stands as it stood.
abbrev pub Spares : FilePath → FileSystem → FileSystem → Type 0
Spares s before after =
    (p : FilePath) (t : String)
    → path_eq s p ≡ false
    → find p before ≡ some (file t)
    → find p after ≡ some (file t)

abbrev pub Grows : FileSystem → FileSystem → Type 0
Grows before after = Keeps before after × Stands before after

abbrev pub Safe : FilePath → FileSystem → FileSystem → Type 0
Safe s before after = Keeps before after × Spares s before after

pub Grows-refl : (fs : FileSystem) → Grows fs fs
Grows-refl fs = ((λ c. omega arith), (λ p t found. found))

pub Grows-trans : (a b c : FileSystem) → Grows a b → Grows b c → Grows a c
Grows-trans a b c first second = (
  (λ d. let one = first.0 d in let two = second.0 d in omega arith),
  (λ p t found. second.1 p t (first.1 p t found)),
)

pub Safe-trans : (s : FilePath) (a b c : FileSystem) → Safe s a b → Safe s b c → Safe s a c
Safe-trans s a b c first second = (
  (λ d. let one = first.0 d in let two = second.0 d in omega arith),
  (λ p t differs found. second.1 p t differs (first.1 p t differs found)),
)

pub Grows-Safe : (s : FilePath) (a b : FileSystem) → Grows a b → Safe s a b
Grows-Safe s a b grown = (grown.0, (λ p t differs found. grown.1 p t found))

-- Two paths are different when one has an entry and the other another.
pub differ :
    (p q : FilePath) (fs : FileSystem) (t : String)
    → find p fs ≡ some (file t)
    → is_regular (find q fs) ≡ false
    → path_eq p q ≡ false
differ p q fs t there absent = elim (Bool-cases (path_eq p q)) [
  | inl same ↦ let meet = ap (λ r. find r fs) (path_eq-eq p q same) in ground arith
  | inr other ↦ other
]

pub put-Grows :
    (p : FilePath) (e : Entry) (fs : FileSystem) → find p fs ≡ none → Grows fs (put p e fs)
put-Grows p e fs absent = (
  (λ c. let counted = copies-put c p e fs in let nothing = ap (held c) absent in omega arith),
  (λ q t found.
      let apart = path_eq_comm p q ∙ differ q p fs t found (ap is_regular absent) in
      find-put p q e fs ∙ ap (λ b. if b then some e else find q fs) apart ∙ found),
)

held_irregular : (c : String) (found : Option Entry) → is_regular found ≡ false → held c found ≡ 0
held_irregular c none empty = refl
held_irregular c (some (file t)) empty = ground arith
held_irregular c (some directory) empty = refl
held_irregular c (some (symlink target)) empty = refl

module _ (target d : FilePath) (x : String) (fs : FileSystem) (absent : find target fs ≡ none)
    (empty : is_regular (find d fs) ≡ false) where
  copies_made : (c : String) → copies c (put target (file x) fs) ≡ copies c fs + holds c (file x)
  copies_made c =
      let counted = copies-put c target (file x) fs in
      let nothing = ap (held c) absent in omega arith

  held_there : (c : String) → held c (find d (put target (file x) fs)) ≤ holds c (file x)
  held_there c =
      let found = find-put target d (file x) fs in
      let nothing = held_irregular c (find d fs) empty in
      elim (Bool-cases (path_eq target d)) [
        | inl same ↦
            let there =
              ap (held c) (found ∙ ap (λ b. if b then some (file x) else find d fs) same) in
            omega arith
        | inr other ↦
            let there =
              ap (held c) (found ∙ ap (λ b. if b then some (file x) else find d fs) other) in
            omega arith
      ]

  stands_made :
      (p : FilePath) (t : String)
      → find p fs ≡ some (file t)
      → find p (put target (file x) fs) ≡ some (file t)
  stands_made p t found = (put-Grows target (file x) fs absent).1 p t found

  -- What was just made is taken away again.
  pub cleaned-Grows : Grows fs (remove d (put target (file x) fs))
  cleaned-Grows = (
    (λ c.
        let made = copies_made c in
        let there = held_there c in
        let gone = copies-remove c d (put target (file x) fs) in omega arith),
    (λ p t found.
        find-remove d p (put target (file x) fs) (path_eq_comm d p ∙ differ p d fs t found empty)
        ∙ stands_made p t found),
  )

  -- The source is moved to `d`, which held no file but the one just made.
  pub moved-Safe :
      (s : FilePath) (t : String)
      → find s fs ≡ some (file t)
      → Safe s fs (put d (file t) (remove s (put target (file x) fs)))
  moved-Safe s t there =
      let made = put target (file x) fs in
      let apart = differ s d fs t there empty in
      (
        (λ c.
            let more = copies_made c in
            let place = ap (held c) (find-remove s d made apart) in
            let filled = held_there c in
            let source = ap (held c) (stands_made s t there) in
            let gone = copies-remove c s made in
            let back = copies-put c d (file t) (remove s made) in omega arith),
        (λ p u differs found.
            find-put d p (file t) (remove s made)
            ∙ ap (λ b. if b then some (file t) else find p (remove s made))
                (path_eq_comm d p ∙ differ p d fs u found empty)
            ∙ find-remove s p made differs
            ∙ stands_made p u found),
      )

-- The file just made is written again.
pub rewritten-Grows :
    (d : FilePath) (x y : String) (fs : FileSystem)
    → find d fs ≡ none
    → Grows fs (put d (file y) (put d (file x) fs))
rewritten-Grows d x y fs absent =
    let made = put d (file x) fs in
    (
      (λ c.
          let more = copies_made d d x fs absent (ap is_regular absent) c in
          let there = held_there d d x fs absent (ap is_regular absent) c in
          let back = copies-put c d (file y) made in omega arith),
      (λ p t found.
          find-put d p (file y) made
          ∙ ap (λ b. if b then some (file y) else find p made)
              (path_eq_comm d p ∙ differ p d fs t found (ap is_regular absent))
          ∙ stands_made d d x fs absent (ap is_regular absent) p t found),
    )

-- The source is copied over the file just made, and taken away.
pub copied-Safe :
    (s d : FilePath) (t x : String) (fs : FileSystem)
    → find s fs ≡ some (file t)
    → find d fs ≡ none
    → Safe s fs (remove s (put d (file t) (put d (file x) fs)))
copied-Safe s d t x fs there absent =
    let made = put d (file x) fs in
    let both = put d (file t) made in
    let grown = rewritten-Grows d x t fs absent in
    (
      (λ c.
          let more = copies_made d d x fs absent (ap is_regular absent) c in
          let filled = held_there d d x fs absent (ap is_regular absent) c in
          let back = copies-put c d (file t) made in
          let source = ap (held c) (grown.1 s t there) in
          let gone = copies-remove c s both in omega arith),
      (λ p u differs found. find-remove s p both differs ∙ grown.1 p u found),
    )
