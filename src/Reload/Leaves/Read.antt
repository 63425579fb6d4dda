-- ===== src/Reload/Leaves/Read.antt =====
-- What `_flatten` makes of a dump: the last leaf of each path.
use sysadmin_assistant.Shared.{
  String, ◌≡◌, refl, ap, ◌∙◌, sym, false, none, some, List, [], ◌∷◌, ◌++◌, arith, is_some, str_eq,
  str_eq_iff, subst, Bool-cases, inl, inr, if◌then◌else◌,
}
use sysadmin_assistant.Shared.Dict.{Dict, lookup, insert, lookup-insert}
use sysadmin_assistant.Reload.Leaves.{
  Value, leaf, obj, Fields, end, field, update, dotted, flatten, flatten_fields, get,
}

-- The leaves of a dump in the order of the file, each with its path below the prefix.
abbrev mutual
  pub leaves : String → Value → List (String × String)
  leaves prefix (leaf v) = (prefix, v) ∷ []
  leaves prefix (obj fields) = leaves_fields prefix fields

  pub leaves_fields : String → Fields → List (String × String)
  leaves_fields prefix end = []
  leaves_fields prefix (field key sub fields) =
      leaves (dotted prefix key) sub ++ leaves_fields prefix fields

-- The last value under the path, or the given one.
abbrev pub last_at : String → List (String × String) → String → String
last_at path [] before = before
last_at path ((k, v) ∷ rest) before = last_at path rest (if str_eq k path then v else before)

last_at-append :
    (path : String) (xs ys : List (String × String)) (before : String)
    → last_at path (xs ++ ys) before ≡ last_at path ys (last_at path xs before)
last_at-append path [] ys before = refl
last_at-append path ((k, v) ∷ xs) ys before = last_at-append path xs ys _

-- The value of a dict under the path, or the given one.
abbrev value_or : String → Dict String → String → String
value_or path d before = elim (lookup path d) [ none ↦ before | some v ↦ v ]

value_or-insert :
    (path k v : String) (d : Dict String) (before : String)
    → value_or path (insert k v d) before ≡ (if str_eq k path then v else value_or path d before)
value_or-insert path k v d before = ground (arith, lookup-insert k path v d)

value_or-update :
    (path : String) (d e : Dict String) (before : String)
    → value_or path (update d e) before ≡ last_at path e (value_or path d before)
unfolding update
value_or-update path d [] before = refl
value_or-update path d ((k, v) ∷ e) before =
    value_or-update path (insert k v d) e before
    ∙ ap (last_at path e) (value_or-insert path k v d before)

-- No path stands twice.
abbrev IsUnique : Dict String → Type 0
IsUnique [] = Unit
IsUnique ((k, v) ∷ d) = (is_some (lookup k d) ≡ false) × IsUnique d

insert-IsUnique : (k v : String) (d : Dict String) → IsUnique d → IsUnique (insert k v d)
unfolding insert lookup
insert-IsUnique k v [] h = (refl, tt)
insert-IsUnique k v ((j, w) ∷ d) h =
    ground (arith, insert-IsUnique k v d h.1, lookup-insert k j v d, str_eq_iff j k, str_eq_iff k j)

update-IsUnique : (d e : Dict String) → IsUnique d → IsUnique (update d e)
unfolding update
update-IsUnique d [] h = h
update-IsUnique d ((k, v) ∷ e) h = update-IsUnique (insert k v d) e (insert-IsUnique k v d h)

flatten_fields-IsUnique :
    (prefix : String) (fields : Fields) (d : Dict String)
    → IsUnique d
    → IsUnique (flatten_fields prefix fields d)
unfolding flatten_fields
flatten_fields-IsUnique prefix end d h = h
flatten_fields-IsUnique prefix (field key sub fields) d h =
    flatten_fields-IsUnique prefix fields _ (update-IsUnique d (flatten (dotted prefix key) sub) h)

-- In a dict without repeats the only entry is the last one.
absent :
    (path : String) (d : Dict String) (before : String)
    → is_some (lookup path d) ≡ false
    → last_at path d before ≡ before
unfolding lookup
absent path [] before h = refl
absent path ((k, v) ∷ d) before h = ground (arith, h, absent path d before)

value_here :
    (path k v : String) (d : Dict String) (before : String)
    → value_or path ((k, v) ∷ d) before ≡ (if str_eq k path then v else value_or path d before)
unfolding lookup
value_here path k v d before = ground arith

last_at_unique :
    (path : String) (d : Dict String) (before : String)
    → IsUnique d
    → last_at path d before ≡ value_or path d before
unfolding lookup
last_at_unique path [] before h = refl
last_at_unique path ((k, v) ∷ d) before h = elim (Bool-cases (str_eq k path)) [
  | inl hit ↦
      ap (λ b. last_at path d (if b then v else before)) hit
      ∙ absent path d v (subst (λ x. is_some (lookup x d) ≡ false) ((str_eq_iff k path).0 hit) h.0)
      ∙ sym (ap (λ b. if b then v else value_or path d before) hit)
      ∙ sym (value_here path k v d before)
  | inr miss ↦
      ap (λ b. last_at path d (if b then v else before)) miss
      ∙ last_at_unique path d before h.1
      ∙ sym (ap (λ b. if b then v else value_or path d before) miss)
      ∙ sym (value_here path k v d before)
]

mutual
  unfolding flatten flatten_fields lookup

  last_at-flatten :
      (path prefix : String) (v : Value) (before : String)
      → last_at path (flatten prefix v) before ≡ last_at path (leaves prefix v) before
  last_at-flatten path prefix (leaf v) before = refl
  last_at-flatten path prefix (obj fields) before =
      last_at_unique path (flatten_fields prefix fields []) before
        (flatten_fields-IsUnique prefix fields [] tt)
      ∙ value_or-flatten_fields path prefix fields [] before

  value_or-flatten_fields :
      (path prefix : String) (fields : Fields) (d : Dict String) (before : String)
      → value_or path (flatten_fields prefix fields d) before
        ≡ last_at path (leaves_fields prefix fields) (value_or path d before)
  value_or-flatten_fields path prefix end d before = refl
  value_or-flatten_fields path prefix (field key sub fields) d before =
      value_or-flatten_fields path prefix fields (update d (flatten (dotted prefix key) sub)) before
      ∙ ap (last_at path (leaves_fields prefix fields)) (
          value_or-update path d (flatten (dotted prefix key) sub) before
          ∙ last_at-flatten path (dotted prefix key) sub (value_or path d before))
      ∙ sym (last_at-append path (leaves (dotted prefix key) sub) (leaves_fields prefix fields) _)

-- What the code reads at a path is the last leaf that has it, and null where none has.
pub get-flatten :
    (path : String) (v : Value) → get path (flatten "" v) ≡ last_at path (leaves "" v) "null"
unfolding get flatten lookup
get-flatten path (leaf v) = ground arith
get-flatten path (obj fields) = value_or-flatten_fields path "" fields [] "null"
