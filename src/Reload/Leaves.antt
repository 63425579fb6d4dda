-- ===== src/Reload/Leaves.antt =====
-- `_flatten` and `changed_under`: the leaves of a dumped configuration, by dotted path.
pub mod Read
pub mod Changed
use Prim.Native.Char.{code}
use Prim.Native.String
use sysadmin_assistant.Shared.{
  String, Bool, true, false, ◌&&◌, ◌||◌, not, Option, none, some, List, [], ◌∷◌, ◌++◌, any, keep,
  ◌==◌, if◌then◌else◌, str_eq,
}
use sysadmin_assistant.Shared.Dict.{Dict, lookup, insert}
use sysadmin_assistant.Shared.Text.{concat}
use sysadmin_assistant.Jobs.{sorted_set}

-- A dumped model: a JSON object, or the JSON text of anything else, `null` for None.
mutual
  pub data Value : Type 0 where
    leaf : String → Value
    obj : Fields → Value

  pub data Fields : Type 0 where
    end : Fields
    field : String → Value → Fields → Fields

-- `d.update(e)`
unfoldable pub update : Dict String → Dict String → Dict String
update d [] = d
update d ((k, v) ∷ e) = update (insert k v d) e

-- `f"{prefix}.{key}" if prefix else key`
unfoldable pub dotted : String → String → String
dotted prefix key = if str_eq prefix "" then key else concat (prefix ∷ "." ∷ key ∷ [])

unfoldable mutual
  unfolding update dotted

  pub flatten : String → Value → Dict String
  flatten prefix (leaf v) = (prefix, v) ∷ []
  flatten prefix (obj fields) = flatten_fields prefix fields []

  pub flatten_fields : String → Fields → Dict String → Dict String
  flatten_fields prefix end leaves = leaves
  flatten_fields prefix (field key sub fields) leaves =
      flatten_fields prefix fields (update leaves (flatten (dotted prefix key) sub))

-- `s.startswith(p)`
unfoldable pub starts_with : String → String → Bool
starts_with s String.[] = true
starts_with String.[] (String.◌∷◌ c p) = false
starts_with (String.◌∷◌ d s) (String.◌∷◌ c p) = (code d == code c) && starts_with s p

-- Is the path one of the prefixes or below one?
unfoldable pub under : List String → String → Bool
unfolding starts_with
under prefixes path = any (λ p. str_eq path p || starts_with path (concat (p ∷ "." ∷ []))) prefixes

-- `leaves.get(path)`, where a missing leaf is None, as a JSON null is.
unfoldable pub get : String → Dict String → String
unfolding lookup
get path leaves = elim (lookup path leaves) [ none ↦ "null" | some v ↦ v ]

unfoldable pub keys : Dict String → List String
keys [] = []
keys ((k, v) ∷ d) = k ∷ keys d

-- The loop of `changed_under`, over the leaves.
unfoldable pub changed_leaves : Dict String → Dict String → List String → List String
unfolding under get keys
changed_leaves old new prefixes =
    keep (λ path. under prefixes path && not (str_eq (get path old) (get path new)))
      (sorted_set (keys old ++ keys new))

unfoldable pub changed_under : Value → Value → List String → List String
unfolding changed_leaves
changed_under old new prefixes = changed_leaves (flatten "" old) (flatten "" new) prefixes
