-- ===== src/ConfigKeys.antt =====
-- sysadmin/core/config_keys.py: the walk over a configuration file that reports every key that the
-- model of the configuration does not declare. Reading and parsing the file are the library's: the
-- parsed value is given, and `none` is the error of either.
pub mod Names
pub mod Clean
use Prim.Native.String
use sysadmin_assistant.Shared.{
  ℕ, suc, String, Bool, true, false, ◌&&◌, not, Option, none, some, List, [], ◌∷◌, ◌++◌, any,
  if◌then◌else◌, str_eq,
}
use sysadmin_assistant.Shared.Text.{concat, show}
use sysadmin_assistant.Shared.Dict.{Dict, lookup, insert}

-- A key of a mapping: a text, or another value with its text.
pub data Key : Type 0 where
  named : String → Key
  other : String → Key

-- What YAML makes of a file. A scalar says whether Python takes it for true.
mutual
  pub data Value : Type 0 where
    null : Value
    scalar : Bool → Value
    mapping : Entries → Value
    sequence : Items → Value

  pub data Entries : Type 0 where
    end : Entries
    entry : Key → Value → Entries → Entries

  pub data Items : Type 0 where
    nil : Items
    item : Value → Items → Items

-- A pydantic model: its fields, each with a name, an alias and an annotation. An annotation is a
-- model, or a type with arguments.
mutual
  pub data Model : Type 0 where
    model_of : Declared → Model

  pub data Declared : Type 0 where
    nothing : Declared
    field : String → Option String → Annotation → Declared → Declared

  pub data Annotation : Type 0 where
    a_model : Model → Annotation
    a_type : Arguments → Annotation

  pub data Arguments : Type 0 where
    no_more : Arguments
    argument : Annotation → Arguments → Arguments

pub record KeyReport : Type 0 where
  pub unknown : List String
  pub unwalkable : List String
  pub walked : Bool

is_none {ℓ} : {A : Type ℓ} → List A → Bool
is_none [] = true
is_none (x ∷ xs) = false

-- `KeyReport.clean`
unfoldable pub clean : KeyReport → Bool
unfolding is_none
clean report = report.walked && is_none report.unknown && is_none report.unwalkable

or_found : Option Model → Option Model → Option Model
or_found none later = later
or_found (some found) later = some found

unfoldable mutual
  unfolding or_found

  -- `model_in`
  pub model_in : Annotation → Option Model
  model_in (a_model model) = some model
  model_in (a_type arguments) = model_among arguments

  pub model_among : Arguments → Option Model
  model_among no_more = none
  model_among (argument annotation rest) = or_found (model_in annotation) (model_among rest)

-- `if info.alias: names[info.alias] = info`
add_alias : Option String → Annotation → Dict Annotation → Dict Annotation
add_alias none info names = names
add_alias (some alias) info names = if str_eq alias "" then names else insert alias info names

-- The loop of `_accepted_names`.
names_from : Declared → Dict Annotation → Dict Annotation
unfolding add_alias
names_from nothing names = names
names_from (field name alias info rest) names =
    names_from rest (add_alias alias info (insert name info names))

-- `_accepted_names`
unfoldable pub accepted_names : Model → Dict Annotation
unfolding names_from
accepted_names (model_of fields) = names_from fields []

-- `accepted.get(key)`
unfoldable pub get : Key → Dict Annotation → Option Annotation
get (named key) accepted = lookup key accepted
get (other text) accepted = none

key_text : Key → String
key_text (named key) = key
key_text (other text) = text

-- The path of a key below the prefix.
unfoldable pub key_path : String → Key → String
unfolding key_text
key_path prefix key =
    if str_eq prefix "" then key_text key else concat (prefix ∷ "." ∷ key_text key ∷ [])

unfoldable pub item_path : String → ℕ → String
item_path path index = concat (path ∷ "[" ∷ show index ∷ "]" ∷ [])

add_unknown : String → KeyReport → KeyReport
add_unknown path report = record report { unknown = report.unknown ++ (path ∷ []) }

add_unwalkable : String → KeyReport → KeyReport
add_unwalkable path report = record report { unwalkable = report.unwalkable ++ (path ∷ []) }

-- `prefix or "<root>"`
root_or : String → String
root_or prefix = if str_eq prefix "" then "<root>" else prefix

-- The model inside the field of a known key.
unfoldable pub section_of : Option Annotation → Option (Option Model)
section_of none = none
section_of (some info) = some (model_in info)

module _ (foreign : List String) where
  unfoldable mutual
    unfolding add_unknown add_unwalkable root_or

    -- `_walk_into`
    pub walk_into : Value → Model → String → KeyReport → KeyReport
    walk_into null model prefix report = report
    walk_into (scalar truth) model prefix report = add_unwalkable (root_or prefix) report
    walk_into (sequence items) model prefix report = add_unwalkable (root_or prefix) report
    walk_into (mapping entries) model prefix report =
        walk_entries entries (accepted_names model) prefix report

    -- The loop over the keys.
    pub walk_entries : Entries → Dict Annotation → String → KeyReport → KeyReport
    walk_entries end accepted prefix report = report
    walk_entries (entry key value rest) accepted prefix report =
        let path = key_path prefix key in
        let walked = walk_value value (section_of (get key accepted)) path report in
        walk_entries rest accepted prefix (if any (str_eq path) foreign then report else walked)

    -- The value of a key that is not foreign: the key is unknown, its field has no model inside, or
    -- it has one.
    pub walk_value : Value → Option (Option Model) → String → KeyReport → KeyReport
    walk_value value none path report = add_unknown path report
    walk_value value (some none) path report = report
    walk_value null (some (some submodel)) path report = report
    walk_value (scalar truth) (some (some submodel)) path report = add_unwalkable path report
    walk_value (mapping entries) (some (some submodel)) path report =
        walk_entries entries (accepted_names submodel) path report
    walk_value (sequence items) (some (some submodel)) path report =
        walk_items items 0 submodel path report

    pub walk_items : Items → ℕ → Model → String → KeyReport → KeyReport
    walk_items nil index model path report = report
    walk_items (item value rest) index model path report =
        walk_items rest (suc index) model path (walk_into value model (item_path path index) report)

  -- `walk`
  unfoldable pub walk : Value → Model → String → KeyReport
  walk raw model prefix =
      walk_into raw model prefix (record { unknown = []; unwalkable = []; walked = true })

  -- `yaml.safe_load(...) or {}`
  unfoldable pub or_empty : Value → Value
  or_empty null = mapping end
  or_empty (scalar true) = scalar true
  or_empty (scalar false) = mapping end
  or_empty (mapping entries) = mapping entries
  or_empty (sequence nil) = mapping end
  or_empty (sequence (item value rest)) = sequence (item value rest)

  -- `report_for_file`
  unfoldable pub report_for_file : Option Value → Model → KeyReport
  unfolding or_empty
  report_for_file none model = record { unknown = []; unwalkable = []; walked = false }
  report_for_file (some raw) model = walk (or_empty raw) model ""
