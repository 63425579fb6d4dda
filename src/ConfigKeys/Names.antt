-- ===== src/ConfigKeys/Names.antt =====
-- The names that a model accepts, against an independent reading of its fields.
use sysadmin_assistant.Shared.{
  ◌≡◌, refl, ap, ◌∙◌, String, Bool, false, ◌&&◌, ◌||◌, not, Option, none, some, [], if◌then◌else◌,
  str_eq, arith,
}
use sysadmin_assistant.Shared.Dict.{Dict, lookup, insert, lookup-insert}
use sysadmin_assistant.ConfigKeys.{
  Key, named, other, Model, model_of, Declared, nothing, field, Annotation, add_alias, names_from,
  accepted_names, get,
}

-- Is the key the name of the field, or its alias, where it has one that is not empty?
abbrev pub is_alias : String → Option String → Bool
is_alias key none = false
is_alias key (some alias) = not (str_eq alias "") && str_eq alias key

abbrev pub first_of_two : Option Annotation → Option Annotation → Option Annotation
first_of_two none later = later
first_of_two (some info) later = some info

-- The last field that has the key as its name or its alias.
abbrev pub declared_in : String → Declared → Option Annotation
declared_in key nothing = none
declared_in key (field name alias info rest) =
    first_of_two (declared_in key rest)
      (if str_eq name key || is_alias key alias then some info else none)

abbrev pub declared_by : Key → Model → Option Annotation
declared_by (named key) (model_of fields) = declared_in key fields
declared_by (other text) model = none

lookup-add_alias :
    (key : String) (alias : Option String) (info : Annotation) (names : Dict Annotation)
    → lookup key (add_alias alias info names)
      ≡ (if is_alias key alias then some info else lookup key names)
unfolding add_alias
lookup-add_alias key none info names = refl
lookup-add_alias key (some alias) info names = ground (arith, lookup-insert alias key info names)

last_wins :
    (later : Option Annotation) (b c : Bool) (info : Annotation) (before : Option Annotation)
    → first_of_two later (if c then some info else if b then some info else before)
      ≡ first_of_two (first_of_two later (if b || c then some info else none)) before
last_wins (some found) b c info before = refl
last_wins none b c info before = ground arith

ends_none : (o : Option Annotation) → first_of_two o none ≡ o
ends_none none = refl
ends_none (some info) = refl

lookup-names_from :
    (key : String) (fields : Declared) (names : Dict Annotation)
    → lookup key (names_from fields names)
      ≡ first_of_two (declared_in key fields) (lookup key names)
unfolding names_from
lookup-names_from key nothing names = refl
lookup-names_from key (field name alias info rest) names =
    lookup-names_from key rest (add_alias alias info (insert name info names))
    ∙ ap (first_of_two (declared_in key rest)) (
        lookup-add_alias key alias info (insert name info names)
        ∙ ap (λ o. if is_alias key alias then some info else o) (lookup-insert name key info names))
    ∙ last_wins (declared_in key rest) (str_eq name key) (is_alias key alias) info
        (lookup key names)

pub get-accepted_names :
    (key : Key) (model : Model) → get key (accepted_names model) ≡ declared_by key model
unfolding get accepted_names lookup
get-accepted_names (named key) (model_of fields) =
    lookup-names_from key fields [] ∙ ends_none (declared_in key fields)
get-accepted_names (other text) model = refl
