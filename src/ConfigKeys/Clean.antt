-- ===== src/ConfigKeys/Clean.antt =====
-- When the walk finds nothing to report, against the typing of a configuration by its model.
use sysadmin_assistant.Shared.{
  ℕ, suc, ◌≡◌, refl, ap, ◌∙◌, String, Bool, true, false, ◌&&◌, ◌||◌, Option, none, some, List, [],
  ◌∷◌, ◌++◌, any, if◌then◌else◌, str_eq, arith,
}
use sysadmin_assistant.ConfigKeys.{
  Value, null, scalar, mapping, sequence, Entries, end, entry, Items, nil, item, Model, KeyReport,
  clean, is_none, accepted_names, get, key_path, item_path, add_unknown, add_unwalkable, root_or,
  section_of, walk_into, walk_entries, walk_value, walk_items, walk, or_empty, report_for_file,
}
use sysadmin_assistant.ConfigKeys.Names.{declared_by, get-accepted_names}

is_none-append {ℓ} : {A : Type ℓ} (xs : List A) (x : A) → is_none (xs ++ (x ∷ [])) ≡ false
unfolding is_none
is_none-append [] x = refl
is_none-append (y ∷ ys) x = refl

add_unknown-unclean :
    (path : String) (report : KeyReport) → clean (add_unknown path report) ≡ clean report && false
unfolding clean add_unknown
add_unknown-unclean path report = ground (arith, is_none-append report.unknown path)

add_unwalkable-unclean :
    (path : String) (report : KeyReport)
    → clean (add_unwalkable path report) ≡ clean report && false
unfolding clean add_unwalkable
add_unwalkable-unclean path report = ground (arith, is_none-append report.unwalkable path)

and_true : (b : Bool) → b ≡ (b && true)
and_true true = refl
and_true false = refl

and_assoc : (a b c : Bool) → ((a && b) && c) ≡ (a && (b && c))
and_assoc true b c = refl
and_assoc false b c = refl

clean_if :
    (b c : Bool) (report walked : KeyReport)
    → clean walked ≡ (clean report && c)
    → clean (if b then report else walked) ≡ (clean report && (b || c))
clean_if true c report walked h = and_true (clean report)
clean_if false c report walked h = h

module _ (foreign : List String) where
  -- Does the value have the type that the model gives it? A mapping does where each of its keys is
  -- foreign, or is declared and has a value of the type inside the field; a list has the type of the
  -- field where all its items have; a missing value has any type.
  mutual
    pub conforms : Value → Model → String → Bool
    conforms null model prefix = true
    conforms (scalar truth) model prefix = false
    conforms (sequence items) model prefix = false
    conforms (mapping entries) model prefix = conforms_entries entries model prefix

    pub conforms_entries : Entries → Model → String → Bool
    conforms_entries end model prefix = true
    conforms_entries (entry key value rest) model prefix =
        (any (str_eq (key_path prefix key)) foreign
          || conforms_value value (section_of (declared_by key model)) (key_path prefix key))
        && conforms_entries rest model prefix

    pub conforms_value : Value → Option (Option Model) → String → Bool
    conforms_value value none path = false
    conforms_value value (some none) path = true
    conforms_value null (some (some model)) path = true
    conforms_value (scalar truth) (some (some model)) path = false
    conforms_value (mapping entries) (some (some model)) path = conforms_entries entries model path
    conforms_value (sequence items) (some (some model)) path = conforms_items items 0 model path

    pub conforms_items : Items → ℕ → Model → String → Bool
    conforms_items nil index model path = true
    conforms_items (item value rest) index model path =
        conforms value model (item_path path index) && conforms_items rest (suc index) model path

  mutual
    unfolding walk_into walk_entries walk_value walk_items conforms conforms_entries conforms_value
        conforms_items

    walk_into-clean :
        (value : Value) (model : Model) (prefix : String) (report : KeyReport)
        → clean (walk_into foreign value model prefix report)
          ≡ (clean report && conforms value model prefix)
    walk_into-clean null model prefix report = and_true (clean report)
    walk_into-clean (scalar truth) model prefix report =
        add_unwalkable-unclean (root_or prefix) report
    walk_into-clean (sequence items) model prefix report =
        add_unwalkable-unclean (root_or prefix) report
    walk_into-clean (mapping entries) model prefix report =
        walk_entries-clean entries model prefix report

    walk_entries-clean :
        (entries : Entries) (model : Model) (prefix : String) (report : KeyReport)
        → clean (walk_entries foreign entries (accepted_names model) prefix report)
          ≡ (clean report && conforms_entries entries model prefix)
    walk_entries-clean end model prefix report = and_true (clean report)
    walk_entries-clean (entry key value rest) model prefix report =
        let path = key_path prefix key in
        let is_foreign = any (str_eq path) foreign in
        let found = section_of (declared_by key model) in
        let walked =
          walk_value foreign value (section_of (get key (accepted_names model))) path report in
        walk_entries-clean rest model prefix (if is_foreign then report else walked)
        ∙ ap (λ b. b && conforms_entries rest model prefix)
            (clean_if is_foreign (conforms_value value found path) report walked (
              ap (λ o. clean (walk_value foreign value (section_of o) path report))
                (get-accepted_names key model)
              ∙ walk_value-clean value found path report))
        ∙ and_assoc (clean report) (is_foreign || conforms_value value found path)
            (conforms_entries rest model prefix)

    walk_value-clean :
        (value : Value) (found : Option (Option Model)) (path : String) (report : KeyReport)
        → clean (walk_value foreign value found path report)
          ≡ (clean report && conforms_value value found path)
    walk_value-clean value none path report = add_unknown-unclean path report
    walk_value-clean value (some none) path report = and_true (clean report)
    walk_value-clean null (some (some model)) path report = and_true (clean report)
    walk_value-clean (scalar truth) (some (some model)) path report =
        add_unwalkable-unclean path report
    walk_value-clean (mapping entries) (some (some model)) path report =
        walk_entries-clean entries model path report
    walk_value-clean (sequence items) (some (some model)) path report =
        walk_items-clean items 0 model path report

    walk_items-clean :
        (items : Items) (index : ℕ) (model : Model) (path : String) (report : KeyReport)
        → clean (walk_items foreign items index model path report)
          ≡ (clean report && conforms_items items index model path)
    walk_items-clean nil index model path report = and_true (clean report)
    walk_items-clean (item value rest) index model path report =
        walk_items-clean rest (suc index) model path
          (walk_into foreign value model (item_path path index) report)
        ∙ ap (λ b. b && conforms_items rest (suc index) model path)
            (walk_into-clean value model (item_path path index) report)
        ∙ and_assoc (clean report) (conforms value model (item_path path index))
            (conforms_items rest (suc index) model path)

  clean-walk :
      (raw : Value) (model : Model) (prefix : String)
      → clean (walk foreign raw model prefix) ≡ conforms raw model prefix
  unfolding walk clean is_none
  clean-walk raw model prefix =
      walk_into-clean raw model prefix (record { unknown = []; unwalkable = []; walked = true })

  -- Has the file been read, and does it have the type that the model gives it?
  abbrev pub file_conforms : Option Value → Model → Bool
  file_conforms none model = false
  file_conforms (some raw) model = conforms (or_empty foreign raw) model ""

  -- The report on a file is clean exactly when the file could be read and parsed and has the type that
  -- the model gives it: each of its keys is foreign, or is a declared name or alias with a value of the
  -- type inside the field.
  pub clean-report_for_file :
      (parsed : Option Value) (model : Model)
      → clean (report_for_file foreign parsed model) ≡ file_conforms parsed model
  unfolding report_for_file clean
  clean-report_for_file none model = refl
  clean-report_for_file (some raw) model = clean-walk (or_empty foreign raw) model ""
