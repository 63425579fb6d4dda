-- ===== src/Reload/Diff.antt =====
-- `diff_services`: the service files compared by name.
use sysadmin_assistant.Shared.{
  String, ◌≡◌, refl, ◌∙◌, ap, Bool, true, false, ◌&&◌, not, Option, none, some, List, [], ◌∷◌,
  arith, keep, is_some, str_eq, str_eq_refl,
}
use sysadmin_assistant.Shared.Dict.{Dict, lookup, insert}
use sysadmin_assistant.Shared.Sort.{sort_by}
use sysadmin_assistant.Jobs.{text_less}
use sysadmin_assistant.Reload.Leaves.{keys}
use sysadmin_assistant.Reload.Leaves.Changed.{has, keep-has, keys-has}
use sysadmin_assistant.Shared.Sort.{any-sort_by}

-- A service of the file: its name, the agent that it declares, and the dump of its declaration.
pub record Service : Type 0 where
  pub name : String
  pub agent : Option String
  pub declaration : String

by_name_from : Dict String → List Service → Dict String
by_name_from d [] = d
by_name_from d (s ∷ services) = by_name_from (insert s.name s.declaration d) services

-- `{s.name: s.model_dump(mode="json") for s in services}`
unfoldable pub by_name : List Service → Dict String
unfolding by_name_from
by_name services = by_name_from [] services

pub record ServicesDiff : Type 0 where
  pub added : List String
  pub removed : List String
  pub changed : List String

-- Are the two declarations equal? The code asks it only where both are there.
unfoldable pub same_value : Option String → Option String → Bool
same_value none none = true
same_value none (some w) = false
same_value (some v) none = false
same_value (some v) (some w) = str_eq v w

same_value_refl : (v : Option String) → same_value v v ≡ true
unfolding same_value
same_value_refl none = refl
same_value_refl (some v) = str_eq_refl v

sorted_names : (String → Bool) → Dict String → List String
sorted_names p d = sort_by text_less (keep p (keys d))

unfoldable pub diff_dicts : Dict String → Dict String → ServicesDiff
unfolding sorted_names same_value
diff_dicts old new = record {
  added = sorted_names (λ n. not (is_some (lookup n old))) new;
  removed = sorted_names (λ n. not (is_some (lookup n new))) old;
  changed =
      sorted_names (λ n. is_some (lookup n new) && not (same_value (lookup n old) (lookup n new)))
        old;
}

unfoldable pub diff_services : List Service → List Service → ServicesDiff
unfolding diff_dicts
diff_services old new = diff_dicts (by_name old) (by_name new)

sorted_names-has :
    (p : String → Bool) (d : Dict String) (name : String)
    → has name (sorted_names p d) ≡ (is_some (lookup name d) && p name)
unfolding sorted_names
sorted_names-has p d name =
    any-sort_by text_less (λ y. str_eq y name) (keep p (keys d))
    ∙ keep-has p name (keys d)
    ∙ ap (λ b. b && p name) (keys-has name d)

-- A service is named as added, removed or changed exactly when only the new file has it, only the old
-- one has it, or both have it with different declarations (the last of a name counting in each file).
pub diff_services-has :
    (old new : List Service) (name : String)
    → let d = diff_services old new in
      let before = lookup name (by_name old) in
      let after = lookup name (by_name new) in
      (has name d.added ≡ (is_some after && not (is_some before)))
      × (has name d.removed ≡ (is_some before && not (is_some after)))
      × (has name d.changed ≡ (is_some before && (is_some after && not (same_value before after))))
unfolding diff_services diff_dicts
diff_services-has old new name = (
  sorted_names-has _ (by_name new) name,
  sorted_names-has _ (by_name old) name,
  sorted_names-has _ (by_name old) name,
)

keep_absent :
    (p : String → Bool) (d : Dict String)
    → ((name : String) → is_some (lookup name d) ≡ true → p name ≡ false)
    → keep p (keys d) ≡ []
unfolding keys lookup
keep_absent p [] never = refl
keep_absent p ((k, v) ∷ d) never =
    ground (
      arith,
      never k,
      str_eq_refl k,
      keep_absent p d λ name here. never name (ground (arith, here)),
    )

-- A file does not differ from itself.
pub diff_services_same :
    (services : List Service)
    → diff_services services services ≡ record { added = []; removed = []; changed = [] }
unfolding diff_services diff_dicts sorted_names sort_by
diff_services_same services =
    let d = by_name services in
    let gone : keep (λ n. not (is_some (lookup n d))) (keys d) ≡ [] =
      keep_absent _ d (λ name here. ground (arith, here)) in
    let kept : keep (λ n. is_some (lookup n d) && not (same_value (lookup n d) (lookup n d)))
          (keys d)
        ≡ [] =
      keep_absent _ d (λ name here. ground (arith, here, same_value_refl (lookup name d))) in
    cc (ap (sort_by text_less) gone, ap (sort_by text_less) kept)
