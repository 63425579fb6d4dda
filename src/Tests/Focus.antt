-- ===== src/Tests/Focus.antt =====
-- A probe of the focused window, a configuration with a misspelt key, and a notification that is
-- delivered at its second attempt.
use sysadmin_assistant.Shared.{
  ℕ, zero, suc, ◌≡◌, refl, String, true, ◌&&◌, none, some, [], ◌∷◌, min, ltb, str_eq,
}
use sysadmin_assistant.Shared.Dict.{Dict, lookup, insert}
use sysadmin_assistant.Shared.Text.{is_digit, concat, show, is_space}
use sysadmin_assistant.Focus.{parse_line}
use sysadmin_assistant.Focus.Lines.{journal, parse_line-journal}
use sysadmin_assistant.Focus.Probe.{
  make_script, load, unload, read_journal, pause, remove_script, write_script, start, failed,
  answered, Answers, kwin_focus_probe, parse_load_id, negsuc,
}
use sysadmin_assistant.Focus.Probe.Cleanup.{IsOver, kwin_focus_probe-IsOver}
use sysadmin_assistant.ConfigKeys.{
  named, scalar, mapping, sequence, end, entry, nil, item, model_of, nothing, field, a_model,
  a_type, no_more, argument, Value, Model, clean, report_for_file, walk, walk_into, key_path,
  section_of, get, accepted_names, model_in, item_path,
}
use sysadmin_assistant.ConfigKeys.Clean.{file_conforms, clean-report_for_file}
use sysadmin_assistant.Notifier.{Attempt, status, unreachable, Payload, briefing, post_with_retry}
use sysadmin_assistant.Notifier.Posts.{rounds, retried, is_delivered, post_with_retry-attempts}

abbrev one_token : String
one_token = "0123456789abcdef0123456789abcdef"

abbrev other_token : String
other_token = "fedcba9876543210fedcba9876543210"

abbrev lines : Dict ℕ
lines = (other_token, 17) ∷ (one_token, 4242) ∷ []

parse_line-journal_example : parse_line (journal lines) one_token ≡ lookup one_token lines
unfolding is_digit
parse_line-journal_example =
    parse_line-journal one_token lines (refl, refl) ((refl, refl), ((refl, refl), tt))

load_id_test : parse_load_id " (-1,)\n" ≡ some (negsuc 0)
unfolding parse_load_id is_space is_digit
load_id_test = refl

-- KWin has a script of an earlier probe, starting the new one fails, and so does unloading it.
abbrev outside : Answers
outside calls make_script = answered "/run/user/1000/probe.js"
outside (unload ∷ calls) load = answered "(3,)"
outside calls load = answered "(-1,)"
outside (start i ∷ calls) unload = failed
outside calls unload = answered "(true,)"
outside calls read_journal = answered ""
outside calls pause = answered ""
outside calls remove_script = answered ""
outside calls (write_script text) = answered ""
outside calls (start i) = failed

kwin_focus_probe-IsOver_example : IsOver outside (kwin_focus_probe outside true one_token)
kwin_focus_probe-IsOver_example = kwin_focus_probe-IsOver outside true one_token

-- A model with a section, which is also accepted under an alias, and a list of sections.
abbrev source_model : Model
source_model = model_of (field "path" none (a_type no_more) nothing)

abbrev config_model : Model
config_model = model_of (
    field "schema_" (some "schema") (a_model source_model)
      (field "sources" none (a_type (argument (a_model source_model) no_more)) nothing))

abbrev parsed : Value
parsed = mapping (
    entry (named "schema") (mapping (entry (named "path") (scalar true) end)) (
      entry (named "sources")
        (sequence (item (mapping (entry (named "pth") (scalar true) end)) nil)) end))

clean-report_for_file_example :
    clean (report_for_file ("service" ∷ []) (some parsed) config_model)
    ≡ file_conforms ("service" ∷ []) (some parsed) config_model
clean-report_for_file_example = clean-report_for_file ("service" ∷ []) (some parsed) config_model

-- The misspelt key is reported under its path.
unknown_test :
    (report_for_file ("service" ∷ []) (some parsed) config_model).unknown ≡ "sources[0].pth" ∷ []
unfolding report_for_file walk walk_into str_eq key_path section_of get lookup accepted_names insert
    model_in item_path concat show
unknown_test = refl

abbrev attempts : ℕ → Attempt
attempts zero = unreachable
attempts (suc n) = status 200

abbrev sections : Payload String
sections = briefing ("disk" ∷ [])

post_with_retry-attempts_example :
    let again = retried attempts 3 0 in
    let (delivered, effects) = post_with_retry attempts "http://host/briefing" sections in
    (effects ≡ rounds (min 3 (suc again)) 1 "http://host/briefing" sections)
    × (delivered ≡ (ltb again 3 && is_delivered (attempts again)))
post_with_retry-attempts_example = post_with_retry-attempts attempts "http://host/briefing" sections
