-- ===== src/Tests/Reload.antt =====
-- A reload in which a job is timed anew, a service goes and another comes.
use sysadmin_assistant.Shared.{
  ◌≡◌, ◌↔◌, refl, String, true, false, none, some, List, [], ◌∷◌, Option, All, str_eq,
}
use sysadmin_assistant.Shared.Dict.{Dict, lookup}
use sysadmin_assistant.Jobs.{
  Trigger, interval_seconds, interval_hours, cron, JobSpec, Job, apply_jobs, sorted_set,
}
use sysadmin_assistant.Jobs.Table.Specs.{names, IsDistinct}
use sysadmin_assistant.Jobs.Table.{Meets, apply_jobs_table}
use sysadmin_assistant.Reload.Leaves.{Value, leaf, obj, end, field, changed_under}
use sysadmin_assistant.Reload.Leaves.Changed.{has, IsUnder, changed_under-has}
use sysadmin_assistant.Reload.Leaves.Read.{leaves, last_at}
use sysadmin_assistant.Reload.Diff.{Service}
use sysadmin_assistant.Reload.Handover.{unwalked}
use sysadmin_assistant.Reload.Install.{
  ok, unread_keys, Running, ReloadReport, install, reload_configuration,
}
use sysadmin_assistant.Reload.Install.Repeat.{reload_repeats, sync_at}

-- The host takes every trigger but a cron one.
abbrev trigger_text : Trigger → Option String
trigger_text (interval_seconds n) = some "seconds"
trigger_text (interval_hours n) = some "hours"
trigger_text (cron hour minute day) = none

abbrev targets : List String
targets = "sysadmin" ∷ "briefing" ∷ "retention" ∷ []

abbrev spec : String → Trigger → JobSpec
spec job_id trigger = record {
  job_id = job_id;
  enabled = true;
  trigger = trigger;
  config_paths = job_id ∷ [];
  first_run_delay_seconds = none;
}

abbrev specs : List JobSpec
specs =
    spec "sysadmin" (interval_seconds 300)
    ∷ spec "briefing" (cron 7 0 none)
    ∷ record (spec "retention" (interval_hours 24)) { enabled = false }
    ∷ []

abbrev job : String → Job
job trigger = record { trigger = trigger; timed_at = 5; first_run_delay_seconds = none }

abbrev jobs : Dict Job
jobs =
    ("sysadmin", job "hours")
    ∷ ("briefing", job "cron")
    ∷ ("retention", job "hours")
    ∷ ("games", job "seconds")
    ∷ []

distinct : IsDistinct specs
unfolding str_eq
distinct = (refl, (refl, (refl, tt)))

unnamed : names "games" specs ≡ false
unfolding str_eq
unnamed = refl

apply_jobs_table_example :
    All (Meets trigger_text targets jobs (apply_jobs trigger_text targets 9 jobs specs).0) specs
    × (lookup "games" (apply_jobs trigger_text targets 9 jobs specs).0 ≡ lookup "games" jobs)
apply_jobs_table_example =
    apply_jobs_table trigger_text targets 9 jobs specs "games" distinct unnamed

abbrev settings : String → String → Value
settings port interval = obj (
    field "service" (obj (field "port" (leaf port) end)) (
      field "agents" (obj (field "sysadmin" (obj (field "interval" (leaf interval) end)) end)) end))

changed_under-has_example :
    (has "service.port"
        (changed_under (settings "8500" "300") (settings "8600" "60") ("service" ∷ []))
      ≡ true)
    ↔ (IsUnder ("service" ∷ []) "service.port"
        × ¬ (
            last_at "service.port" (leaves "" (settings "8500" "300")) "null"
            ≡ last_at "service.port" (leaves "" (settings "8600" "60")) "null"))
changed_under-has_example =
    changed_under-has (settings "8500" "300") (settings "8600" "60") ("service" ∷ []) "service.port"

abbrev service : String → Service
service name = record { name = name; agent = none; declaration = name }

abbrev now : Running Value
now = record {
  config = settings "8500" "300";
  services = service "web" ∷ service "mail" ∷ [];
  agents = ("sysadmin", "web" ∷ "mail" ∷ []) ∷ [];
  jobs = jobs;
}

abbrev forget : Value → List Service → String → List String → List String × List String
forget config services agent known = (known, [])

abbrev new_config : Value
new_config = settings "8600" "60"

abbrev new_services : List Service
new_services = service "web" ∷ service "files" ∷ []

abbrev outcome : Running Value × ReloadReport
outcome =
    reload_configuration (λ c. c) ("agents" ∷ []) forget none now (ok new_config) none
      (λ c. ok new_services) (λ services c. none)

abbrev first : Running Value × ReloadReport
first =
    install (λ c. c) ("agents" ∷ []) forget
      (sync_at (λ c. c) ("agents" ∷ []) forget trigger_text targets (λ c. specs) 9) now new_config
      new_services unread_keys unwalked

abbrev again : Running Value × ReloadReport
again =
    install (λ c. c) ("agents" ∷ []) forget
      (sync_at (λ c. c) ("agents" ∷ []) forget trigger_text targets (λ c. specs) 12) first.0
      new_config new_services unread_keys unwalked

reload_repeats_example :
    (again.0.jobs ≡ first.0.jobs)
    × (again.1.services_added ≡ [])
    × (again.1.services_removed ≡ [])
    × (again.1.services_changed ≡ [])
    × (again.1.jobs_added ≡ [])
    × (again.1.jobs_removed ≡ [])
    × (again.1.jobs_retimed ≡ [])
    × (again.1.requires_restart
        ≡ sorted_set (apply_jobs trigger_text targets 12 first.0.jobs specs).1.failed_config_paths)
reload_repeats_example =
    reload_repeats (λ c. c) ("agents" ∷ []) forget trigger_text targets (λ c. specs) now new_config
      new_services unread_keys unwalked 9 12 distinct
