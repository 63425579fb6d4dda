-- ===== src/Reload/Install.antt =====
-- `reload_configuration`: reading both files, installing both, and the report.
pub mod Repeat
use sysadmin_assistant.Shared.{
  ℕ, String, ◌≡◌, refl, Bool, true, false, not, Option, none, some, List, [], ◌∷◌, ◌++◌, arith,
  length, is_some,
}
use sysadmin_assistant.Shared.Dict.{Dict}
use sysadmin_assistant.Shared.Text.{concat}
use sysadmin_assistant.Jobs.{Job, JobSyncReport, empty_report, sorted_set}
use sysadmin_assistant.Reload.Leaves.{Value, changed_under}
use sysadmin_assistant.Reload.Diff.{Service, ServicesDiff, diff_services}
use sysadmin_assistant.Reload.Handover.{HandoverReport, unwalked}

-- What a call yields, or the message of its exception.
pub data Result {ℓ} (A : Type ℓ) : Type ℓ where
  ok : A → Result A
  raised : String → Result A

pub record KeyReport : Type 0 where
  pub unknown : List String
  pub unwalkable : List String
  pub walked : Bool

abbrev pub unread_keys : KeyReport
unread_keys = record { unknown = []; unwalkable = []; walked = false }

pub record ReloadReport : Type 0 where
  pub accepted : Bool
  pub error : Option String
  pub requires_restart : List String
  pub services_added : List String
  pub services_removed : List String
  pub services_changed : List String
  pub pruned : Dict (List String)
  pub services_total : ℕ
  pub jobs_synced : Bool
  pub jobs_added : List String
  pub jobs_removed : List String
  pub jobs_retimed : List String
  pub unknown_keys : List String
  pub unwalkable_sections : List String
  pub handover : HandoverReport

-- The paths that only a restart applies (`RESTART_ONLY`), and those that the job sync does.
abbrev pub restart_only : List String
restart_only = "service" ∷ "database" ∷ []

-- `_refused`
unfoldable pub refused : String → ReloadReport
refused error = record {
  accepted = false;
  error = some error;
  requires_restart = [];
  services_added = [];
  services_removed = [];
  services_changed = [];
  pruned = [];
  services_total = 0;
  jobs_synced = false;
  jobs_added = [];
  jobs_removed = [];
  jobs_retimed = [];
  unknown_keys = [];
  unwalkable_sections = [];
  handover = unwalked;
}

-- The running configuration, what each prunable agent remembers, and the job table.
pub record Running (Config : Type 0) : Type 0 where
  pub config : Config
  pub services : List Service
  pub agents : Dict (List String)
  pub jobs : Dict Job

-- `{name: names for name, names in pruned.items() if names}`
unfoldable pub non_empty : Dict (List String) → Dict (List String)
non_empty [] = []
non_empty ((name, []) ∷ d) = non_empty d
non_empty ((name, x ∷ xs) ∷ d) = (name, x ∷ xs) ∷ non_empty d

-- `dump` is the configuration's `model_dump`; `prune` is an agent's `forget_unknown`, which returns
-- what it keeps and what it drops; `sync_jobs` is the host's job sync, if there is one, with the
-- table that it leaves, and no report where it raises.
module _ {Config : Type 0} (dump : Config → Value) (job_config_paths : List String)
    (prune : Config → List Service → String → List String → List String × List String)
    (sync_jobs : Option (Config → Dict Job → Dict Job × Option JobSyncReport)) where
  unfoldable pub prune_agents :
      Config → List Service → Dict (List String) → Dict (List String) × Dict (List String)
  prune_agents config services [] = ([], [])
  prune_agents config services ((name, known) ∷ agents) =
      let (kept, dropped) = prune config services name known in
      let (rest, gone) = prune_agents config services agents in
      ((name, kept) ∷ rest, (name, dropped) ∷ gone)

  -- The table, the report of the sync, and whether it ran.
  unfoldable pub synced : Config → Dict Job → Dict Job × JobSyncReport × Bool
  synced config jobs = elim sync_jobs [
    | none ↦ (jobs, empty_report, false)
    | some sync ↦
        let (table, result) = sync config jobs in
        elim result [ none ↦ (table, empty_report, false) | some report ↦ (table, report, true) ]
  ]

  unfoldable pub owed : Config → Config → JobSyncReport → Bool → List String
  owed old new report true =
      sorted_set (changed_under (dump old) (dump new) restart_only ++ report.failed_config_paths)
  owed old new report false = sorted_set (
      changed_under (dump old) (dump new) restart_only
      ++ changed_under (dump old) (dump new) job_config_paths)

  -- Both files are read: they are installed, and the rest follows.
  unfoldable pub install :
      Running Config
      → Config
      → List Service
      → KeyReport
      → HandoverReport
      → Running Config × ReloadReport
  unfolding prune_agents synced owed non_empty
  install now new_config new_services keys handover =
      let diff = diff_services now.services new_services in
      let (agents, pruned) = prune_agents new_config new_services now.agents in
      let (jobs, report, ran) = synced new_config now.jobs in
      (
        record { config = new_config; services = new_services; agents = agents; jobs = jobs },
        record {
          accepted = true;
          error = none;
          requires_restart = owed now.config new_config report ran;
          services_added = diff.added;
          services_removed = diff.removed;
          services_changed = diff.changed;
          pruned = non_empty pruned;
          services_total = length new_services;
          jobs_synced = ran;
          jobs_added = report.added;
          jobs_removed = report.removed;
          jobs_retimed = report.retimed;
          unknown_keys = keys.unknown;
          unwalkable_sections = keys.unwalkable;
          handover = handover;
        },
      )

  abbrev pub read_or {ℓ} : {A : Type ℓ} → A → Option A → A
  read_or fallback none = fallback
  read_or fallback (some a) = a

  -- `parsed` is config.yaml as it parses, `keys` the walk of its keys, `loaded` services.yaml under
  -- the new configuration, and `handover` its report; `none` of the latter three is an exception.
  unfoldable pub reload_configuration :
      Running Config
      → Result Config
      → Option KeyReport
      → (Config → Result (List Service))
      → (List Service → Config → Option HandoverReport)
      → Running Config × ReloadReport
  unfolding install refused
  reload_configuration now (raised e) keys loaded handover =
      (now, refused (concat ("config.yaml: " ∷ e ∷ [])))
  reload_configuration now (ok config) keys loaded handover = elim (loaded config) [
    | raised e ↦ (now, refused (concat ("services.yaml: " ∷ e ∷ [])))
    | ok services ↦
        install now config services (read_or unread_keys keys)
          (read_or unwalked (handover services config))
  ]
