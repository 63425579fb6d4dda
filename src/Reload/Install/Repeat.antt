-- ===== src/Reload/Install/Repeat.antt =====
-- What a reload leaves when it is refused, and when nothing has changed.
use sysadmin_assistant.Shared.{ℕ, String, ◌≡◌, ap, Option, some, List, [], ◌++◌}
use sysadmin_assistant.Shared.Dict.{Dict}
use sysadmin_assistant.Jobs.{Trigger, JobSpec, Job, JobSyncReport, apply_jobs, sorted_set}
use sysadmin_assistant.Jobs.Table.Specs.{IsDistinct}
use sysadmin_assistant.Jobs.Table.{apply_jobs_repeats}
use sysadmin_assistant.Reload.Leaves.{Value}
use sysadmin_assistant.Reload.Leaves.Changed.{changed_under_same}
use sysadmin_assistant.Reload.Diff.{Service, diff_services_same}
use sysadmin_assistant.Reload.Handover.{HandoverReport}
use sysadmin_assistant.Reload.Install.{KeyReport, Running, restart_only, install, owed, synced}

module _ {Config : Type 0} (dump : Config → Value) (job_config_paths : List String)
    (prune : Config → List Service → String → List String → List String × List String) where
  module _ (trigger_text : Trigger → Option String) (targets : List String)
      (plan : Config → List JobSpec) where
    -- The host's sync at a reading of its clock: `apply_jobs` on the plan of the configuration.
    abbrev pub sync_at : ℕ → Option (Config → Dict Job → Dict Job × Option JobSyncReport)
    sync_at now = some λ config jobs.
        let out = apply_jobs trigger_text targets now jobs (plan config) in (out.0, some out.1)

    -- Where the plan's jobs are different, a second reload of unchanged files, at any later reading,
    -- reports no service and no job as changed and leaves the job table as it is; what it owes to a
    -- restart are only the settings of jobs that the host refuses.
    pub reload_repeats :
        (now : Running Config) (config : Config) (services : List Service) (keys : KeyReport)
        (handover : HandoverReport) (t later : ℕ)
        → IsDistinct (plan config)
        → let first =
            install dump job_config_paths prune (sync_at t) now config services keys handover in
          let again =
            install dump job_config_paths prune
              (sync_at later)
              first.0
              config
              services
              keys
              handover in
          (again.0.jobs ≡ first.0.jobs)
          × (again.1.services_added ≡ [])
          × (again.1.services_removed ≡ [])
          × (again.1.services_changed ≡ [])
          × (again.1.jobs_added ≡ [])
          × (again.1.jobs_removed ≡ [])
          × (again.1.jobs_retimed ≡ [])
          × (again.1.requires_restart
              ≡ sorted_set
                  (apply_jobs trigger_text targets later first.0.jobs
                    (plan config)).1.failed_config_paths)
    unfolding install synced owed
    reload_repeats now config services keys handover t later distinct =
        let quiet =
          apply_jobs_repeats trigger_text targets t later now.jobs (plan config) distinct in
        let same = diff_services_same services in
        let table = (apply_jobs trigger_text targets t now.jobs (plan config)).0 in
        let refused =
          (apply_jobs trigger_text targets later table (plan config)).1.failed_config_paths in
        (
          quiet.0,
          ap (λ d. d.added) same,
          ap (λ d. d.removed) same,
          ap (λ d. d.changed) same,
          quiet.1,
          quiet.2,
          quiet.3,
          ap (λ changed. sorted_set (changed ++ refused))
              (changed_under_same (dump config) restart_only),
        )
