-- ===== src/Jobs/Table/Specs.antt =====
-- What one spec makes of the job table.
use sysadmin_assistant.Shared.{
  ℕ, String, ◌≡◌, refl, ap, ◌∙◌, ◌⊎◌, inl, inr, Bool, true, false, Option, none, some, List, [],
  ◌∷◌, arith, any, str_eq, str_eq_iff, str_eq_refl, Bool-cases, Option-cases, if◌then◌else◌,
}
use sysadmin_assistant.Shared.Dict.{Dict, lookup, lookup-insert, lookup-erase}
use sysadmin_assistant.Jobs.{
  JobSpec, Job, unchanged, sync, remove_job, JobSyncReport, noted, accepted, apply_spec,
}

-- Do the specs name the job?
abbrev pub names : String → List JobSpec → Bool
names job_id specs = any (λ s. str_eq s.job_id job_id) specs

abbrev pub IsDistinct : List JobSpec → Type 0
IsDistinct [] = Unit
IsDistinct (s ∷ specs) = (names s.job_id specs ≡ false) × IsDistinct specs

-- What a spec makes of the job that it finds under its id: a disabled one removes it, one that the
-- host refuses leaves it, and any other has the job with its trigger, the one found if it had it.
abbrev pub Wants : Bool → Option String → Option Job → Option Job → Type 0
Wants false accepted before after = after ≡ none
Wants true none before after = after ≡ before
Wants true (some text) before after =
    (job : Job) × (after ≡ some job)
    × (str_eq job.trigger text ≡ true)
    × ((before ≡ some job)
        ⊎ ((before ≡ none)
            ⊎ ((old : Job) × (before ≡ some old) × (str_eq old.trigger text ≡ false))))

-- Nothing is left to do for the spec.
abbrev pub Settled : Bool → Option String → Option Job → Type 0
Settled false accepted found = found ≡ none
Settled true none found = Unit
Settled true (some text) found = (job : Job) × (found ≡ some job) × (str_eq job.trigger text ≡ true)

pub Wants-Settled :
    (enabled : Bool) (accepted : Option String) (before after : Option Job)
    → Wants enabled accepted before after
    → Settled enabled accepted after
Wants-Settled false accepted before after w = w
Wants-Settled true none before after w = tt
Wants-Settled true (some text) before after w = (w.0, w.1, w.2)

-- The changes that a report names.
abbrev pub SameChanges : JobSyncReport → JobSyncReport → Type 0
SameChanges r s = (r.added ≡ s.added) × (r.removed ≡ s.removed) × (r.retimed ≡ s.retimed)

pub sync-Wants :
    (jobs : Dict Job) (job_id text : String) (delay : Option ℕ) (now : ℕ)
    → Wants true
        (some text)
        (lookup job_id jobs)
        (lookup job_id (sync jobs job_id text delay now).0)
unfolding sync
sync-Wants jobs job_id text delay now = elim (Option-cases (lookup job_id jobs)) [
  | inl new ↦
      let job : Job = record { trigger = text; timed_at = now; first_run_delay_seconds = delay } in
      (
        job,
        ground (arith, new, lookup-insert job_id job_id job jobs, str_eq_refl job_id),
        str_eq_refl text,
        inr (inl new),
      )
  | inr (old, known) ↦ elim (Bool-cases (str_eq old.trigger text)) [
    | inl same ↦ (old, ground (arith, known, same), same, inl known)
    | inr other ↦
        let job : Job = record old { trigger = text; timed_at = now } in
        (
          job,
          ground (arith, known, other, lookup-insert job_id job_id job jobs, str_eq_refl job_id),
          str_eq_refl text,
          inr (inr (old, known, other)),
        )
  ]
]

pub sync-other :
    (jobs : Dict Job) (job_id text other : String) (delay : Option ℕ) (now : ℕ)
    → str_eq job_id other ≡ false
    → lookup other (sync jobs job_id text delay now).0 ≡ lookup other jobs
unfolding sync
sync-other jobs job_id text other delay now differs = elim (Option-cases (lookup job_id jobs)) [
  | inl new ↦
      let job : Job = record { trigger = text; timed_at = now; first_run_delay_seconds = delay } in
      ground (arith, new, lookup-insert job_id other job jobs)
  | inr (old, known) ↦
      let job : Job = record old { trigger = text; timed_at = now } in
      ground (arith, known, lookup-insert job_id other job jobs)
]

pub sync-Settled :
    (jobs : Dict Job) (job_id text : String) (delay : Option ℕ) (now : ℕ)
    → Settled true (some text) (lookup job_id jobs)
    → sync jobs job_id text delay now ≡ (jobs, unchanged)
unfolding sync
sync-Settled jobs job_id text delay now (job, known, same) = ground (arith, known, same)

pub removed-lookup :
    (jobs : Dict Job) (job_id other : String)
    → lookup other (remove_job jobs job_id).0
      ≡ (if str_eq job_id other then none else lookup other jobs)
unfolding remove_job
removed-lookup jobs job_id other =
    ground (arith, lookup-erase job_id other jobs, str_eq_iff job_id other)

pub apply_spec-Wants :
    (now : ℕ) (jobs : Dict Job) (report : JobSyncReport) (spec : JobSpec) (enabled : Bool)
    (text : Option String)
    → Wants enabled text
        (lookup spec.job_id jobs)
        (lookup spec.job_id (apply_spec now jobs report spec enabled text).0)
unfolding apply_spec
apply_spec-Wants now jobs report spec false text =
    removed-lookup jobs spec.job_id spec.job_id ∙ rw (str_eq_refl spec.job_id) refl
apply_spec-Wants now jobs report spec true none = refl
apply_spec-Wants now jobs report spec true (some t) =
    sync-Wants jobs spec.job_id t spec.first_run_delay_seconds now

pub apply_spec-other :
    (now : ℕ) (jobs : Dict Job) (report : JobSyncReport) (spec : JobSpec) (enabled : Bool)
    (text : Option String) (job_id : String)
    → str_eq spec.job_id job_id ≡ false
    → lookup job_id (apply_spec now jobs report spec enabled text).0 ≡ lookup job_id jobs
unfolding apply_spec
apply_spec-other now jobs report spec false text job_id other =
    removed-lookup jobs spec.job_id job_id ∙ rw other refl
apply_spec-other now jobs report spec true none job_id other = refl
apply_spec-other now jobs report spec true (some t) job_id other =
    sync-other jobs spec.job_id t job_id spec.first_run_delay_seconds now other

pub apply_spec-Settled :
    (now : ℕ) (jobs : Dict Job) (report : JobSyncReport) (spec : JobSpec) (enabled : Bool)
    (text : Option String)
    → Settled enabled text (lookup spec.job_id jobs)
    → ((apply_spec now jobs report spec enabled text).0 ≡ jobs)
      × SameChanges (apply_spec now jobs report spec enabled text).1 report
unfolding apply_spec remove_job
apply_spec-Settled now jobs report spec false text gone =
    (ground (arith, gone), (ground (arith, gone), ground (arith, gone), ground (arith, gone)))
apply_spec-Settled now jobs report spec true none s = (refl, (refl, refl, refl))
apply_spec-Settled now jobs report spec true (some t) s =
    let quiet = sync-Settled jobs spec.job_id t spec.first_run_delay_seconds now s in
    (
      ap (λ out. out.0) quiet,
      (
        ap (λ out. (noted spec.job_id out.1 report).added) quiet,
        ap (λ out. (noted spec.job_id out.1 report).removed) quiet,
        ap (λ out. (noted spec.job_id out.1 report).retimed) quiet,
      ),
    )
