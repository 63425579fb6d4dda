-- ===== src/Jobs/Table.antt =====
-- The job table against what the specs ask for.
pub mod Specs
use sysadmin_assistant.Shared.{
  ℕ, String, ◌≡◌, refl, ap, sym, subst, ◌∙◌, ◌⊎◌, inl, inr, Bool, true, false, Option, none, some,
  List, [], ◌∷◌, arith, any, All, str_eq, str_eq_iff, str_eq_refl, Bool-cases, Option-cases,
  if◌then◌else◌,
}
use sysadmin_assistant.Shared.Dict.{Dict, lookup, lookup-insert, lookup-erase}
use sysadmin_assistant.Jobs.{
  Trigger, JobSpec, Job, unchanged, sync, remove_job, JobSyncReport, noted, empty_report, accepted,
  apply_spec, apply_job, apply_from, apply_jobs,
}
use sysadmin_assistant.Jobs.Table.Specs.{
  names, IsDistinct, Wants, Settled, Wants-Settled, SameChanges, sync-Wants, sync-other,
  sync-Settled, removed-lookup, apply_spec-Wants, apply_spec-other, apply_spec-Settled,
}

module _ (trigger_text : Trigger → Option String) (targets : List String) where
  abbrev pub Meets : Dict Job → Dict Job → JobSpec → Type 0
  Meets before after spec =
      Wants spec.enabled (accepted trigger_text targets spec) (lookup spec.job_id before)
        (lookup spec.job_id after)

  apply_from-other :
      (now : ℕ) (jobs : Dict Job) (report : JobSyncReport) (specs : List JobSpec) (job_id : String)
      → names job_id specs ≡ false
      → lookup job_id (apply_from trigger_text targets now (jobs, report) specs).0
        ≡ lookup job_id jobs
  unfolding apply_from apply_job
  apply_from-other now jobs report [] job_id absent = refl
  apply_from-other now jobs report (spec ∷ specs) job_id absent =
      let out = apply_job trigger_text targets now (jobs, report) spec in
      apply_from-other now out.0 out.1 specs job_id (ground (arith, absent))
      ∙ apply_spec-other now jobs report spec spec.enabled (accepted trigger_text targets spec)
          job_id (ground (arith, absent))

  -- What a spec of the list finds and leaves is not touched by the specs of other jobs.
  Meets-from :
      (before jobs after : Dict Job) (spec : JobSpec) (specs : List JobSpec)
      → (lookup spec.job_id before ≡ lookup spec.job_id jobs)
      → Meets jobs after spec
      → Meets before after spec
  Meets-from before jobs after spec specs same m =
      subst
        (λ found.
          Wants spec.enabled (accepted trigger_text targets spec) found (lookup spec.job_id after))
        (sym same) m

  Meets-all :
      (before jobs after : Dict Job) (job_id : String) (specs : List JobSpec)
      → ((other : String) → str_eq job_id other ≡ false → lookup other before ≡ lookup other jobs)
      → names job_id specs ≡ false
      → All (Meets jobs after) specs
      → All (Meets before after) specs
  Meets-all before jobs after job_id [] same absent m = tt
  Meets-all before jobs after job_id (spec ∷ specs) same absent m = (
    Meets-from before jobs after spec specs
        (same spec.job_id
          (ground (arith, absent, str_eq_iff job_id spec.job_id, str_eq_iff spec.job_id job_id)))
        m.0,
    Meets-all before jobs after job_id specs same (ground (arith, absent)) m.1,
  )

  apply_from-Meets :
      (now : ℕ) (jobs : Dict Job) (report : JobSyncReport) (specs : List JobSpec)
      → IsDistinct specs
      → All (Meets jobs (apply_from trigger_text targets now (jobs, report) specs).0) specs
  unfolding apply_from apply_job
  apply_from-Meets now jobs report [] distinct = tt
  apply_from-Meets now jobs report (spec ∷ specs) distinct =
      let text = accepted trigger_text targets spec in
      let out = apply_spec now jobs report spec spec.enabled text in
      let after = (apply_from trigger_text targets now out specs).0 in
      (
        subst (λ found. Wants spec.enabled text (lookup spec.job_id jobs) found)
            (sym (apply_from-other now out.0 out.1 specs spec.job_id distinct.0))
            (apply_spec-Wants now jobs report spec spec.enabled text),
        Meets-all jobs out.0 after spec.job_id specs
            (λ other differs.
              sym (apply_spec-other now jobs report spec spec.enabled text other differs))
            distinct.0 (apply_from-Meets now out.0 out.1 specs distinct.1),
      )

  -- For specs of different jobs, the table is afterwards what each spec asks for: a disabled job is
  -- not in it, one that the host refuses is as it was, and any other has the spec's trigger, being
  -- the very job that was there if that had the trigger already. Jobs that no spec names stay.
  pub apply_jobs_table :
      (now : ℕ) (jobs : Dict Job) (specs : List JobSpec) (other : String)
      → IsDistinct specs
      → names other specs ≡ false
      → All (Meets jobs (apply_jobs trigger_text targets now jobs specs).0) specs
        × (lookup other (apply_jobs trigger_text targets now jobs specs).0 ≡ lookup other jobs)
  unfolding apply_jobs
  apply_jobs_table now jobs specs other distinct absent = (
    apply_from-Meets now jobs empty_report specs distinct,
    apply_from-other now jobs empty_report specs other absent,
  )

  abbrev IsSettledIn : Dict Job → JobSpec → Type 0
  IsSettledIn jobs spec =
      Settled spec.enabled (accepted trigger_text targets spec) (lookup spec.job_id jobs)

  Meets-IsSettledIn :
      (before after : Dict Job) (specs : List JobSpec)
      → All (Meets before after) specs
      → All (IsSettledIn after) specs
  Meets-IsSettledIn before after [] m = tt
  Meets-IsSettledIn before after (spec ∷ specs) m = (
    Wants-Settled spec.enabled (accepted trigger_text targets spec) (lookup spec.job_id before)
        (lookup spec.job_id after) m.0,
    Meets-IsSettledIn before after specs m.1,
  )

  apply_from-settled :
      (now : ℕ) (jobs : Dict Job) (report : JobSyncReport) (specs : List JobSpec)
      → All (IsSettledIn jobs) specs
      → ((apply_from trigger_text targets now (jobs, report) specs).0 ≡ jobs)
        × SameChanges (apply_from trigger_text targets now (jobs, report) specs).1 report
  unfolding apply_from apply_job
  apply_from-settled now jobs report [] s = (refl, (refl, refl, refl))
  apply_from-settled now jobs report (spec ∷ specs) s =
      let text = accepted trigger_text targets spec in
      let out = apply_spec now jobs report spec spec.enabled text in
      let step = apply_spec-Settled now jobs report spec spec.enabled text s.0 in
      let rest =
        apply_from-settled now out.0 out.1 specs
          (subst (λ d. All (IsSettledIn d) specs) (sym step.0) s.1) in
      (rest.0 ∙ step.0, (rest.1.0 ∙ step.1.0, rest.1.1 ∙ step.1.1, rest.1.2 ∙ step.1.2))

  -- Applying the same specs of different jobs again, at any later reading, leaves the table as it is
  -- and reports nothing added, removed or timed anew, so that no job's clock starts over.
  pub apply_jobs_repeats :
      (now later : ℕ) (jobs : Dict Job) (specs : List JobSpec)
      → IsDistinct specs
      → let first = apply_jobs trigger_text targets now jobs specs in
        let again = apply_jobs trigger_text targets later first.0 specs in
        (again.0 ≡ first.0) × (again.1.added ≡ []) × (again.1.removed ≡ []) × (again.1.retimed ≡ [])
  unfolding apply_jobs
  apply_jobs_repeats now later jobs specs distinct =
      let after = (apply_from trigger_text targets now (jobs, empty_report) specs).0 in
      let quiet = apply_from-settled later after empty_report specs (
        Meets-IsSettledIn jobs after specs
          (apply_from-Meets now jobs empty_report specs distinct)) in
      (quiet.0, quiet.1.0, quiet.1.1, quiet.1.2)
