-- ===== src/Runs/Events.antt =====
-- Which events reach the bus.
pub mod Invariant
use sysadmin_assistant.Shared.{
  ℕ, ◌+◌, String, ◌≡◌, refl, ap, sym, subst, Bool, true, false, ◌||◌, Option, none, some, List, [],
  ◌∷◌, ◌++◌, arith, any, All, All-append, ◌==◌, if◌then◌else◌, str_eq, if_cases,
}
use sysadmin_assistant.Shared.Dict.{Dict, lookup, insert, erase, lookup-insert, lookup-erase}
use sysadmin_assistant.Runs.{
  Event, alert_raised, alert_resolved, agent_run, Phase, executing, worked, recorded, Active,
  Process, Action, begin, raise_alert, resolve_alerts, commit, fail, record_outcome, outcome_lost,
  flush, die, close_abandoned, queue_of, put_run, begin_run, raise_in, resolve_in, commit_in,
  fail_in, record_in, lose_in, flush_in, of_run, step, run_all, started,
}
use sysadmin_assistant.Runs.Events.Invariant.{
  IsSafe, among, IsOf, among-append, IsOf-more, IsOf-later, All-map, Queued, RunIsSafe, Queued-more,
  RunIsSafe-more, insert-RunIsSafe, erase-RunIsSafe, erase_both-RunIsSafe, put_run-IsSafe,
  append-nil, put_run-IsSafe_same, same-IsSafe, All-snoc,
}

module _ (p : Process) (agent : String) (h : IsSafe p) where
  abbrev events : List Event
  events = queue_of (lookup agent p.pending)

  raise_in-IsSafe :
      (severity title : String) (run : Active) (phase : Phase)
      → Queued p.committed phase run.writes events
      → run.phase ≡ phase
      → IsSafe (raise_in p agent severity title run phase)
  unfolding raise_in
  raise_in-IsSafe severity title run executing q e =
      put_run-IsSafe_same (record p { next_alert = p.next_alert + 1 }) agent
        (record run { writes = run.writes ++ p.next_alert ∷ [] }) _
        (same-IsSafe p (record p { next_alert = p.next_alert + 1 }) refl refl refl refl h)
        (subst
          (λ f.
            Queued p.committed f (run.writes ++ p.next_alert ∷ [])
              (events ++ alert_raised p.next_alert severity title ∷ []))
          (sym e)
          (All-snoc (IsOf (run.writes ++ p.next_alert ∷ [])) events
            (alert_raised p.next_alert severity title)
            (All-map (IsOf run.writes) (IsOf (run.writes ++ p.next_alert ∷ [])) events
              (IsOf-more run.writes (p.next_alert ∷ [])) q)
            (IsOf-later run.writes (p.next_alert ∷ []) (alert_raised p.next_alert severity title)
              (ground arith))))
  raise_in-IsSafe severity title run (worked s x) q e = h
  raise_in-IsSafe severity title run recorded q e = h

  resolve_in-IsSafe :
      (pattern_text : String) (resolved : ℕ) (run : Active) (phase : Phase)
      → Queued p.committed phase run.writes events
      → run.phase ≡ phase
      → IsSafe (resolve_in p agent pattern_text resolved run phase)
  unfolding resolve_in
  resolve_in-IsSafe pattern_text resolved run executing q e = if_cases IsSafe (resolved == 0) h (
      put_run-IsSafe_same p agent run _ h (
        subst
          (λ f.
            Queued p.committed f run.writes
              (events ++ alert_resolved agent pattern_text resolved ∷ []))
          (sym e)
          (All-snoc (IsOf run.writes) events (alert_resolved agent pattern_text resolved) q tt)))
  resolve_in-IsSafe pattern_text resolved run (worked s x) q e = h
  resolve_in-IsSafe pattern_text resolved run recorded q e = h

  commit_in-IsSafe :
      (run : Active) (phase : Phase)
      → Queued p.committed phase run.writes events
      → IsSafe (commit_in p agent run phase)
  unfolding commit_in
  commit_in-IsSafe run executing q =
      put_run-IsSafe p agent (record run { phase = worked "completed" none; writes = [] }) events
        run.writes h
        (All-map (IsOf run.writes) (IsOf (p.committed ++ run.writes)) events
          (IsOf-later p.committed run.writes) q)
  commit_in-IsSafe run (worked s x) q = h
  commit_in-IsSafe run recorded q = h

  fail_in-IsSafe :
      (error : String) (run : Active) (phase : Phase) → IsSafe (fail_in p agent error run phase)
  unfolding fail_in
  fail_in-IsSafe error run executing =
      put_run-IsSafe_same p agent (record run { phase = worked "failed" (some error); writes = [] })
        [] h tt
  fail_in-IsSafe error run (worked s x) = h
  fail_in-IsSafe error run recorded = h

  record_in-IsSafe :
      (run : Active) (phase : Phase)
      → Queued p.committed phase run.writes events
      → IsSafe (record_in p agent run phase)
  unfolding record_in
  record_in-IsSafe run executing q = h
  record_in-IsSafe run (worked status x) q =
      put_run-IsSafe_same (record p { rows = _ }) agent (record run { phase = recorded })
        (events ++ agent_run agent run.run_type status ∷ [])
        (same-IsSafe p (record p { rows = _ }) refl refl refl refl h)
        (All-snoc (IsOf p.committed) events (agent_run agent run.run_type status) q tt)
  record_in-IsSafe run recorded q = h

  lose_in-IsSafe : (run : Active) (phase : Phase) → IsSafe (lose_in p agent run phase)
  unfolding lose_in
  lose_in-IsSafe run executing = h
  lose_in-IsSafe run (worked s x) = record {
    announced = h.announced;
    queued = λ other.
        erase-RunIsSafe agent other p.committed p.active (queue_of (lookup other p.pending))
          (h.queued other);
  }
  lose_in-IsSafe run recorded = h

  flush_in-IsSafe :
      (run : Active) (phase : Phase)
      → Queued p.committed phase run.writes events
      → IsSafe (flush_in p agent run phase)
  unfolding flush_in
  flush_in-IsSafe run executing q = h
  flush_in-IsSafe run (worked s x) q = h
  flush_in-IsSafe run recorded q = record {
    announced = All-append (IsOf p.committed) p.published events h.announced q;
    queued =
        λ other. erase_both-RunIsSafe agent other p.committed p.active p.pending (h.queued other);
  }

  begin_run-IsSafe :
      (run_type : String) (run : Option Active) → IsSafe (begin_run p agent run_type run)
  unfolding begin_run
  begin_run-IsSafe run_type none =
      put_run-IsSafe_same (record p { rows = _; next_run = p.next_run + 1 }) agent _ []
        (same-IsSafe p (record p { rows = _; next_run = p.next_run + 1 }) refl refl refl refl h) tt
  begin_run-IsSafe run_type (some run) = h

  -- An action on the run that holds the lock keeps the invariant if its handler does.
  of_run-IsSafe :
      (f : Active → Phase → Process)
      → ((run : Active) → Queued p.committed run.phase run.writes events → IsSafe (f run run.phase))
      → IsSafe (of_run p f (lookup agent p.active))
  of_run-IsSafe f keeps = split (lookup agent p.active) (h.queued agent)
    where
      split : (run : Option Active) → RunIsSafe p.committed run events → IsSafe (of_run p f run)
      split none q = h
      split (some run) q = keeps run q

step-IsSafe : (p : Process) (a : Action) → IsSafe p → IsSafe (step p a)
unfolding step lookup
step-IsSafe p (begin agent run_type) h = begin_run-IsSafe p agent h run_type (lookup agent p.active)
step-IsSafe p (raise_alert agent severity title) h =
    of_run-IsSafe p agent h (raise_in p agent severity title)
      (λ run q. raise_in-IsSafe p agent h severity title run run.phase q refl)
step-IsSafe p (resolve_alerts agent pattern_text n) h =
    of_run-IsSafe p agent h (resolve_in p agent pattern_text n)
      (λ run q. resolve_in-IsSafe p agent h pattern_text n run run.phase q refl)
step-IsSafe p (commit agent) h =
    of_run-IsSafe p agent h (commit_in p agent)
      (λ run q. commit_in-IsSafe p agent h run run.phase q)
step-IsSafe p (fail agent error) h =
    of_run-IsSafe p agent h (fail_in p agent error)
      (λ run q. fail_in-IsSafe p agent h error run run.phase)
step-IsSafe p (record_outcome agent) h =
    of_run-IsSafe p agent h (record_in p agent)
      (λ run q. record_in-IsSafe p agent h run run.phase q)
step-IsSafe p (outcome_lost agent) h =
    of_run-IsSafe p agent h (lose_in p agent) (λ run q. lose_in-IsSafe p agent h run run.phase)
step-IsSafe p (flush agent) h =
    of_run-IsSafe p agent h (flush_in p agent) (λ run q. flush_in-IsSafe p agent h run run.phase q)
step-IsSafe p (die successor) h = record { announced = h.announced; queued = λ agent. tt }
step-IsSafe p close_abandoned h = record { announced = h.announced; queued = h.queued }

run_all-IsSafe : (actions : List Action) (p : Process) → IsSafe p → IsSafe (run_all p actions)
unfolding run_all
run_all-IsSafe [] p h = h
run_all-IsSafe (a ∷ actions) p h = run_all-IsSafe actions (step p a) (step-IsSafe p a h)

-- However the runs of the agents interleave, fail, are lost or are cut off by the death of the
-- process, every alert that was announced on the bus is a committed one.
pub run_all_announces :
    (process : String) (actions : List Action)
    → let p = run_all (started process) actions in All (IsOf p.committed) p.published
unfolding started lookup
run_all_announces process actions =
    (run_all-IsSafe actions (started process)
      (record { announced = tt; queued = λ agent. tt })).announced
