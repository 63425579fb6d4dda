-- ===== src/Runs.antt =====
-- sysadmin/core/agent.py and sysadmin/core/abandoned_runs.py: the runs of the agents of one process,
-- interleaved as its threads interleave them, their rows, and the events that they publish. An action
-- that the code cannot take in a state leaves the state as it is. The database keeps what is
-- committed when a process dies; the sweep is the statement that the next process starts with.
pub mod Events
pub mod Sweep
use sysadmin_assistant.Shared.{
  ℕ, ◌+◌, String, Bool, true, false, not, ◌&&◌, Option, none, some, List, [], ◌∷◌, ◌++◌, map,
  length, keep, ◌==◌, if◌then◌else◌, str_eq,
}
use sysadmin_assistant.Shared.Dict.{Dict, lookup, insert, erase}
use sysadmin_assistant.Jobs.{sorted_set}

-- A row of `agent_runs`; `instance` and `cancelled_by` are of its details.
pub record RunRow : Type 0 where
  pub id : ℕ
  pub agent : String
  pub run_type : String
  pub status : String
  pub instance_id : Option String
  pub cancelled_by : Option String
  pub error : Option String

pub data Event : Type 0 where
  alert_raised : ℕ → String → String → Event
  alert_resolved : String → String → ℕ → Event
  agent_run : String → String → String → Event

-- Where a run is: in `_execute`, behind its transaction (committed or rolled back), or recorded.
pub data Phase : Type 0 where
  executing : Phase
  worked : String → Option String → Phase
  recorded : Phase

-- A run that holds its agent's lock, and the alerts that its open transaction has added.
pub record Active : Type 0 where
  pub run_id : ℕ
  pub run_type : String
  pub phase : Phase
  pub writes : List ℕ

pub record Process : Type 0 where
  pub process_id : String
  pub rows : List RunRow
  pub next_run : ℕ
  pub next_alert : ℕ
  pub committed : List ℕ
  pub active : Dict Active
  pub pending : Dict (List Event)
  pub published : List Event

pub data Action : Type 0 where
  begin : String → String → Action
  raise_alert : String → String → String → Action
  resolve_alerts : String → String → ℕ → Action
  commit : String → Action
  fail : String → String → Action
  record_outcome : String → Action
  outcome_lost : String → Action
  flush : String → Action
  die : String → Action
  close_abandoned : Action

-- `self._pending_events or []`. An event that is raised outside a run is published at once; the agents
-- raise theirs inside runs.
abbrev pub queue_of : Option (List Event) → List Event
queue_of none = []
queue_of (some events) = events

abbrev pub running_status : String
running_status = "running"

abbrev pub cancelled_status : String
cancelled_status = "cancelled"

-- `abandoned_by(instance_id)` and `unattributable()` on one row.
unfoldable pub is_abandoned : String → RunRow → Bool
is_abandoned process row =
    str_eq row.status running_status
    && (elim row.instance_id [ none ↦ false | some i ↦ not (str_eq i process) ])

unfoldable pub is_unattributable : RunRow → Bool
is_unattributable row =
    str_eq row.status running_status && (elim row.instance_id [ none ↦ true | some i ↦ false ])

close_row : String → RunRow → RunRow
unfolding is_abandoned
close_row process row =
    if is_abandoned process row
    then record row { status = cancelled_status; cancelled_by = some "startup_sweep" }
    else row

pub record SweepResult : Type 0 where
  pub closed : ℕ
  pub refused : ℕ
  pub agents : List String

unfoldable pub close_abandoned_runs : String → List RunRow → List RunRow × SweepResult
unfolding close_row
close_abandoned_runs process rows =
    let swept = keep (is_abandoned process) rows in
    (
      map (close_row process) rows,
      record {
        closed = length swept;
        refused = length (keep is_unattributable rows);
        agents = sorted_set (map (λ row. row.agent) swept);
      },
    )

-- `_record_outcome` on the row of a run.
set_outcome : ℕ → String → Option String → RunRow → RunRow
set_outcome id status error row =
    if row.id == id then record row { status = status; error = error } else row

unfoldable pub put_run : Process → String → Active → List Event → List ℕ → Process
put_run p agent run events committed = record p {
  active = insert agent run p.active;
  pending = insert agent events p.pending;
  committed = committed;
}

-- `run` up to the start of `_execute`: declined while the lock is held.
unfoldable pub begin_run : Process → String → String → Option Active → Process
unfolding put_run
begin_run p agent run_type (some run) = p
begin_run p agent run_type none =
    let row : RunRow = record {
      id = p.next_run;
      agent = agent;
      run_type = run_type;
      status = running_status;
      instance_id = some p.process_id;
      cancelled_by = none;
      error = none;
    } in
    let run : Active = record {
      run_id = p.next_run;
      run_type = run_type;
      phase = executing;
      writes = [];
    } in
    put_run (record p { rows = p.rows ++ row ∷ []; next_run = p.next_run + 1 }) agent run []
      p.committed

unfoldable pub raise_in : Process → String → String → String → Active → Phase → Process
unfolding put_run
raise_in p agent severity title run executing =
    put_run (record p { next_alert = p.next_alert + 1 }) agent
      (record run { writes = run.writes ++ p.next_alert ∷ [] })
      (queue_of (lookup agent p.pending) ++ alert_raised p.next_alert severity title ∷ [])
      p.committed
raise_in p agent severity title run (worked status error) = p
raise_in p agent severity title run recorded = p

unfoldable pub resolve_in : Process → String → String → ℕ → Active → Phase → Process
unfolding put_run
resolve_in p agent pattern_text resolved run executing =
    if resolved == 0
    then p
    else put_run p agent run
        (queue_of (lookup agent p.pending) ++ alert_resolved agent pattern_text resolved ∷ [])
        p.committed
resolve_in p agent pattern_text resolved run (worked status error) = p
resolve_in p agent pattern_text resolved run recorded = p

unfoldable pub commit_in : Process → String → Active → Phase → Process
unfolding put_run
commit_in p agent run executing =
    put_run p agent (record run { phase = worked "completed" none; writes = [] })
      (queue_of (lookup agent p.pending)) (p.committed ++ run.writes)
commit_in p agent run (worked status error) = p
commit_in p agent run recorded = p

-- The transaction is rolled back, and the events that describe it are dropped.
unfoldable pub fail_in : Process → String → String → Active → Phase → Process
unfolding put_run
fail_in p agent error run executing =
    put_run p agent (record run { phase = worked "failed" (some error); writes = [] }) []
      p.committed
fail_in p agent error run (worked status e) = p
fail_in p agent error run recorded = p

unfoldable pub record_in : Process → String → Active → Phase → Process
unfolding put_run set_outcome
record_in p agent run executing = p
record_in p agent run (worked status error) =
    put_run (record p { rows = map (set_outcome run.run_id status error) p.rows }) agent
      (record run { phase = recorded })
      (queue_of (lookup agent p.pending) ++ agent_run agent run.run_type status ∷ []) p.committed
record_in p agent run recorded = p

-- `_record_outcome` raises: the lock is released, and the queue is left.
unfoldable pub lose_in : Process → String → Active → Phase → Process
lose_in p agent run (worked status error) = record p { active = erase agent p.active }
lose_in p agent run executing = p
lose_in p agent run recorded = p

unfoldable pub flush_in : Process → String → Active → Phase → Process
flush_in p agent run recorded = record p {
  active = erase agent p.active;
  pending = erase agent p.pending;
  published = p.published ++ queue_of (lookup agent p.pending);
}
flush_in p agent run executing = p
flush_in p agent run (worked status error) = p

-- What an action does to the run that holds the agent's lock.
abbrev pub of_run : Process → (Active → Phase → Process) → Option Active → Process
of_run p f none = p
of_run p f (some run) = f run run.phase

unfoldable pub step : Process → Action → Process
unfolding begin_run raise_in resolve_in commit_in fail_in record_in lose_in flush_in
    close_abandoned_runs
step p (begin agent run_type) = begin_run p agent run_type (lookup agent p.active)
step p (raise_alert agent severity title) =
    of_run p (raise_in p agent severity title) (lookup agent p.active)
step p (resolve_alerts agent pattern_text resolved) =
    of_run p (resolve_in p agent pattern_text resolved) (lookup agent p.active)
step p (commit agent) = of_run p (commit_in p agent) (lookup agent p.active)
step p (fail agent error) = of_run p (fail_in p agent error) (lookup agent p.active)
step p (record_outcome agent) = of_run p (record_in p agent) (lookup agent p.active)
step p (outcome_lost agent) = of_run p (lose_in p agent) (lookup agent p.active)
step p (flush agent) = of_run p (flush_in p agent) (lookup agent p.active)
step p (die successor) = record p { process_id = successor; active = []; pending = [] }
step p close_abandoned = record p { rows = (close_abandoned_runs p.process_id p.rows).0 }

unfoldable pub run_all : Process → List Action → Process
run_all p [] = p
run_all p (a ∷ actions) = run_all (step p a) actions

unfoldable pub started : String → Process
started process = record {
  process_id = process;
  rows = [];
  next_run = 0;
  next_alert = 0;
  committed = [];
  active = [];
  pending = [];
  published = [];
}
