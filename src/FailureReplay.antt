-- ===== src/FailureReplay.antt =====
-- sysadmin/core/failure_replay.py: announcing the units that failed while nobody listened. What the
-- guard script does, how the clock reads and which announcements land are parameters, each by the
-- number of times that it was asked before. Clock readings, the budget and the poll interval are
-- microseconds. A return code below zero, of a killed script, is its signal.
pub mod Waiting
pub mod Codes
use sysadmin_assistant.Shared.{
  ℕ, zero, suc, ◌+◌, ◌-◌, String, Bool, true, false, ◌&&◌, ◌||◌, not, Option, none, some, List, [],
  ◌∷◌, length, map, ltb, ◌==◌, if◌then◌else◌,
}
use sysadmin_assistant.Shared.Text.{concat, join, show, is_empty, lstrip, rstrip}
use sysadmin_assistant.Escalation.{Datetime, hours_since, humanise_hours}

abbrev pub max_spoken : ℕ
max_spoken = 3

abbrev pub server_present : ℕ
server_present = 0

abbrev pub nobody_listening : ℕ
nobody_listening = 1

abbrev pub could_not_ask : ℕ
could_not_ask = 2

-- What comes of running the guard: it is no file, running it fails with an error, or it ends with a
-- code or a signal and what it wrote to its two outputs.
pub data Run : Type 0 where
  missing : Run
  raised : String → Run
  exited : ℕ → String → String → Run
  killed : ℕ → String → String → Run

-- `(done.stdout or done.stderr or "").strip()`
said_by : String → String → String
said_by stdout stderr = rstrip (lstrip (if is_empty stdout then stderr else stdout))

unrecognised : String → String → String → ℕ × String
unrecognised code guard said =
    (could_not_ask, concat ("unrecognised verdict " ∷ code ∷ " from " ∷ guard ∷ ": " ∷ said ∷ []))

-- `ask_notification_server`
unfoldable pub ask_notification_server : String → Run → ℕ × String
unfolding said_by unrecognised
ask_notification_server guard missing =
    (could_not_ask, concat ("no notification guard at " ∷ guard ∷ []))
ask_notification_server guard (raised error) =
    (could_not_ask, concat ("could not run " ∷ guard ∷ ": " ∷ error ∷ []))
ask_notification_server guard (exited code stdout stderr) =
    let said = said_by stdout stderr in
    if code == server_present || (code == nobody_listening || code == could_not_ask)
    then (code, said)
    else unrecognised (show code) guard said
ask_notification_server guard (killed signal stdout stderr) =
    unrecognised (concat ("-" ∷ show signal ∷ [])) guard (said_by stdout stderr)

module _ (guard : String) (runs : ℕ → Run) (clock : ℕ → ℕ) where
  -- The loop of `wait_for_notification_server`, after so many questions and with the last answer, on
  -- fuel: the answer, and the number of questions. `none` is out of fuel.
  unfoldable pub wait_from : ℕ → ℕ → ℕ → ℕ × String → Option (Bool × String × ℕ)
  wait_from zero deadline asked (verdict, said) = none
  wait_from (suc fuel) deadline asked (verdict, said) =
      let later =
        wait_from fuel deadline (suc asked) (ask_notification_server guard (runs asked)) in
      if not (verdict == server_present) && ltb (clock asked) deadline
      then later
      else some (verdict == server_present, said, asked)

  -- `wait_for_notification_server`. The clock is read once before the first question, as number 0, and
  -- once behind each question that found nobody.
  unfoldable pub wait_for_notification_server : ℕ → ℕ → Option (Bool × String × ℕ)
  wait_for_notification_server fuel budget =
      wait_from fuel (clock 0 + budget) 1 (ask_notification_server guard (runs 0))

pub record PendingFailure : Type 0 where
  pub unit : String
  pub title : String
  pub message : String
  pub created_at : Datetime

-- `compose`
unfoldable pub compose : PendingFailure → Datetime → String × String
compose pending moment = (
  concat ("STILL FAILED: " ∷ pending.unit ∷ []),
  concat (
      pending.message
      ∷ "\nFailed "
      ∷ humanise_hours (hours_since pending.created_at moment)
      ∷ " ago and has not come back.\n  systemctl status "
      ∷ pending.unit
      ∷ "\n  journalctl -u "
      ∷ pending.unit
      ∷ " -n 50 --no-pager"
      ∷ []),
)

-- `compose_rollup`
unfoldable pub compose_rollup : List PendingFailure → String × String
compose_rollup pending = (
  concat ("STILL FAILED: " ∷ show (length pending) ∷ " units" ∷ []),
  concat (
      join ", " (map (λ p. p.unit) pending)
      ∷ "\nNone has come back since it failed. Monitoring is down.\n  systemctl --failed"
      ∷ []),
)

module _ (moments : ℕ → Datetime) (lands : ℕ → Bool) where
  -- The loop over the failures from the given number on: how many announcements landed, and all of
  -- them.
  unfoldable pub announce_from : ℕ → List PendingFailure → ℕ × List (String × String)
  announce_from number [] = (0, [])
  announce_from number (row ∷ rows) =
      let (landed, announced) = announce_from (suc number) rows in
      (if lands number then suc landed else landed, compose row (moments number) ∷ announced)

  -- What is announced to a server that listens, with the exit code.
  unfoldable pub announce_all : List PendingFailure → ℕ × List (String × String)
  announce_all pending =
      let (landed, announced) = announce_from 0 pending in
      if ltb max_spoken (length pending)
      then (if lands 0 then 0 else 2, compose_rollup pending ∷ [])
      else (if landed == length pending then 0 else 2, announced)

  -- `replay`, once the wait for the server is over: the exit code and the announcements.
  unfoldable pub answer_pending : List PendingFailure → Bool → ℕ × List (String × String)
  answer_pending [] listening = (0, [])
  answer_pending (row ∷ rows) listening = if listening then announce_all (row ∷ rows) else (1, [])

  -- `replay` of the failures that were read, which waits only if there are any; `none` is out of fuel.
  unfoldable pub replay :
      String
      → (ℕ → Run)
      → (ℕ → ℕ)
      → ℕ
      → ℕ
      → List PendingFailure
      → Option (ℕ × List (String × String))
  replay guard runs clock fuel budget [] = some (0, [])
  replay guard runs clock fuel budget (row ∷ rows) =
      elim (wait_for_notification_server guard runs clock fuel budget) [
        | none ↦ none
        | some (listening, said, asked) ↦ some (answer_pending (row ∷ rows) listening)
      ]
