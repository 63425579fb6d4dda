-- ===== src/SelfMonitor/Streak.antt =====
-- The streak of failures at the head of an agent's runs, against an independent reading of it.
use native.Mathlib.Nat.{zero-add}
use sysadmin_assistant.Shared.{
  ℕ, ◌+◌, String, ◌≡◌, refl, ◌∙◌, Bool, not, Option, none, some, List, [], ◌∷◌, arith, keep,
  if◌then◌else◌, str_eq, length,
}
use sysadmin_assistant.Watch.Entry.{no_name}
use sysadmin_assistant.SelfMonitor.{AgentRun, first_error, streak_from, failure_streak}

abbrev pub is_running : AgentRun → Bool
is_running run = str_eq run.status "running"

abbrev pub is_failed : AgentRun → Bool
is_failed run = str_eq run.status "failed"

-- The runs of the list up to the first that did not fail.
abbrev pub failed_prefix : List AgentRun → List AgentRun
failed_prefix [] = []
failed_prefix (run ∷ runs) = if is_failed run then run ∷ failed_prefix runs else []

-- The first error text of the runs.
abbrev pub newest_error : List AgentRun → Option String
newest_error [] = none
newest_error (run ∷ runs) = if no_name run.error then newest_error runs else run.error

first_error-first_error :
    (old new later : Option String)
    → first_error (first_error old new) later ≡ first_error old (if no_name new then later else new)
unfolding no_name
first_error-first_error (some e) new later = refl
first_error-first_error none new later = ground arith

newest_error_kept :
    (runs : List AgentRun) → first_error none (newest_error runs) ≡ newest_error runs
newest_error_kept [] = ground arith
newest_error_kept (run ∷ runs) = ground (arith, newest_error_kept runs)

streak_from-prefix :
    (count : ℕ) (error : Option String) (runs : List AgentRun)
    → let streak = failed_prefix (keep (λ r. not (is_running r)) runs) in
      ((streak_from count error runs).0 ≡ count + length streak)
      × ((streak_from count error runs).1 ≡ first_error error (newest_error streak))
unfolding streak_from
streak_from-prefix count error [] = (omega arith, ground arith)
streak_from-prefix count error (run ∷ runs) = ground (
  arith,
  streak_from-prefix count error runs,
  streak_from-prefix (count + 1) (first_error error run.error) runs,
  first_error-first_error error run.error
      (newest_error (failed_prefix (keep (λ r. not (is_running r)) runs))),
)

-- Passing over the runs still in flight, the streak is the run of failures at the head: its count is
-- their number, and its error is the first text that one of them recorded.
pub failure_streak_prefix :
    (runs : List AgentRun)
    → let streak = failed_prefix (keep (λ r. not (is_running r)) runs) in
      ((failure_streak runs).0 ≡ length streak) × ((failure_streak runs).1 ≡ newest_error streak)
unfolding failure_streak
failure_streak_prefix runs =
    let streak = failed_prefix (keep (λ r. not (is_running r)) runs) in
    let h = streak_from-prefix 0 none runs in
    (h.0 ∙ zero-add (length streak), h.1 ∙ newest_error_kept streak)
