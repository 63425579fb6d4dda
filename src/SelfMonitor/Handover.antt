-- ===== src/SelfMonitor/Handover.antt =====
-- The two families over one self-report: an agent that is stalled is never also failing, so its
-- alert changes families and is never doubled.
use sysadmin_assistant.Shared.{ℕ, String, ◌≡◌, refl, ap, not, List, [], ◌∷◌, arith, keep}
use sysadmin_assistant.Shared.Dict.{Dict}
use sysadmin_assistant.Shared.Sort.{sort_by}
use sysadmin_assistant.Escalation.{Datetime}
use sysadmin_assistant.Watch.Entry.{Entry, OpenRow}
use sysadmin_assistant.Watch.Failures.{is_failing, alerts_of, evaluate}

module _ (truncate_at_word : String → ℕ → String) where
  alerts_of-stalled :
      (threshold gap : ℕ) (at : Datetime) (rows : Dict OpenRow) (entries : List Entry)
      → alerts_of truncate_at_word threshold gap at rows (keep (λ e. not e.stalled) entries)
        ≡ alerts_of truncate_at_word threshold gap at rows entries
  unfolding alerts_of is_failing
  alerts_of-stalled threshold gap at rows [] = refl
  alerts_of-stalled threshold gap at rows (e ∷ entries) =
      ground (arith, alerts_of-stalled threshold gap at rows entries)

  -- The failure family says the same with the stalled entries taken out of the report: those are the
  -- stall family's alone.
  pub evaluate_ignores_stalled :
      (entries : List Entry) (rows : Dict OpenRow) (threshold gap : ℕ) (now : Datetime)
      → evaluate truncate_at_word (keep (λ e. not e.stalled) entries) rows threshold gap now
        ≡ evaluate truncate_at_word entries rows threshold gap now
  unfolding evaluate
  evaluate_ignores_stalled entries rows threshold gap now =
      ap (sort_by _) (alerts_of-stalled threshold gap now rows entries)
