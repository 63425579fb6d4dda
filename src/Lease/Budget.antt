-- ===== src/Lease/Budget.antt =====
-- What a review's dispatch promises of its lease.
use sysadmin_assistant.Shared.{
  ℕ, ◌+◌, ◌*◌, ◌≤◌, ◌<◌, String, ◌≡◌, refl, ◌⊎◌, inl, inr, Option, none, some, [], ◌∷◌, arith,
  Option-cases,
}
use sysadmin_assistant.Escalation.{minute}
use sysadmin_assistant.SelfMonitor.{second}
use sysadmin_assistant.Lease.{
  LeaseConfig, review_profile, hold_seconds, arbiter_url, briefing, wait_budget_seconds,
  LeaseRequest, Answer, granted, queue_unavailable, acquire_dropped, acquire_timeout, Event,
  review_lease_past_deadline, review_queue_unavailable, review_lease_dropped, review_lease_timeout,
  review_lease_granted, answered, acquire_review_lease,
}

-- A budget is at least a second, ends no later than the margin before the briefing, and wastes less
-- than a second of the time up to there.
pub wait_budget_deadline :
    (now : ℕ) (config : LeaseConfig) (budget : ℕ)
    → wait_budget_seconds now config ≡ some budget
    → let margin = config.review_lease_margin_minutes * minute in
      (1 ≤ budget)
      × (now + budget * second + margin ≤ briefing config)
      × (briefing config < now + (budget + 1) * second + margin)
unfolding wait_budget_seconds
wait_budget_deadline now config budget e = ground arith

-- The event of a refused request, which tells the three refusals apart.
abbrev refusal : Answer → Event
refusal (granted id) = review_lease_granted
refusal queue_unavailable = review_queue_unavailable
refusal acquire_dropped = review_lease_dropped
refusal acquire_timeout = review_lease_timeout

abbrev lease_of : Answer → Option ℕ
lease_of (granted id) = some id
lease_of _ = none

answered_lem :
    (r : LeaseRequest) (a : Answer)
    → answered r a ≡ record { lease_id = lease_of a; requests = r ∷ []; event = refusal a }
unfolding answered
answered_lem r (granted id) = refl
answered_lem r queue_unavailable = refl
answered_lem r acquire_dropped = refl
answered_lem r acquire_timeout = refl

-- Past the deadline a dispatch sends no request, yields no lease and logs that. Otherwise it sends
-- one request, for the whole budget, and its lease and its event are those of the answer: each of the
-- three refusals yields no lease and has an event of its own.
acquire_review_lease_cases :
    (acquire : LeaseRequest → Answer) (requester : String) (now : ℕ) (config : LeaseConfig)
    → let d = acquire_review_lease acquire requester now config in
      ((wait_budget_seconds now config ≡ none)
        × (d ≡ record { lease_id = none; requests = []; event = review_lease_past_deadline }))
      ⊎ ((r : LeaseRequest) × (wait_budget_seconds now config ≡ some r.wait_seconds)
          × (r.max_hold_seconds ≡ hold_seconds config)
          × (d ≡ record {
            lease_id = lease_of (acquire r);
            requests = r ∷ [];
            event = refusal (acquire r);
          }))
unfolding acquire_review_lease
acquire_review_lease_cases acquire requester now config =
    elim (Option-cases (wait_budget_seconds now config)) [
      | inl past ↦ inl (past, rw (past, acquire_review_lease))
      | inr (budget, open_still) ↦
          let r : LeaseRequest = record {
            profile = review_profile;
            requester = requester;
            max_hold_seconds = hold_seconds config;
            wait_seconds = budget;
            base_url = arbiter_url config;
          } in
          inr (
            r,
            open_still,
            refl,
            rw (open_still, acquire_review_lease) (answered_lem r (acquire r)),
          )
    ]
