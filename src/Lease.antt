-- ===== src/Lease.antt =====
-- sysadmin/core/gpu_lease.py: the weekly reviews' lease. The arbiter's client, `estate.queue`, is a
-- library: its answer to a request is a parameter. Readings are local times of day in microseconds;
-- `timeout_seconds` of the LLM is in microseconds.
pub mod Budget
use Prim.Native.Char.{code}
use Prim.Native.String
use sysadmin_assistant.Shared.{
  ℕ, ◌+◌, ◌-◌, ◌*◌, ◌/◌, String, Bool, true, false, ◌&&◌, Option, none, some, List, [], ◌∷◌, ltb,
  ◌==◌, if◌then◌else◌, str_eq,
}
use sysadmin_assistant.Escalation.{minute, hour}
use sysadmin_assistant.SelfMonitor.{second}

pub record LeaseConfig : Type 0 where
  pub base_url : String
  pub timeout_seconds : ℕ
  pub briefing_hour : ℕ
  pub briefing_minute : ℕ
  pub review_lease_margin_minutes : ℕ

abbrev pub review_profile : String
review_profile = "sysadmin-review"

-- `HOLD_TIMEOUT_MULTIPLE`, which is 5.0.
abbrev pub hold_timeout_multiple : ℕ
hold_timeout_multiple = 5

-- `url.rstrip("/")`
strip_slashes : String → String
strip_slashes String.[] = ""
strip_slashes (String.◌∷◌ c s) =
    let rest = strip_slashes s in
    if str_eq rest "" && (code c == b'/') then "" else String.◌∷◌ c rest

unfoldable pub arbiter_url : LeaseConfig → String
unfolding strip_slashes
arbiter_url config = strip_slashes config.base_url

unfoldable pub hold_seconds : LeaseConfig → ℕ
hold_seconds config = config.timeout_seconds * hold_timeout_multiple / second

abbrev pub briefing : LeaseConfig → ℕ
briefing config = config.briefing_hour * hour + config.briefing_minute * minute

-- `-` on ℕ stops at 0, where the source's budget is negative and is refused alike.
unfoldable pub wait_budget_seconds : ℕ → LeaseConfig → Option ℕ
wait_budget_seconds now config =
    let margin = config.review_lease_margin_minutes * minute in
    let budget = (briefing config - (margin + now)) / second in
    if ltb 0 budget then some budget else none

pub record LeaseRequest : Type 0 where
  pub profile : String
  pub requester : String
  pub max_hold_seconds : ℕ
  pub wait_seconds : ℕ
  pub base_url : String

-- How `estate.queue.acquire` ends: with a lease, or with one of its three exceptions.
pub data Answer : Type 0 where
  granted : ℕ → Answer
  queue_unavailable acquire_dropped acquire_timeout : Answer

pub data Event : Type 0 where
  review_lease_past_deadline review_queue_unavailable review_lease_dropped review_lease_timeout :
      Event
  review_lease_granted review_lease_released : Event

-- What a dispatch returns, the requests that it sent, and the event that it logged.
pub record Dispatch : Type 0 where
  pub lease_id : Option ℕ
  pub requests : List LeaseRequest
  pub event : Event

answered : LeaseRequest → Answer → Dispatch
answered r (granted id) = record {
  lease_id = some id;
  requests = r ∷ [];
  event = review_lease_granted;
}
answered r queue_unavailable = record {
  lease_id = none;
  requests = r ∷ [];
  event = review_queue_unavailable;
}
answered r acquire_dropped = record {
  lease_id = none;
  requests = r ∷ [];
  event = review_lease_dropped;
}
answered r acquire_timeout = record {
  lease_id = none;
  requests = r ∷ [];
  event = review_lease_timeout;
}

module _ (acquire : LeaseRequest → Answer) where
  unfoldable pub acquire_review_lease : String → ℕ → LeaseConfig → Dispatch
  unfolding answered
  acquire_review_lease requester now config = elim (wait_budget_seconds now config) [
    | none ↦ record { lease_id = none; requests = []; event = review_lease_past_deadline }
    | some budget ↦
        let request : LeaseRequest = record {
          profile = review_profile;
          requester = requester;
          max_hold_seconds = hold_seconds config;
          wait_seconds = budget;
          base_url = arbiter_url config;
        } in
        answered request (acquire request)
  ]
