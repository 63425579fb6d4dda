-- ===== src/Tests/Runs.antt =====
-- Two agents whose runs interleave, one of them cut off, and a client of the event stream.
use sysadmin_assistant.Shared.{
  ◌≡◌, refl, String, true, false, List, [], ◌∷◌, All, any, if◌then◌else◌, str_eq, arith,
}
use sysadmin_assistant.Runs.{
  Action, begin, raise_alert, commit, record_outcome, flush, die, close_abandoned, RunRow, run_all,
  started,
}
use sysadmin_assistant.Runs.Events.{run_all_announces}
use sysadmin_assistant.Runs.Events.Invariant.{IsOf}
use sysadmin_assistant.Stream.{
  Event, Queue, EventBroadcaster, EventBus, other, dispatch, streamed_events, attach, publish,
}
use sysadmin_assistant.Stream.Queues.{put_all, last_of, put_all-last}
use sysadmin_assistant.Stream.Delivery.{attach-publish}

abbrev actions : List Action
actions =
    begin "sysadmin" "scheduled"
    ∷ begin "log_aggregator" "manual"
    ∷ raise_alert "sysadmin" "critical" "disk full"
    ∷ raise_alert "log_aggregator" "warning" "noise"
    ∷ commit "sysadmin"
    ∷ record_outcome "sysadmin"
    ∷ flush "sysadmin"
    ∷ die "second"
    ∷ close_abandoned
    ∷ []

run_all_announces_example :
    All
      (IsOf (run_all (started "first") actions).committed)
      (run_all (started "first") actions).published
run_all_announces_example = run_all_announces "first" actions

abbrev rows : List RunRow
rows = (run_all (started "first") actions).rows

abbrev event : String → Event
event payload = record { type = "alert.raised"; payload = payload; ts = "noon" }

abbrev queue : Queue
queue = record { id = 0; max_size = 2; items = event "a" ∷ [] }

put_all-last_example :
    put_all (event "b" ∷ event "c" ∷ []) queue
    ≡ record queue { items = last_of 2 (event "a" ∷ event "b" ∷ event "c" ∷ []) }
put_all-last_example = put_all-last (event "b" ∷ event "c" ∷ []) queue (omega arith) (omega arith)

abbrev broadcaster : EventBroadcaster
broadcaster = record { queues = queue ∷ []; max_queue = 100; attached = false; next_id = 1 }

abbrev bus : EventBus
bus = ("alert.raised", other 3 ∷ []) ∷ []

abbrev joined : EventBroadcaster × EventBus
joined = attach broadcaster bus

attach-publish_example :
    (attach joined.0 joined.1 ≡ joined)
    × (publish joined.1 joined.0 "noon" "alert.raised" "d" ≡ (
        if any (λ u. str_eq u "alert.raised") streamed_events
        then dispatch
            (publish bus (record broadcaster { attached = true }) "noon" "alert.raised" "d")
            (event "d")
        else publish bus (record broadcaster { attached = true }) "noon" "alert.raised" "d"))
attach-publish_example = attach-publish broadcaster bus "noon" "alert.raised" "d" refl
