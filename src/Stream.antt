-- ===== src/Stream.antt =====
-- sysadmin/core/event_bus.py and sysadmin/monitor/sse.py: the bus, and the broadcaster that hands its
-- events to the clients' bounded queues. A queue is known by a number; a callback is the
-- broadcaster's handler of one event type, or another component's, known by a number, which may
-- raise. An event's data is the text of its JSON dump,
-- which is the library's, and `now` is the reading of the clock.
pub mod Queues
pub mod Delivery
use sysadmin_assistant.Shared.{
  ℕ, ◌+◌, String, Bool, true, false, not, ◌&&◌, Option, none, some, List, [], ◌∷◌, ◌++◌, any,
  length, leb, ◌==◌, if◌then◌else◌, str_eq,
}
use sysadmin_assistant.Shared.Dict.{Dict, lookup, insert}
use sysadmin_assistant.Shared.Text.{concat, join, show}

pub record Event : Type 0 where
  pub type : String
  pub payload : String
  pub ts : String

-- `asyncio.Queue`: one with no bound has the size 0.
pub record Queue : Type 0 where
  pub id : ℕ
  pub max_size : ℕ
  pub items : List Event

unfoldable pub full : Queue → Bool
full q = if q.max_size == 0 then false else leb q.max_size (length q.items)

abbrev pub without_first : List Event → List Event
without_first [] = []
without_first (e ∷ es) = es

-- One queue in `dispatch`: the oldest event makes room in a full one.
unfoldable pub put_event : Event → Queue → Queue
unfolding full
put_event event q =
    let room = if full q then record q { items = without_first q.items } else q in
    if full room then room else record room { items = room.items ++ event ∷ [] }

pub record EventBroadcaster : Type 0 where
  pub queues : List Queue
  pub max_queue : ℕ
  pub attached : Bool
  pub next_id : ℕ

unfoldable pub dispatch_to : Event → List Queue → List Queue
unfolding put_event
dispatch_to event [] = []
dispatch_to event (q ∷ queues) = put_event event q ∷ dispatch_to event queues

unfoldable pub dispatch : EventBroadcaster → Event → EventBroadcaster
unfolding dispatch_to
dispatch b event = record b { queues = dispatch_to event b.queues }

-- `max_queue or self._max_queue`
unfoldable pub bound_or : Option ℕ → ℕ → ℕ
bound_or none default = default
bound_or (some n) default = if n == 0 then default else n

-- `subscribe` up to its `yield`, and its `finally`.
unfoldable pub open_queue : EventBroadcaster → Option ℕ → EventBroadcaster
unfolding bound_or
open_queue b max_queue = record b {
  queues =
      b.queues
      ++ record { id = b.next_id; max_size = bound_or max_queue b.max_queue; items = [] } ∷ [];
  next_id = b.next_id + 1;
}

unfoldable pub discard : ℕ → List Queue → List Queue
discard id [] = []
discard id (q ∷ queues) = let rest = discard id queues in if q.id == id then rest else q ∷ rest

unfoldable pub close_queue : EventBroadcaster → ℕ → EventBroadcaster
unfolding discard
close_queue b id = record b { queues = discard id b.queues }

pub data Callback : Type 0 where
  on_event : String → Callback
  other : ℕ → Callback

-- The bus: the callbacks of each event type.
abbrev pub EventBus : Type 0
EventBus = Dict (List Callback)

abbrev pub callbacks_of : Option (List Callback) → List Callback
callbacks_of none = []
callbacks_of (some cs) = cs

unfoldable pub subscribe : EventBus → String → Callback → EventBus
subscribe bus event_type callback =
    insert event_type (callbacks_of (lookup event_type bus) ++ callback ∷ []) bus

abbrev pub streamed_events : List String
streamed_events = "alert.raised" ∷ "alert.resolved" ∷ "agent.run" ∷ "service.status" ∷ []

unfoldable pub subscribe_all : List String → EventBus → EventBus
unfolding subscribe
subscribe_all [] bus = bus
subscribe_all (t ∷ types) bus = subscribe_all types (subscribe bus t (on_event t))

-- `attach`, to the one bus of the process.
unfoldable pub attach : EventBroadcaster → EventBus → EventBroadcaster × EventBus
unfolding subscribe_all
attach b bus =
    if b.attached
    then (b, bus)
    else (record b { attached = true }, subscribe_all streamed_events bus)

-- A callback of `publish`; one that raises is logged, and the next is called all the same.
unfoldable pub call : String → String → EventBroadcaster → Callback → EventBroadcaster
unfolding dispatch
call now payload b (on_event event_type) =
    dispatch b (record { type = event_type; payload = payload; ts = now })
call now payload b (other n) = b

unfoldable pub call_all : String → String → EventBroadcaster → List Callback → EventBroadcaster
unfolding call
call_all now payload b [] = b
call_all now payload b (c ∷ cs) = call_all now payload (call now payload b c) cs

unfoldable pub publish : EventBus → EventBroadcaster → String → String → String → EventBroadcaster
unfolding call_all
publish bus b now event_type payload = call_all now payload b (callbacks_of (lookup event_type bus))

retry_line : Option ℕ → List String
retry_line none = []
retry_line (some ms) = concat ("retry: " ∷ show ms ∷ []) ∷ []

-- `format_sse`, of data already dumped.
unfoldable pub format_sse : String → String → Option ℕ → String
unfolding retry_line
format_sse event_type payload retry_ms = concat (
    join "\n" (
      retry_line retry_ms
      ++ concat ("event: " ∷ event_type ∷ []) ∷ concat ("data: " ∷ payload ∷ []) ∷ [])
    ∷ "\n\n"
    ∷ [])
