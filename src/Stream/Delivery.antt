-- ===== src/Stream/Delivery.antt =====
-- The broadcaster's handlers on the bus: what a published event comes to once they are attached.
use sysadmin_assistant.Shared.{
  String, ◌≡◌, refl, ap, sym, subst, ◌∙◌, some, true, false, List, [], ◌∷◌, ◌++◌, any, inl, inr,
  if◌then◌else◌, str_eq, str_eq_iff, Bool-cases,
}
use mathlib.Core.List.{append_assoc, append-nil}
use sysadmin_assistant.Shared.Dict.{lookup, lookup-insert}
use sysadmin_assistant.Stream.{
  EventBroadcaster, EventBus, Callback, Callback.on_event, dispatch, callbacks_of, subscribe,
  subscribe_all, streamed_events, attach, call, call_all, publish,
}

-- The handlers that are there for one type of event.
handlers : String → List String → List Callback
handlers t [] = []
handlers t (u ∷ types) =
    let rest = handlers t types in if str_eq u t then on_event u ∷ rest else rest

registered :
    (types : List String) (bus : EventBus) (t : String)
    → callbacks_of (lookup t (subscribe_all types bus))
      ≡ callbacks_of (lookup t bus) ++ handlers t types
unfolding subscribe_all subscribe handlers
registered [] bus t = sym (append-nil (callbacks_of (lookup t bus)))
registered (u ∷ types) bus t =
    let own = callbacks_of (lookup u bus) ++ on_event u ∷ [] in
    let rest = handlers t types in
    registered types (subscribe bus u (on_event u)) t
    ∙ ap (λ found. callbacks_of found ++ handlers t types) (lookup-insert u t own bus)
    ∙ elim (Bool-cases (str_eq u t)) [
      | inl same ↦
          ap (λ c. callbacks_of (if c then some own else lookup t bus) ++ rest) same
          ∙ append_assoc (callbacks_of (lookup u bus)) (on_event u ∷ []) rest
          ∙ ap (λ v. callbacks_of (lookup v bus) ++ on_event u ∷ rest) ((str_eq_iff u t).0 same)
          ∙ sym (
              ap (λ c. callbacks_of (lookup t bus) ++ (if c then on_event u ∷ rest else rest)) same)
      | inr differs ↦
          ap (λ c. callbacks_of (if c then some own else lookup t bus) ++ rest) differs
          ∙ sym (
              ap (λ c. callbacks_of (lookup t bus) ++ (if c then on_event u ∷ rest else rest))
                differs)
    ]

call_all-append :
    (now payload : String) (b : EventBroadcaster) (cs ds : List Callback)
    → call_all now payload b (cs ++ ds) ≡ call_all now payload (call_all now payload b cs) ds
unfolding call_all
call_all-append now payload b [] ds = refl
call_all-append now payload b (c ∷ cs) ds = call_all-append now payload (call now payload b c) cs ds

-- What calling the handlers of one type comes to.
abbrev Served : String → String → EventBroadcaster → String → Type 0
Served now payload b t = call_all now payload b (handlers t streamed_events) ≡ (
    if any (λ u. str_eq u t) streamed_events
    then dispatch b (record { type = t; payload = payload; ts = now })
    else b)

served :
    (now payload : String) (b : EventBroadcaster)
    → Served now payload b "alert.raised"
      × Served now payload b "alert.resolved"
      × Served now payload b "agent.run"
      × Served now payload b "service.status"
unfolding call_all call handlers str_eq
served now payload b = (refl, refl, refl, refl)

-- The streamed types differ, so that an event meets one handler at most.
handlers-Served :
    (now payload : String) (b : EventBroadcaster) (t : String) → Served now payload b t
unfolding call_all call handlers
handlers-Served now payload b t = elim (Bool-cases (str_eq "alert.raised" t)) [
  | inl same ↦ at "alert.raised" same (served now payload b).0
  | inr n1 ↦ elim (Bool-cases (str_eq "alert.resolved" t)) [
    | inl same ↦ at "alert.resolved" same (served now payload b).1
    | inr n2 ↦ elim (Bool-cases (str_eq "agent.run" t)) [
      | inl same ↦ at "agent.run" same (served now payload b).2
      | inr n3 ↦ elim (Bool-cases (str_eq "service.status" t)) [
        | inl same ↦ at "service.status" same (served now payload b).3
        | inr n4 ↦ rw (n1, n2, n3, n4)
      ]
    ]
  ]
]
  where
    at : (u : String) → str_eq u t ≡ true → Served now payload b u → Served now payload b t
    at u same there = subst (Served now payload b) ((str_eq_iff u t).0 same) there

attach_detached :
    (b : EventBroadcaster) (bus : EventBus)
    → b.attached ≡ false
    → attach b bus ≡ (record b { attached = true }, subscribe_all streamed_events bus)
unfolding attach
attach_detached b bus detached =
    ap
      (λ c.
        if c then (b, bus) else (record b { attached = true }, subscribe_all streamed_events bus))
      detached

publish_subscribed :
    (b : EventBroadcaster) (bus : EventBus) (now t payload : String)
    → publish (subscribe_all streamed_events bus) b now t payload ≡ (
        let called = publish bus b now t payload in
        if any (λ u. str_eq u t) streamed_events
        then dispatch called (record { type = t; payload = payload; ts = now })
        else called)
unfolding publish
publish_subscribed b bus now t payload =
    let old = callbacks_of (lookup t bus) in
    ap (call_all now payload b) (registered streamed_events bus t)
    ∙ call_all-append now payload b old (handlers t streamed_events)
    ∙ handlers-Served now payload (call_all now payload b old) t

-- Attaching a broadcaster twice is attaching it once, and an event published after it comes
-- to what it came to before, and then, exactly when its type is a streamed one, to one
-- dispatch to the clients' queues.
pub attach-publish :
    (b : EventBroadcaster) (bus : EventBus) (now t payload : String)
    → b.attached ≡ false
    → (attach (attach b bus).0 (attach b bus).1 ≡ attach b bus)
      × (publish (attach b bus).1 (attach b bus).0 now t payload ≡ (
          let called = publish bus (record b { attached = true }) now t payload in
          if any (λ u. str_eq u t) streamed_events
          then dispatch called (record { type = t; payload = payload; ts = now })
          else called))
unfolding attach
attach-publish b bus now t payload detached =
    let done = attach_detached b bus detached in
    (
      ap (λ r. attach r.0 r.1) done ∙ sym done,
      ap (λ r. publish r.1 r.0 now t payload) done
          ∙ publish_subscribed (record b { attached = true }) bus now t payload,
    )
