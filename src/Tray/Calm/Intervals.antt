-- ===== src/Tray/Calm/Intervals.antt =====
-- The flap cooldown over a history of the tray: two openings of one fingerprint stand apart.
use sysadmin_assistant.Shared.{
  ℕ, ◌+◌, ◌≤◌, ◌<◌, String, ◌≡◌, refl, sym, subst, ◌∙◌, inl, inr, true, false, not, ◌||◌, ltb, leb,
  Option, none, List, [], ◌∷◌, ◌++◌, arith, All, str_eq, str_eq_iff, if_cases, option_cases,
  Option-cases,
}
use sysadmin_assistant.Shared.Dict.{Dict, lookup, lookup-insert, lookup-erase}
use sysadmin_assistant.Tray.Data.{
  AlertInfo, NotificationRequest, NotificationSettings, FingerprintState, NotificationPolicy, Quiet,
  level_or, min_severity_level, fp_coalesced, fp_reminder, fp_backend_unreachable,
  backend_unreachable_severity,
}
use sysadmin_assistant.Tray.Rules.{snooze, alert_snoozed, suppressed_by_dnd}
use sysadmin_assistant.Tray.Speak.{cooldown, put_state, cooling, reminder_due}
use sysadmin_assistant.Tray.Digest.{flush_digest, maybe_flush_digest}
use sysadmin_assistant.Tray.Poll.{
  Gathered, state_or_new, opened, closed, is_warm, close_states, close_inactive, coalesce, finish,
  summarise, evaluate,
}
use sysadmin_assistant.Tray.Poll.Effects.{last_of, Since, alert_snoozed_keeps}
use sysadmin_assistant.Tray.Poll.Keyed.{
  IsKeyed, lookup-IsKeyed, insert_at-IsKeyed, erase-IsKeyed, close_states-IsKeyed,
  state_or_new_named,
}
use sysadmin_assistant.Tray.Backend.{
  backend_statement, evaluate_backend_unreachable, backend_reachable,
}
use sysadmin_assistant.Tray.History.{Call, polls, snoozes, unreachable, reachable, step, run}
use sysadmin_assistant.Tray.Calm.{Held, put_state-Held, Held-states, Since-state, gather-HeldPoll}

close_states-Since :
    (fp : String) (t cool : ℕ) (active : List String) (now : ℕ) (d : Dict FingerprintState)
    → now < t + cool
    → Since t (last_of fp d)
    → Since t (last_of fp (close_states cool active now d))
unfolding close_states closed is_warm lookup
close_states-Since fp t cool active now [] before h = h
close_states-Since fp t cool active now ((k, s) ∷ d) before h =
    ground (arith, close_states-Since fp t cool active now d before)

maybe_flush_digest_keeps :
    (p : NotificationPolicy) (now : ℕ)
    → ((maybe_flush_digest p now).0.states ≡ p.states)
      × ((maybe_flush_digest p now).0.settings ≡ p.settings)
unfolding maybe_flush_digest flush_digest
maybe_flush_digest_keeps p now = ground arith

-- The state taken up for a key is as old as the fingerprint's, if it is its own.
state_or_new-Since :
    (fp key severity : String) (t : ℕ) (d : Dict FingerprintState)
    → IsKeyed d
    → Since t (last_of fp d)
    → str_eq (state_or_new (lookup key d) key severity).fingerprint fp ≡ true
    → Since t (state_or_new (lookup key d) key severity).last_notified_at
state_or_new-Since fp key severity t d keyed h e =
    let named = state_or_new_named key severity d keyed in
    subst (λ k. Since t (state_or_new (lookup k d) k severity).last_notified_at)
      (sym ((str_eq_iff _ fp).0 e) ∙ named) (Since-state fp severity t d h)

backend_reachable-IsKeyed :
    (p : NotificationPolicy) → IsKeyed p.states → IsKeyed (backend_reachable p).states
unfolding backend_reachable closed
backend_reachable-IsKeyed p h = elim (Option-cases (lookup fp_backend_unreachable p.states)) [
  | inl new ↦ rw (new, backend_reachable) h
  | inr (s, old) ↦
      rw (old, backend_reachable)
        (option_cases (λ (q : NotificationPolicy). IsKeyed q.states) s.last_notified_at
          (erase-IsKeyed fp_backend_unreachable p.states h)
          (λ last.
            insert_at-IsKeyed fp_backend_unreachable (closed s) p.states
              (lookup-IsKeyed fp_backend_unreachable s p.states h old) h))
]

module _ (fp : String) (t : ℕ) (settings : NotificationSettings) (now : ℕ) (after : t ≤ now)
    (before : now < t + cooldown settings) where
  abbrev Holds : NotificationPolicy → Type 0
  Holds p = Held fp t settings p

  abbrev After : NotificationPolicy × Option NotificationRequest → Type 0
  After out = Holds out.0

  abbrev AfterPoll : NotificationPolicy × Option (List NotificationRequest) → Type 0
  AfterPoll out = Holds out.0

  close_inactive-Held :
      (p : NotificationPolicy) (active : List String)
      → Holds p
      → Holds (close_inactive p active now)
  unfolding close_inactive
  close_inactive-Held p active h = record {
    since =
        close_states-Since fp t (cooldown p.settings) active now p.states (rw h.same before)
          h.since;
    keyed = close_states-IsKeyed (cooldown p.settings) active now p.states h.keyed;
    same = h.same;
  }

  finish-Held :
      (p : NotificationPolicy) (active : List String) (rs : List NotificationRequest)
      → Holds p
      → Holds (finish p active now rs).0
  unfolding finish
  finish-Held p active rs h =
      let (e, f) = maybe_flush_digest_keeps p now in
      close_inactive-Held (maybe_flush_digest p now).0 active (Held-states fp t settings p _ h e f)

  pub summarise-Held : (g : Gathered) → Holds g.policy → Holds (summarise g now).0
  unfolding summarise
  summarise-Held g h =
      option_cases AfterPoll (coalesce g.policy.settings g.fresh "new alerts" fp_coalesced false) h
        λ fresh.
          option_cases AfterPoll
            (coalesce g.policy.settings g.reminders "alerts still open" fp_reminder true) h
            λ reminders. finish-Held g.policy g.active (fresh ++ (reminders ++ g.requests)) h

  evaluate-Held :
      (p : NotificationPolicy) (alerts : List AlertInfo) (quiet : Quiet)
      → Holds p
      → Holds (evaluate p alerts quiet now).0
  unfolding evaluate
  evaluate-Held p alerts quiet h =
      if_cases AfterPoll (not p.settings.enabled) h
        (summarise-Held _ (gather-HeldPoll fp t settings now after before p alerts quiet h).held)

  backend_statement-Held :
      (p : NotificationPolicy) (s : FingerprintState) (age : ℕ)
      → Holds p
      → (str_eq s.fingerprint fp ≡ true → Since t s.last_notified_at)
      → Holds (backend_statement p s age now).0
  unfolding backend_statement
  backend_statement-Held p s age h spoke =
      if_cases After s.notified_this_episode
        (if_cases After (not (reminder_due p.settings s now)) h
          (put_state-Held fp t settings p _ h (λ e. after)))
        (if_cases After (cooling p.settings s now) (put_state-Held fp t settings p _ h spoke)
          (put_state-Held fp t settings p _ h (λ e. after)))

  backend_unreachable-Held :
      (p : NotificationPolicy) (age : ℕ) (quiet : Quiet)
      → Holds p
      → Holds (evaluate_backend_unreachable p age quiet now).0
  unfolding evaluate_backend_unreachable
  backend_unreachable-Held p age quiet h =
      let s = opened (
        state_or_new (lookup fp_backend_unreachable p.states) fp_backend_unreachable
          backend_unreachable_severity) in
      let spoke = λ (e : str_eq s.fingerprint fp ≡ true).
        state_or_new-Since fp fp_backend_unreachable backend_unreachable_severity t p.states h.keyed
          h.since e in
      let kept = alert_snoozed_keeps (put_state p s) fp_backend_unreachable none now in
      let q = (alert_snoozed (put_state p s) fp_backend_unreachable none now).0 in
      let hq : Holds q =
        Held-states fp t settings (put_state p s) q (put_state-Held fp t settings p s h spoke)
          kept.0 kept.1 in
      let grace = p.settings.backend_unreachable_grace_seconds in
      if_cases After (not p.settings.enabled || leb grace 0) h (
        if_cases After (ltb age grace) h (
          if_cases After
            (ltb (level_or 0 backend_unreachable_severity) (min_severity_level p.settings)) h
            (if_cases After (alert_snoozed (put_state p s) fp_backend_unreachable none now).1 hq (
              if_cases After (suppressed_by_dnd q.settings backend_unreachable_severity quiet) hq
                (backend_statement-Held q s age hq spoke)))))

  backend_reachable-Held : (p : NotificationPolicy) → Holds p → Holds (backend_reachable p)
  unfolding backend_reachable closed
  backend_reachable-Held p h = elim (Option-cases (lookup fp_backend_unreachable p.states)) [
    | inl new ↦ rw (new, backend_reachable) h
    | inr (s, old) ↦ record {
      since = ground (
        arith,
        lookup-insert fp_backend_unreachable fp (closed s) p.states,
        lookup-erase fp_backend_unreachable fp p.states,
        str_eq_iff fp_backend_unreachable fp,
        h.since,
        old,
      );
      keyed = backend_reachable-IsKeyed p h.keyed;
      same = ground (arith, h.same, old);
    }
  ]

  snooze-Held :
      (p : NotificationPolicy) (key : String) (minutes : Option ℕ)
      → Holds p
      → Holds (snooze p key minutes now)
  unfolding snooze
  snooze-Held p key minutes h = Held-states fp t settings p _ h refl refl

  step-Held : (p : NotificationPolicy) (c : Call) → Holds p → Holds (step p (now, c))
  unfolding step
  step-Held p (polls alerts quiet) h = evaluate-Held p alerts quiet h
  step-Held p (snoozes key minutes) h = snooze-Held p key minutes h
  step-Held p (unreachable age quiet) h = backend_unreachable-Held p age quiet h
  step-Held p reachable h = backend_reachable-Held p h

-- Every reading lies in the cooldown that began at `t`.
abbrev pub Within : ℕ → NotificationSettings → List (ℕ × Call) → Type 0
Within t settings = All λ c. (t ≤ c.0) × (c.0 < t + cooldown settings)

pub run-Held :
    (fp : String) (t : ℕ) (settings : NotificationSettings) (p : NotificationPolicy)
    (cs : List (ℕ × Call))
    → Within t settings cs
    → Held fp t settings p
    → Held fp t settings (run p cs)
unfolding run
run-Held fp t settings p [] w h = h
run-Held fp t settings p ((now, c) ∷ cs) w h =
    run-Held fp t settings (step p (now, c)) cs w.1 (step-Held fp t settings now w.0.0 w.0.1 p c h)
