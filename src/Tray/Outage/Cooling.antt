-- ===== src/Tray/Outage/Cooling.antt =====
-- The flap cooldown of the unreachable backend: what holds after each status poll inside it.
use sysadmin_assistant.Shared.{
  ℕ, ◌+◌, ◌≤◌, ◌<◌, ◌≡◌, refl, ap, ◌∙◌, sym, subst, ◌-◌, ltb, ◌&&◌, if_cases, not, ◌||◌, leb, true,
  false, Option, none, some, List, [], ◌∷◌, arith,
}
use sysadmin_assistant.Shared.Dict.{lookup, insert, lookup-insert_self}
use sysadmin_assistant.Tray.Data.{
  NotificationRequest, NotificationSettings, FingerprintState, NotificationPolicy, Quiet, level_or,
  min_severity_level, fp_backend_unreachable, backend_unreachable_severity,
}
use sysadmin_assistant.Tray.Rules.{alert_snoozed, suppressed_by_dnd}
use sysadmin_assistant.Tray.Speak.{put_state, cooldown, cooling}
use sysadmin_assistant.Tray.Poll.{state_or_new, opened, closed}
use sysadmin_assistant.Tray.Poll.Effects.{alert_snoozed_keeps}
use sysadmin_assistant.Tray.Backend.{
  evaluate_backend_unreachable, backend_statement, backend_reachable,
}
use sysadmin_assistant.Tray.Outage.{status_polls, InWindow, all_silent}

-- An outage of before was announced at `t`, and none since.
pub record Cooling (t : ℕ) (settings : NotificationSettings) (p : NotificationPolicy) : Type 0 where
  pub state : FingerprintState
  pub known : lookup fp_backend_unreachable p.states ≡ some state
  pub named : state.fingerprint ≡ fp_backend_unreachable
  pub fresh : state.notified_this_episode ≡ false
  pub spoke : state.last_notified_at ≡ some t
  pub same : p.settings ≡ settings

pub reachable-Cooling :
    (t : ℕ) (settings : NotificationSettings) (p : NotificationPolicy) (s : FingerprintState)
    → lookup fp_backend_unreachable p.states ≡ some s
    → s.fingerprint ≡ fp_backend_unreachable
    → s.last_notified_at ≡ some t
    → p.settings ≡ settings
    → Cooling t settings (backend_reachable p)
unfolding backend_reachable closed
reachable-Cooling t settings p s known named spoke same =
    rw (backend_reachable, known, spoke)
      (record {
        state = closed s;
        known = lookup-insert_self fp_backend_unreachable (closed s) p.states;
        named = named;
        fresh = refl;
        spoke = spoke;
        same = same;
      })

pub put_state-Cooling :
    (t : ℕ) (settings : NotificationSettings) (p : NotificationPolicy) (s : FingerprintState)
    → s.fingerprint ≡ fp_backend_unreachable
    → s.notified_this_episode ≡ false
    → s.last_notified_at ≡ some t
    → p.settings ≡ settings
    → Cooling t settings (put_state p s)
put_state-Cooling t settings p s named fresh spoke same = record {
  state = s;
  known =
      subst (λ k. lookup fp_backend_unreachable (insert k s p.states) ≡ some s) (sym named)
        (lookup-insert_self fp_backend_unreachable s p.states);
  named = named;
  fresh = fresh;
  spoke = spoke;
  same = same;
}

Cooling-kept :
    (t : ℕ) (settings : NotificationSettings) (p q : NotificationPolicy)
    → Cooling t settings p
    → q.states ≡ p.states
    → q.settings ≡ p.settings
    → Cooling t settings q
Cooling-kept t settings p q h states same = record {
  state = h.state;
  known = ap (lookup fp_backend_unreachable) states ∙ h.known;
  named = h.named;
  fresh = h.fresh;
  spoke = h.spoke;
  same = same ∙ h.same;
}

-- Inside the cooldown the new episode is counted as suppressed.
statement_cooling :
    (p : NotificationPolicy) (s : FingerprintState) (age now t : ℕ)
    → s.notified_this_episode ≡ false
    → s.last_notified_at ≡ some t
    → t ≤ now
    → now < t + cooldown p.settings
    → backend_statement p s age now
      ≡ (put_state p (record s { suppressed_episodes = s.suppressed_episodes + 1 }), none)
unfolding backend_statement cooling
statement_cooling p s age now t fresh last after before =
    let young : (ltb 0 (cooldown p.settings) && ltb (now - t) (cooldown p.settings)) ≡ true =
      ground arith in
    rw (fresh, last, young) refl

-- Such a poll of the backend says nothing and leaves the cooldown running.
abbrev Quietly : ℕ → NotificationSettings → NotificationPolicy × Option NotificationRequest → Type 0
Quietly t settings out = Cooling t settings out.0 × (out.1 ≡ none)

statement-Cooling :
    (t : ℕ) (settings : NotificationSettings) (p : NotificationPolicy) (s : FingerprintState)
    (age now : ℕ)
    → t ≤ now
    → now < t + cooldown settings
    → s.fingerprint ≡ fp_backend_unreachable
    → s.notified_this_episode ≡ false
    → s.last_notified_at ≡ some t
    → p.settings ≡ settings
    → Quietly t settings (backend_statement p s age now)
statement-Cooling t settings p s age now after before named fresh spoke same =
    subst (Quietly t settings)
      (sym (statement_cooling p s age now t fresh spoke after (rw same before)))
      (put_state-Cooling t settings p _ named fresh spoke same, refl)

-- The state that a failed status poll takes up.
abbrev pub taken : NotificationPolicy → FingerprintState
taken p = opened (
    state_or_new (lookup fp_backend_unreachable p.states) fp_backend_unreachable
      backend_unreachable_severity)

-- The ends of `evaluate_backend_unreachable`.
pub evaluate_cases :
    (P : NotificationPolicy × Option NotificationRequest → Type 0) (p : NotificationPolicy)
    (age : ℕ) (quiet : Quiet) (now : ℕ)
    → let q = (alert_snoozed (put_state p (taken p)) fp_backend_unreachable none now).0 in
      P (p, none)
      → P (q, none)
      → P (backend_statement q (taken p) age now)
      → P (evaluate_backend_unreachable p age quiet now)
unfolding evaluate_backend_unreachable
evaluate_cases P p age quiet now kept held spoken =
    let (q, snoozed) = alert_snoozed (put_state p (taken p)) fp_backend_unreachable none now in
    let grace = p.settings.backend_unreachable_grace_seconds in
    if_cases P (not p.settings.enabled || leb grace 0) kept (
      if_cases P (ltb age grace) kept (
        if_cases P (ltb (level_or 0 backend_unreachable_severity) (min_severity_level p.settings))
          kept
          (if_cases P snoozed held (
            if_cases P (suppressed_by_dnd q.settings backend_unreachable_severity quiet) held
              spoken))))

evaluate-Cooling :
    (t : ℕ) (settings : NotificationSettings) (p : NotificationPolicy) (age now : ℕ) (quiet : Quiet)
    → t ≤ now
    → now < t + cooldown settings
    → Cooling t settings p
    → Quietly t settings (evaluate_backend_unreachable p age quiet now)
evaluate-Cooling t settings p age now quiet after before h =
    let out = alert_snoozed (put_state p (taken p)) fp_backend_unreachable none now in
    let (states, kept) =
      alert_snoozed_keeps (put_state p (taken p)) fp_backend_unreachable none now in
    let same : taken p ≡ opened h.state =
      ap (λ o. opened (state_or_new o fp_backend_unreachable backend_unreachable_severity))
        h.known in
    let named = ap (λ s. s.fingerprint) same ∙ h.named in
    let fresh = ap (λ s. s.notified_this_episode) same ∙ h.fresh in
    let spoke = ap (λ s. s.last_notified_at) same ∙ h.spoke in
    let held = put_state-Cooling t settings p (taken p) named fresh spoke h.same in
    evaluate_cases (Quietly t settings) p age quiet now (h, refl)
      (Cooling-kept t settings (put_state p (taken p)) out.0 held states kept, refl)
      (statement-Cooling t settings out.0 (taken p) age now after before named fresh spoke
        (kept ∙ h.same))

pub status_polls_silent :
    (t : ℕ) (settings : NotificationSettings) (p : NotificationPolicy)
    (polls : List (ℕ × Option (ℕ × Quiet)))
    → Cooling t settings p
    → InWindow t (cooldown settings) polls
    → all_silent (status_polls p polls) ≡ true
unfolding status_polls
status_polls_silent t settings p [] h within = refl
status_polls_silent t settings p ((now, none) ∷ polls) h (after, before, within) =
    status_polls_silent t settings (backend_reachable p) polls
      (reachable-Cooling t settings p h.state h.known h.named h.spoke h.same) within
status_polls_silent t settings p ((now, some (age, quiet)) ∷ polls) h (after, before, within) =
    let (next, silent) = evaluate-Cooling t settings p age now quiet after before h in
    rw silent (
      status_polls_silent t settings (evaluate_backend_unreachable p age quiet now).0 polls next
        within)
