-- ===== src/Tray/Repeats/Reminders.antt =====
-- How far apart the reminders of one fingerprint are from all that is said of it.
use sysadmin_assistant.Shared.{
  ℕ, ◌+◌, ◌*◌, ◌≤◌, ◌≡◌, refl, ap, is_some, Bool, true, false, ◌&&◌, ◌||◌, not, Option, none, some,
  List, [], ◌∷◌, arith, ltb, leb, if◌then◌else◌, inl, inr, Option-cases, Bool-cases, sym, subst,
}
use sysadmin_assistant.Tray.Data.{
  AlertInfo, NotificationRequest, NotificationSettings, FingerprintState, new_state,
}
use sysadmin_assistant.Tray.Speak.{
  cooldown, first_notification, maybe_escalate, reminder_due, remind, speak,
}
use sysadmin_assistant.Tray.Calm.Opening.{speak_said}
use sysadmin_assistant.Tray.Poll.{opened, closed, is_warm}

-- What a poll does with the state of a fingerprint. Its alert is in the poll and may speak or is held
-- back, or it is not in the poll: the episode ends, and the state goes with it if nothing of it is left
-- to remember.
unfoldable pub heard :
    NotificationSettings
    → FingerprintState
    → ℕ
    → Option (AlertInfo × Bool)
    → FingerprintState × Option NotificationRequest
heard settings s now none = (
  if is_warm (cooldown settings) now s then closed s else new_state s.fingerprint s.severity,
  none,
)
heard settings s now (some (alert, may_speak)) =
    if may_speak then speak settings alert (opened s) now (not s.episode_open) else (opened s, none)

abbrev pub noted :
    ℕ → Option NotificationRequest → List (ℕ × NotificationRequest) → List (ℕ × NotificationRequest)
noted now none rest = rest
noted now (some r) rest = (now, r) ∷ rest

-- All that is said over a sequence of polls, with the reading at which it is said.
unfoldable pub told :
    NotificationSettings
    → FingerprintState
    → List (ℕ × Option (AlertInfo × Bool))
    → List (ℕ × NotificationRequest)
unfolding heard
told settings s [] = []
told settings s ((now, turn) ∷ turns) =
    let (next, said) = heard settings s now turn in noted now said (told settings next turns)

-- The polls come at readings that do not go back, the first of them not before the given one.
abbrev pub Ordered : ℕ → List (ℕ × Option (AlertInfo × Bool)) → Type 0
Ordered t [] = Unit
Ordered t ((now, turn) ∷ turns) = (t ≤ now) × Ordered now turns

both : {a b : Bool} → a ≡ true → b ≡ true → (a && b) ≡ true
both h k = ground (arith, h, k)

module _ (settings : NotificationSettings) where
  -- If it is a reminder, reminders are on and the interval has passed since the given reading.
  abbrev pub respects : ℕ → ℕ × NotificationRequest → Bool
  respects t (now, r) =
      not r.reminder
      || (ltb 0 settings.reminder_hours && leb (t + settings.reminder_hours * 3600) now)

  abbrev pub all_respect : ℕ → List (ℕ × NotificationRequest) → Bool
  all_respect t [] = true
  all_respect t (said ∷ rest) = respects t said && all_respect t rest

  -- Does each keep the interval to all that is said before it?
  abbrev pub spaced : List (ℕ × NotificationRequest) → Bool
  spaced [] = true
  spaced ((t, r) ∷ rest) = all_respect t rest && spaced rest

  -- Nothing is known of an earlier statement than at `t`.
  abbrev NotBefore : ℕ → Option ℕ → Type 0
  NotBefore t none = Unit
  NotBefore t (some last) = t ≤ last

  speak_silent :
      (alert : AlertInfo) (s : FingerprintState) (now : ℕ) (first : Bool)
      → (speak settings alert s now first).1 ≡ none
      → (speak settings alert s now first).0.last_notified_at ≡ s.last_notified_at
  unfolding speak maybe_escalate remind first_notification
  speak_silent alert s now first e = ground (arith, e)

  -- A reminder is due.
  speak_reminds :
      (alert : AlertInfo) (s : FingerprintState) (now : ℕ) (first : Bool) (r : NotificationRequest)
      → (speak settings alert s now first).1 ≡ some r
      → r.reminder ≡ true
      → reminder_due settings s now ≡ true
  unfolding speak maybe_escalate remind first_notification
  speak_reminds alert s now first r e repeats = ground (arith, e, repeats)

  due_respects :
      (s : FingerprintState) (t now : ℕ) (r : NotificationRequest)
      → NotBefore t s.last_notified_at
      → reminder_due settings s now ≡ true
      → respects t (now, r) ≡ true
  unfolding reminder_due
  due_respects s t now r h due = elim (Option-cases s.last_notified_at) [
    | inl never ↦ absurd (ground (arith, never, due))
    | inr (last, spoke) ↦ ground (arith, spoke, due, h)
  ]

  speak-respects :
      (alert : AlertInfo) (s : FingerprintState) (t now : ℕ) (first : Bool)
      (r : NotificationRequest)
      → NotBefore t s.last_notified_at
      → (speak settings alert s now first).1 ≡ some r
      → respects t (now, r) ≡ true
  speak-respects alert s t now first r h e = elim (Bool-cases r.reminder) [
    | inl repeats ↦ due_respects s t now r h (speak_reminds alert s now first r e repeats)
    | inr new ↦ rw new refl
  ]

  -- What one poll says keeps the interval to `t`, and is the last thing said by then; a silent poll
  -- keeps or forgets what was said.
  heard_silent :
      (s : FingerprintState) (t now : ℕ) (turn : Option (AlertInfo × Bool))
      → NotBefore t s.last_notified_at
      → (heard settings s now turn).1 ≡ none
      → NotBefore t (heard settings s now turn).0.last_notified_at
  unfolding heard closed new_state
  heard_silent s t now none h e = ground (arith, h)
  heard_silent s t now (some (alert, false)) h e = h
  heard_silent s t now (some (alert, true)) h e =
      subst (NotBefore t) (sym (speak_silent alert (opened s) now (not s.episode_open) e)) h

  heard_said :
      (s : FingerprintState) (now : ℕ) (turn : Option (AlertInfo × Bool)) (r : NotificationRequest)
      → (heard settings s now turn).1 ≡ some r
      → (heard settings s now turn).0.last_notified_at ≡ some now
  unfolding heard
  heard_said s now none r e = cc
  heard_said s now (some (alert, false)) r e = cc
  heard_said s now (some (alert, true)) r e =
      speak_said settings alert (opened s) now (not s.episode_open) (ap is_some e)

  heard-respects :
      (s : FingerprintState) (t now : ℕ) (turn : Option (AlertInfo × Bool))
      (r : NotificationRequest)
      → NotBefore t s.last_notified_at
      → (heard settings s now turn).1 ≡ some r
      → respects t (now, r) ≡ true
  unfolding heard
  heard-respects s t now none r h e = cc
  heard-respects s t now (some (alert, false)) r h e = cc
  heard-respects s t now (some (alert, true)) r h e =
      speak-respects alert (opened s) t now (not s.episode_open) r h e

  told_respects :
      (s : FingerprintState) (t at : ℕ) (turns : List (ℕ × Option (AlertInfo × Bool)))
      → t ≤ at
      → Ordered at turns
      → NotBefore t s.last_notified_at
      → all_respect t (told settings s turns) ≡ true
  unfolding told
  told_respects s t at [] start ordered h = refl
  told_respects s t at ((now, turn) ∷ turns) start (after, ordered) h =
      elim (Option-cases (heard settings s now turn).1) [
        | inl silent ↦ rw silent (
            told_respects (heard settings s now turn).0 t now turns (omega arith) ordered
              (heard_silent s t now turn h silent))
        | inr (r, said) ↦
            let known = subst (NotBefore t) (sym (heard_said s now turn r said)) (omega arith) in
            let later =
              told_respects (heard settings s now turn).0 t now turns (omega arith) ordered known in
            rw said (both (heard-respects s t now turn r h said) later)
      ]

  -- Whatever becomes of a fingerprint over any polls whose readings do not go back (its alert comes and
  -- goes, in any form, and may speak or is held back), a reminder comes only with reminders on, and the
  -- reminder interval or more after everything said of the fingerprint before it: openings,
  -- escalations and other reminders.
  pub reminders_apart :
      (s : FingerprintState) (t : ℕ) (turns : List (ℕ × Option (AlertInfo × Bool)))
      → Ordered t turns
      → spaced (told settings s turns) ≡ true
  unfolding told
  reminders_apart s t [] ordered = refl
  reminders_apart s t ((now, turn) ∷ turns) (after, ordered) =
      let next = (heard settings s now turn).0 in
      elim (Option-cases (heard settings s now turn).1) [
        | inl silent ↦ rw silent (reminders_apart next now turns ordered)
        | inr (r, said) ↦
            let known = subst (NotBefore now) (sym (heard_said s now turn r said)) (omega arith) in
            rw said (
              both (told_respects next now now turns (omega arith) ordered known)
                (reminders_apart next now turns ordered))
      ]
