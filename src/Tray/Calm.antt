-- ===== src/Tray/Calm.antt =====
-- The flap cooldown over a whole history: how far apart two openings of one fingerprint are.
pub mod Intervals
pub mod Opening
pub mod Cooldown
use sysadmin_assistant.Shared.{
  ℕ, ◌+◌, ◌-◌, ◌*◌, ◌≤◌, ◌<◌, String, ◌≡◌, refl, sym, subst, ◌∙◌, ◌⊎◌, inl, inr, Bool, true, false,
  not, Option, none, some, List, [], ◌∷◌, ◌++◌, arith, any, if◌then◌else◌, str_eq, str_eq_iff,
  Bool-cases, Option-cases,
}
use sysadmin_assistant.Shared.Dict.{Dict, lookup, insert, erase, lookup-insert, lookup-erase}
use sysadmin_assistant.Tray.Data.{
  AlertInfo, NotificationRequest, NotificationSettings, FingerprintState, NotificationPolicy, Quiet,
  fingerprint_of,
}
use sysadmin_assistant.Tray.Speak.{cooldown, put_state, speak, consider}
use sysadmin_assistant.Tray.Poll.{
  Gathered, state_or_new, opened, sort_request, gather_state, gather_new, gather,
}
use sysadmin_assistant.Tray.Poll.Effects.{
  last_of, Since, Names, IsNotFresh, Considered, consider-Considered, speak-Names, speak_in_window,
}
use sysadmin_assistant.Tray.Poll.Keyed.{
  IsKeyed, lookup-IsKeyed, insert-IsKeyed, state_or_new_named, gather_from_inv, sort_request-policy,
}

abbrev pub is_for : String → NotificationRequest → Bool
is_for fp r = elim r.fingerprint [ none ↦ false | some f ↦ str_eq f fp ]

-- Is the fingerprint among the requests?
abbrev pub announces : String → List NotificationRequest → Bool
announces fp rs = any (is_for fp) rs

pub any-append {ℓ} :
    {A : Type ℓ} (p : A → Bool) (xs ys : List A)
    → any p (xs ++ ys) ≡ (if any p xs then true else any p ys)
any-append p [] ys = refl
any-append p (x ∷ xs) ys = ground (arith, any-append p xs ys)

-- A fingerprint that has spoken has a state.
pub Since-state :
    (fp : String) (severity : String) (t : ℕ) (d : Dict FingerprintState)
    → Since t (last_of fp d)
    → Since t (state_or_new (lookup fp d) fp severity).last_notified_at
Since-state fp severity t d h = ground arith

pub last_of-insert :
    (fp k : String) (s : FingerprintState) (d : Dict FingerprintState)
    → last_of fp (insert k s d) ≡ (if str_eq k fp then s.last_notified_at else last_of fp d)
last_of-insert fp k s d = ground (arith, lookup-insert k fp s d)

module _ (fp : String) (t : ℕ) (settings : NotificationSettings) where
  -- The fingerprint has spoken at `t` or later.
  pub record Held (p : NotificationPolicy) : Type 0 where
    pub since : Since t (last_of fp p.states)
    pub keyed : IsKeyed p.states
    pub same : p.settings ≡ settings

  pub record HeldPoll (g : Gathered) : Type 0 where
    pub held : Held g.policy
    pub silent : announces fp g.fresh ≡ false

  sort_request-HeldPoll :
      (k : String) (g : Gathered) (r : Option NotificationRequest)
      → HeldPoll g
      → Names k r
      → (str_eq k fp ≡ true → IsNotFresh r)
      → HeldPoll (sort_request g r)
  sort_request-HeldPoll k g none h named quiet = h
  sort_request-HeldPoll k g (some r) h named quiet =
      ground (arith, any-append (is_for fp) g.fresh (r ∷ []))

  pub put_state-Held :
      (p : NotificationPolicy) (s : FingerprintState)
      → Held p
      → (str_eq s.fingerprint fp ≡ true → Since t s.last_notified_at)
      → Held (put_state p s)
  put_state-Held p s h spoke =
      ground (arith, last_of-insert fp s.fingerprint s p.states, insert-IsKeyed s p.states h.keyed)

  Held-states :
      (p q : NotificationPolicy) → Held p → q.states ≡ p.states → q.settings ≡ p.settings → Held q
  Held-states p q h e f = record { since = rw e h.since; keyed = rw e h.keyed; same = f ∙ h.same }

  module _ (now : ℕ) (after : t ≤ now) (before : now < t + cooldown settings) where
    consider-Held :
        (p : NotificationPolicy) (alert : AlertInfo) (s : FingerprintState) (first : Bool)
        (quiet : Quiet)
        → Held p
        → (str_eq s.fingerprint fp ≡ true → Since t s.last_notified_at)
        → let out = consider p alert s now first quiet in
          Held out.0
          × Names s.fingerprint out.1
          × (str_eq s.fingerprint fp ≡ true → IsNotFresh out.1)
    consider-Held p alert s first quiet h spoke =
        let spoken = speak p.settings alert s now first in
        let out = consider p alert s now first quiet in
        let (names, said) = speak-Names p.settings alert s now first in
        let window = λ (e : str_eq s.fingerprint fp ≡ true).
          speak_in_window p.settings alert s now first t (spoke e) after (rw h.same before) in
        let (settled, cases) = consider-Considered p alert s now first quiet in
        elim cases [
          | inl (silent, kept) ↦
              (Held-states p out.0 h kept settled, rw silent tt, λ e. rw silent tt)
          | inr (said_so, written) ↦ (
            Held-states (put_state p spoken.0) out.0
                (put_state-Held p spoken.0 h (λ e. (window (rw (← names) e)).0)) written settled,
            rw said_so said,
            λ e. rw said_so (window e).1,
          )
        ]

    taken-Held :
        (quiet : Quiet) (alert : AlertInfo) (g : Gathered)
        → Held g.policy
        → let afp = fingerprint_of alert in
          let old = state_or_new (lookup afp g.policy.states) afp alert.severity in
          let out =
            consider
              (put_state g.policy (opened old))
              alert
              (opened old)
              now
              (not old.episode_open)
              quiet in
          Held out.0
          × Names old.fingerprint out.1
          × (str_eq old.fingerprint fp ≡ true → IsNotFresh out.1)
    taken-Held quiet alert g h =
        let afp = fingerprint_of alert in
        let old = state_or_new (lookup afp g.policy.states) afp alert.severity in
        let named = state_or_new_named afp alert.severity g.policy.states h.keyed in
        let spoke = λ (e : str_eq old.fingerprint fp ≡ true).
          subst
            (λ k.
              Since t (state_or_new (lookup k g.policy.states) k alert.severity).last_notified_at)
            (sym ((str_eq_iff old.fingerprint fp).0 e) ∙ named)
            (Since-state fp alert.severity t g.policy.states h.since) in
        consider-Held (put_state g.policy (opened old)) alert (opened old) (not old.episode_open)
          quiet (put_state-Held g.policy (opened old) h spoke) spoke

    pub gather_new-Held :
        (quiet : Quiet) (alert : AlertInfo) (g : Gathered)
        → Held g.policy
        → Held (gather_new quiet now alert g).policy
    unfolding gather_new gather_state
    gather_new-Held quiet alert g h = rw (sort_request-policy _ _) (taken-Held quiet alert g h).0

    gather_new-HeldPoll :
        (quiet : Quiet) (alert : AlertInfo) (g : Gathered)
        → HeldPoll g
        → HeldPoll (gather_new quiet now alert g)
    unfolding gather_new gather_state
    gather_new-HeldPoll quiet alert g h =
        let (held, names, fresh) = taken-Held quiet alert g h.held in
        sort_request-HeldPoll _ (record g { policy = _; active = _ }) _
          (record { held = held; silent = h.silent }) names fresh

    pub gather-HeldPoll :
        (p : NotificationPolicy) (alerts : List AlertInfo) (quiet : Quiet)
        → Held p
        → HeldPoll (gather p alerts quiet now)
    unfolding gather
    gather-HeldPoll p alerts quiet h =
        gather_from_inv HeldPoll quiet now (gather_new-HeldPoll quiet) alerts _
          (record { held = h; silent = refl })
