-- ===== src/Tray/Calm/Opening.antt =====
-- What a poll that announces a fingerprint leaves behind: the fingerprint has spoken now.
use sysadmin_assistant.Shared.{
  ℕ, ◌<◌, String, ◌≡◌, sym, subst, ◌∙◌, inl, inr, Bool, true, false, not, Option, none, some, List,
  [], ◌∷◌, arith, str_eq_iff, Bool-cases, is_some,
}
use sysadmin_assistant.Shared.Dict.{lookup}
use sysadmin_assistant.Tray.Data.{
  AlertInfo, NotificationRequest, NotificationSettings, FingerprintState, NotificationPolicy, Quiet,
  fingerprint_of,
}
use sysadmin_assistant.Tray.Speak.{
  cooldown, put_state, first_notification, maybe_escalate, remind, speak, consider,
}
use sysadmin_assistant.Tray.Poll.{
  Gathered, state_or_new, opened, sort_request, gather_state, gather_new, gather,
}
use sysadmin_assistant.Tray.Poll.Effects.{last_of, Since, Names, consider-Considered, speak-Names}
use sysadmin_assistant.Tray.Poll.Keyed.{
  IsKeyed, gather_from_inv, sort_request-policy, gather_new-IsKeyed,
}
use sysadmin_assistant.Tray.Calm.{
  is_for, announces, any-append, last_of-insert, Held, gather_new-Held,
}

-- Whatever is said is said now.
pub speak_said :
    (settings : NotificationSettings) (alert : AlertInfo) (s : FingerprintState) (now : ℕ)
    (first : Bool)
    → is_some (speak settings alert s now first).1 ≡ true
    → (speak settings alert s now first).0.last_notified_at ≡ some now
unfolding speak maybe_escalate remind first_notification
speak_said settings alert s now first said = ground arith

consider_said :
    (p : NotificationPolicy) (alert : AlertInfo) (s : FingerprintState) (now : ℕ) (first : Bool)
    (quiet : Quiet)
    → is_some (consider p alert s now first quiet).1 ≡ true
    → last_of s.fingerprint (consider p alert s now first quiet).0.states ≡ some now
consider_said p alert s now first quiet said =
    let spoken = speak p.settings alert s now first in
    ground (
      arith,
      consider-Considered p alert s now first quiet,
      speak_said p.settings alert s now first,
      speak-Names p.settings alert s now first,
      last_of-insert s.fingerprint spoken.0.fingerprint spoken.0 p.states,
      str_eq_iff spoken.0.fingerprint s.fingerprint,
    )

consider-Names :
    (p : NotificationPolicy) (alert : AlertInfo) (s : FingerprintState) (now : ℕ) (first : Bool)
    (quiet : Quiet)
    → Names s.fingerprint (consider p alert s now first quiet).1
consider-Names p alert s now first quiet =
    ground (
      arith,
      consider-Considered p alert s now first quiet,
      speak-Names p.settings alert s now first,
    )

module _ (fp : String) (now : ℕ) (settings : NotificationSettings)
    (some_cooldown : 0 < cooldown settings) where
  record Opened (g : Gathered) : Type 0 where
    keyed : IsKeyed g.policy.states
    same : g.policy.settings ≡ settings
    said : announces fp g.fresh ≡ true → Since now (last_of fp g.policy.states)

  -- A request joins the fresh ones only if it was made, under the fingerprint of its alert.
  sort_request_new :
      (k : String) (g : Gathered) (r : Option NotificationRequest)
      → Names k r
      → announces fp g.fresh ≡ false
      → announces fp (sort_request g r).fresh ≡ true
      → (is_some r ≡ true) × (k ≡ fp)
  sort_request_new k g none named before after = cc
  sort_request_new k g (some r) named before after =
      ground (arith, any-append (is_for fp) g.fresh (r ∷ []), str_eq_iff k fp)

  gather_new-same :
      (quiet : Quiet) (alert : AlertInfo) (g : Gathered)
      → (gather_new quiet now alert g).policy.settings ≡ g.policy.settings
  unfolding gather_new gather_state
  gather_new-same quiet alert g =
      let afp = fingerprint_of alert in
      let old = state_or_new (lookup afp g.policy.states) afp alert.severity in
      rw (sort_request-policy _ _)
        (consider-Considered (put_state g.policy (opened old)) alert (opened old) now
          (not old.episode_open) quiet).0

  gather_new-Since :
      (quiet : Quiet) (alert : AlertInfo) (g : Gathered)
      → IsKeyed g.policy.states
      → announces fp g.fresh ≡ false
      → announces fp (gather_new quiet now alert g).fresh ≡ true
      → Since now (last_of fp (gather_new quiet now alert g).policy.states)
  unfolding gather_new gather_state
  gather_new-Since quiet alert g keyed before after =
      let afp = fingerprint_of alert in
      let old = state_or_new (lookup afp g.policy.states) afp alert.severity in
      let p = put_state g.policy (opened old) in
      let out = consider p alert (opened old) now (not old.episode_open) quiet in
      let taken : Gathered = record g { policy = out.0; active = afp ∷ g.active } in
      let (made, own) =
        sort_request_new old.fingerprint taken out.1
          (consider-Names p alert (opened old) now _ quiet) before after in
      let spoken = consider_said p alert (opened old) now (not old.episode_open) quiet made in
      rw (sort_request-policy taken out.1) (
        subst (λ k. Since now (last_of k out.0.states)) own
          (subst (Since now) (sym spoken) (omega arith)))

  gather_new-Opened :
      (quiet : Quiet) (alert : AlertInfo) (g : Gathered)
      → Opened g
      → Opened (gather_new quiet now alert g)
  gather_new-Opened quiet alert g h = record {
    keyed = gather_new-IsKeyed quiet now alert g h.keyed;
    same = gather_new-same quiet alert g ∙ h.same;
    said = λ after. elim (Bool-cases (announces fp g.fresh)) [
      | inl before ↦
          (gather_new-Held fp now settings now (omega arith) (omega arith) quiet alert g
            (record { since = h.said before; keyed = h.keyed; same = h.same })).since
      | inr silent ↦ gather_new-Since quiet alert g h.keyed silent after
    ];
  }

  pub gather-Held :
      (p : NotificationPolicy) (alerts : List AlertInfo) (quiet : Quiet)
      → IsKeyed p.states
      → p.settings ≡ settings
      → announces fp (gather p alerts quiet now).fresh ≡ true
      → Held fp now settings (gather p alerts quiet now).policy
  unfolding gather
  gather-Held p alerts quiet keyed same announced =
      let o =
        gather_from_inv Opened quiet now (gather_new-Opened quiet) alerts _
          (record { keyed = keyed; same = same; said = λ e. cc }) in
      record { since = o.said announced; keyed = o.keyed; same = o.same }
