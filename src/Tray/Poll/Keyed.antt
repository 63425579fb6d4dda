-- ===== src/Tray/Poll/Keyed.antt =====
-- The well-formedness of the policy's states: each is stored under its own fingerprint. Every part
-- of a poll keeps it.
use sysadmin_assistant.Shared.{
  ℕ, String, ◌≡◌, refl, subst, inl, inr, Bool, not, Option, none, some, List, [], ◌∷◌, arith,
  str_eq_iff, if_cases, Option-cases,
}
use sysadmin_assistant.Shared.Dict.{Dict, lookup, insert, erase}
use sysadmin_assistant.Tray.Data.{
  AlertInfo, NotificationRequest, FingerprintState, NotificationPolicy, Quiet, new_state,
  fingerprint_of,
}
use sysadmin_assistant.Tray.Speak.{put_state, speak, consider}
use sysadmin_assistant.Tray.Poll.{
  Gathered, state_or_new, opened, sort_request, has, gather_state, gather_new, gather_alert,
  gather_from, gather, close_states,
}
use sysadmin_assistant.Tray.Poll.Effects.{consider-Considered}

abbrev pub IsKeyed : Dict FingerprintState → Type 0
IsKeyed [] = Unit
IsKeyed ((k, s) ∷ d) = (s.fingerprint ≡ k) × IsKeyed d

pub lookup-IsKeyed :
    (k : String) (s : FingerprintState) (d : Dict FingerprintState)
    → IsKeyed d
    → lookup k d ≡ some s
    → s.fingerprint ≡ k
unfolding lookup
lookup-IsKeyed k s [] h e = cc
lookup-IsKeyed k s ((j, w) ∷ d) h e = ground (arith, str_eq_iff j k, lookup-IsKeyed k s d h.1)

pub insert-IsKeyed :
    (s : FingerprintState) (d : Dict FingerprintState)
    → IsKeyed d
    → IsKeyed (insert s.fingerprint s d)
unfolding insert
insert-IsKeyed s [] h = (refl, tt)
insert-IsKeyed s ((j, w) ∷ d) h = ground (arith, str_eq_iff j s.fingerprint, insert-IsKeyed s d h.1)

pub insert_at-IsKeyed :
    (k : String) (s : FingerprintState) (d : Dict FingerprintState)
    → s.fingerprint ≡ k
    → IsKeyed d
    → IsKeyed (insert k s d)
insert_at-IsKeyed k s d e h = subst (λ j. IsKeyed (insert j s d)) e (insert-IsKeyed s d h)

pub erase-IsKeyed : (k : String) (d : Dict FingerprintState) → IsKeyed d → IsKeyed (erase k d)
unfolding erase
erase-IsKeyed k [] h = tt
erase-IsKeyed k ((j, w) ∷ d) h = ground (arith, erase-IsKeyed k d h.1)

pub close_states-IsKeyed :
    (cooldown : ℕ) (active : List String) (now : ℕ) (d : Dict FingerprintState)
    → IsKeyed d
    → IsKeyed (close_states cooldown active now d)
unfolding close_states
close_states-IsKeyed cooldown active now [] h = tt
close_states-IsKeyed cooldown active now ((k, s) ∷ d) h =
    ground (arith, close_states-IsKeyed cooldown active now d h.1)

pub state_or_new_named :
    (fp severity : String) (d : Dict FingerprintState)
    → IsKeyed d
    → (state_or_new (lookup fp d) fp severity).fingerprint ≡ fp
unfolding new_state
state_or_new_named fp severity d h = elim (Option-cases (lookup fp d)) [
  | inl new ↦ rw new
  | inr (s, old) ↦ rw old (lookup-IsKeyed fp s d h old)
]

consider-IsKeyed :
    (p : NotificationPolicy) (alert : AlertInfo) (s : FingerprintState) (now : ℕ) (first : Bool)
    (quiet : Quiet)
    → IsKeyed p.states
    → IsKeyed (consider p alert s now first quiet).0.states
consider-IsKeyed p alert s now first quiet h =
    let spoken = speak p.settings alert s now first in
    ground
      (arith, consider-Considered p alert s now first quiet, insert-IsKeyed spoken.0 p.states h)

pub sort_request-policy :
    (g : Gathered) (r : Option NotificationRequest) → (sort_request g r).policy ≡ g.policy
sort_request-policy g none = refl
sort_request-policy g (some r) = ground arith

-- The loop's body passes an alert over or takes it up.
pub gather_alert_cases {ℓ} :
    (P : Gathered → Type ℓ) (quiet : Quiet) (now : ℕ) (alert : AlertInfo) (g : Gathered)
    → P g
    → P (gather_new quiet now alert g)
    → P (gather_alert quiet now alert g)
unfolding gather_alert
gather_alert_cases P quiet now alert g passed taken =
    if_cases P alert.acknowledged passed
      (if_cases P (has (fingerprint_of alert) g.active) passed taken)

-- What the body keeps, the loop keeps.
pub gather_from_inv {ℓ} :
    (P : Gathered → Type ℓ) (quiet : Quiet) (now : ℕ)
    → ((alert : AlertInfo) (g : Gathered) → P g → P (gather_new quiet now alert g))
    → (alerts : List AlertInfo) (g : Gathered) → P g
    → P (gather_from quiet now alerts g)
unfolding gather_from
gather_from_inv P quiet now keeps [] g h = h
gather_from_inv P quiet now keeps (alert ∷ alerts) g h =
    gather_from_inv P quiet now keeps alerts _
      (gather_alert_cases P quiet now alert g h (keeps alert g h))

pub gather_new-IsKeyed :
    (quiet : Quiet) (now : ℕ) (alert : AlertInfo) (g : Gathered)
    → IsKeyed g.policy.states
    → IsKeyed (gather_new quiet now alert g).policy.states
unfolding gather_new gather_state
gather_new-IsKeyed quiet now alert g h =
    let fp = fingerprint_of alert in
    let s = state_or_new (lookup fp g.policy.states) fp alert.severity in
    let p = put_state g.policy (opened s) in
    let out = consider p alert (opened s) now (not s.episode_open) quiet in
    rw (sort_request-policy (record g { policy = out.0; active = fp ∷ g.active }) out.1) (
      consider-IsKeyed p alert (opened s) now (not s.episode_open) quiet
        (insert-IsKeyed (opened s) g.policy.states h))

-- A poll's loop keeps the states well-formed: each is stored under its own fingerprint.
pub gather-IsKeyed :
    (p : NotificationPolicy) (alerts : List AlertInfo) (quiet : Quiet) (now : ℕ)
    → IsKeyed p.states
    → IsKeyed (gather p alerts quiet now).policy.states
unfolding gather
gather-IsKeyed p alerts quiet now h =
    gather_from_inv (λ g. IsKeyed g.policy.states) quiet now (gather_new-IsKeyed quiet now) alerts _
      h
