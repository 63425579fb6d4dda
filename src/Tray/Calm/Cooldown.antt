-- ===== src/Tray/Calm/Cooldown.antt =====
-- The flap cooldown, as a promise about the whole history of the tray.
use sysadmin_assistant.Shared.{
  ℕ, ◌+◌, ◌≤◌, ◌<◌, String, ◌≡◌, refl, true, false, not, some, List, [], ap, sym, subst, arith,
  if◌then◌else◌,
}
use sysadmin_assistant.Tray.Data.{AlertInfo, NotificationPolicy, Quiet}
use sysadmin_assistant.Tray.Speak.{cooldown}
use sysadmin_assistant.Tray.Poll.{gather, summarise, evaluate}
use sysadmin_assistant.Tray.Poll.Keyed.{IsKeyed}
use sysadmin_assistant.Tray.History.{Call, run}
use sysadmin_assistant.Tray.Calm.{announces, Held, gather-HeldPoll}
use sysadmin_assistant.Tray.Calm.Opening.{gather-Held}
use sysadmin_assistant.Tray.Calm.Intervals.{Within, summarise-Held, run-Held}

evaluate-enabled :
    (p : NotificationPolicy) (alerts : List AlertInfo) (quiet : Quiet) (now : ℕ)
    → p.settings.enabled ≡ true
    → (evaluate p alerts quiet now).0 ≡ (summarise (gather p alerts quiet now) now).0
unfolding evaluate
evaluate-enabled p alerts quiet now on =
    ap (λ b. (if not b then (p, some []) else summarise (gather p alerts quiet now) now).0) on

-- With its states stored under their own fingerprints, a poll of an enabled policy at `t` opens an episode of a fingerprint aloud. Whatever the tray
-- calls afterwards at readings inside the flap cooldown (polls with any alerts, snoozes, failed and
-- answered status polls), no poll inside the cooldown opens an episode of that fingerprint again.
pub openings_apart :
    (p : NotificationPolicy) (fp : String) (t now : ℕ) (alerts later : List AlertInfo)
    (quiet quiet' : Quiet) (cs : List (ℕ × Call))
    → IsKeyed p.states
    → p.settings.enabled ≡ true
    → announces fp (gather p alerts quiet t).fresh ≡ true
    → Within t p.settings cs
    → t ≤ now
    → now < t + cooldown p.settings
    → announces fp (gather (run (evaluate p alerts quiet t).0 cs) later quiet' now).fresh ≡ false
openings_apart p fp t now alerts later quiet quiet' cs keyed on opens within after before =
    let start : t < t + cooldown p.settings = omega arith in
    let h = gather-Held fp t p.settings (omega arith) p alerts quiet keyed refl opens in
    let polled : Held fp t p.settings (evaluate p alerts quiet t).0 =
      subst (Held fp t p.settings) (sym (evaluate-enabled p alerts quiet t on))
        (summarise-Held fp t p.settings t (omega arith) start (gather p alerts quiet t) h) in
    (gather-HeldPoll fp t p.settings now after before _ later quiet'
      (run-Held fp t p.settings _ cs within polled)).silent
