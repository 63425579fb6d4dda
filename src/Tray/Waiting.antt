-- ===== src/Tray/Waiting.antt =====
-- What waits for the clock: a snooze and the digest.
use sysadmin_assistant.Shared.{
  ℕ, ◌+◌, ◌-◌, ◌*◌, ◌≤◌, ◌<◌, String, ◌≡◌, ◌⊎◌, true, none, some, [], arith, ltb, str_eq, is_some,
  ◌≢◌, if◌then◌else◌,
}
use sysadmin_assistant.Shared.Dict.{lookup-insert}
use sysadmin_assistant.Escalation.{minute}
use sysadmin_assistant.Tray.Data.{NotificationPolicy}
use sysadmin_assistant.Tray.Rules.{snooze, is_snoozed}
use sysadmin_assistant.Tray.Digest.{flush_digest, maybe_flush_digest, started_or}

-- A key that was snoozed for some minutes at `t` is snoozed at `now` exactly while the minutes have
-- not passed; any other key is snoozed as it was before.
pub is_snoozed-snooze :
    (p : NotificationPolicy) (key other : String) (minutes t now : ℕ)
    → (is_snoozed (snooze p key (some minutes) t) other now).1
      ≡ (if str_eq key other then ltb now (t + minutes * minute) else (is_snoozed p other now).1)
unfolding is_snoozed snooze
is_snoozed-snooze p key other minutes t now =
    ground (arith, lookup-insert key other (t + minutes * minute) p.snoozes)

-- A digest with items that was started at a clock reading above zero is sent exactly when its interval has
-- passed, and is empty then; until then it stays as it is.
pub maybe_flush_digest_due :
    (p : NotificationPolicy) (t now : ℕ)
    → p.digest ≢ []
    → p.digest_started_at ≡ some t
    → 0 < t
    → ((now - t < p.settings.digest_interval_minutes * minute)
        × (maybe_flush_digest p now ≡ (p, none)))
      ⊎ ((p.settings.digest_interval_minutes * minute ≤ now - t)
          × ((maybe_flush_digest p now).0.digest ≡ [])
          × (is_some (maybe_flush_digest p now).1 ≡ true))
unfolding maybe_flush_digest flush_digest started_or
maybe_flush_digest_due p t now items started after = ground arith

-- A digest that was started at the clock reading zero is never sent, however late it is, unless the
-- interval is zero: the reading counts as missing, and the window begins anew at every poll.
pub maybe_flush_digest_stuck :
    (p : NotificationPolicy) (now : ℕ)
    → p.digest_started_at ≡ some 0
    → 0 < p.settings.digest_interval_minutes
    → maybe_flush_digest p now ≡ (p, none)
unfolding maybe_flush_digest flush_digest started_or
maybe_flush_digest_stuck p now started interval = ground arith
