-- ===== src/Tray/Digest.antt =====
-- sysadmin_tray/notifications.py: the warning digest (`flush_digest`, `_maybe_flush_digest`).
use sysadmin_assistant.Shared.{
  ℕ, ◌-◌, ◌*◌, max, min, String, false, Option, none, some, List, [], ◌∷◌, ◌++◌, map, length, take,
  ltb, ◌==◌, if◌then◌else◌,
}
use sysadmin_assistant.Shared.Text.{concat, join, show}
use sysadmin_assistant.Escalation.{minute}
use sysadmin_assistant.Tray.Data.{
  NotificationRequest, NotificationPolicy, fp_digest, max_listed_titles,
}
use sysadmin_assistant.Tray.Copy.{humanise_minutes, count_line, highest}

-- `f"• {t}"` for the first titles, and how many more there are.
unfoldable pub listed : List String → List String
listed titles =
    map (λ t. concat ("• " ∷ t ∷ [])) (take max_listed_titles titles)
    ++ (if ltb max_listed_titles (length titles)
        then concat ("…and " ∷ show (length titles - max_listed_titles) ∷ " more" ∷ []) ∷ []
        else [])

-- `self._digest_started_at or now`: a reading of exactly 0 is falsy.
unfoldable pub started_or : Option ℕ → ℕ → ℕ
started_or none now = now
started_or (some t) now = if t == 0 then now else t

digest_request : NotificationPolicy → ℕ → NotificationRequest
unfolding listed started_or
digest_request p now =
    let elapsed = max (now - started_or p.digest_started_at now) minute in
    let interval = p.settings.digest_interval_minutes * minute in
    let window = humanise_minutes (min elapsed (if interval == 0 then elapsed else interval)) in
    let severities = map (λ item. item.0) p.digest in
    record {
      summary =
          concat
            ("SysAdmin digest — " ∷ show (length p.digest) ∷ " alerts in the last " ∷ window ∷ []);
      body = join "\n" (count_line severities ∷ listed (map (λ item. item.1) p.digest));
      severity = "info";
      alert_severity = some (highest severities);
      service_name = none;
      fingerprint = some fp_digest;
      transient = false;
      snooze_key = none;
      escalation = false;
      reminder = false;
    }

unfoldable pub flush_digest :
    NotificationPolicy → ℕ → NotificationPolicy × Option NotificationRequest
unfolding digest_request
flush_digest p now = elim p.digest [
  | [] ↦ (p, none)
  | _ ↦ (record p { digest = []; digest_started_at = none }, some (digest_request p now))
]

unfoldable pub maybe_flush_digest :
    NotificationPolicy → ℕ → NotificationPolicy × Option NotificationRequest
unfolding flush_digest started_or
maybe_flush_digest p now = elim p.digest [
  | [] ↦ (p, none)
  | _ ↦
      if ltb (now - started_or p.digest_started_at now)
        (p.settings.digest_interval_minutes * minute)
      then (p, none)
      else flush_digest p now
]
