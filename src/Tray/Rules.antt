-- ===== src/Tray/Rules.antt =====
-- sysadmin_tray/notifications.py: the suppression rules (`_is_muted`, `snooze`, `is_snoozed`,
-- `_is_snoozed`, `_suppressed_by_dnd`, `snooze_key_for`). A snooze query drops an expired entry, so
-- it returns the policy too.
use sysadmin_assistant.Shared.{
  ℕ, ◌+◌, ◌*◌, String, Bool, true, false, ◌&&◌, not, Option, none, some, List, [], ◌∷◌, leb, any,
  if◌then◌else◌, str_eq,
}
use sysadmin_assistant.Shared.Dict.{lookup, insert, erase}
use sysadmin_assistant.Shared.Text.{concat, lower, contains_word}
use sysadmin_assistant.Escalation.{minute}
use sysadmin_assistant.Tray.Data.{AlertInfo, NotificationSettings, NotificationPolicy, Quiet}
use sysadmin_assistant.Tray.Copy.{is_present, text_of}

-- `{m.lower() for m in muted_services if m}`
unfoldable pub muted_names : List String → List String
muted_names [] = []
muted_names (m ∷ ms) = let rest = muted_names ms in if str_eq m "" then rest else lower m ∷ rest

unfoldable pub is_muted : NotificationSettings → AlertInfo → Bool
unfolding muted_names
is_muted settings alert =
    let muted = muted_names settings.muted_services in
    let service = lower (text_of alert.service_name) in
    let title = lower alert.title in
    if not (str_eq service "")
    then any (λ m. str_eq m service) muted
    else any (λ name. contains_word name title) muted

unfoldable pub snooze : NotificationPolicy → String → Option ℕ → ℕ → NotificationPolicy
snooze p key minutes now =
    let window : ℕ = elim minutes [ none ↦ p.settings.snooze_minutes | some m ↦ m ] in
    record p { snoozes = insert key (now + window * minute) p.snoozes }

unfoldable pub is_snoozed : NotificationPolicy → String → ℕ → NotificationPolicy × Bool
is_snoozed p key now = elim (lookup key p.snoozes) [
  | none ↦ (p, false)
  | some expiry ↦
      if leb expiry now then (record p { snoozes = erase key p.snoozes }, false) else (p, true)
]

-- `_is_snoozed`
unfoldable pub alert_snoozed :
    NotificationPolicy → String → Option String → ℕ → NotificationPolicy × Bool
alert_snoozed p fingerprint service_name now =
    let (q, hit) = is_snoozed p (concat ("fp:" ∷ fingerprint ∷ [])) now in
    if hit
    then (q, true)
    else if is_present service_name
    then is_snoozed q (concat ("service:" ∷ lower (text_of service_name) ∷ [])) now
    else (q, false)

unfoldable pub suppressed_by_dnd : NotificationSettings → String → Quiet → Bool
suppressed_by_dnd settings severity quiet =
    let is_critical = str_eq severity "critical" in
    if quiet.dnd_active && not (is_critical && quiet.dnd_allow_critical)
    then true
    else settings.respect_desktop_dnd && quiet.desktop_inhibited && not is_critical

unfoldable pub snooze_key_for : AlertInfo → String → String
snooze_key_for alert fingerprint =
    if is_present alert.service_name
    then concat ("service:" ∷ lower (text_of alert.service_name) ∷ [])
    else concat ("fp:" ∷ fingerprint ∷ [])
