-- ===== src/Tray/Gates.antt =====
-- What must hold before an alert is spoken of at all.
use Prim.Native.Char.{Char}
use text.Mathlib.TextLemmas.{cons≢nil}
use sysadmin_assistant.Shared.{
  ℕ, ◌≡◌, refl, ◌∙◌, String, Bool, true, false, ◌&&◌, ◌||◌, not, Option, none, some, List, [], ◌∷◌,
  any, arith, str_eq, str_eq_iff, str_eq_refl, sym, Bool-cases, Option-cases, inl, inr, ltb, leb,
  if◌then◌else◌,
}
use sysadmin_assistant.Shared.Dict.{lookup, lookup-erase}
use sysadmin_assistant.Shared.Text.{concat, lower, contains_word}
use sysadmin_assistant.Tray.Data.{
  AlertInfo, NotificationSettings, FingerprintState, NotificationPolicy, Quiet, level_or,
  min_severity_level,
}
use sysadmin_assistant.Tray.Copy.{is_present, text_of}
use sysadmin_assistant.Tray.Rules.{
  is_muted, muted_names, is_snoozed, alert_snoozed, suppressed_by_dnd,
}
use sysadmin_assistant.Tray.Speak.{consider, speak}
use sysadmin_assistant.Tray.Poll.Effects.{alert_snoozed_keeps}

-- Critical above warning above info; any other severity has the given rank.
abbrev pub rank : ℕ → String → ℕ
rank other severity =
    if str_eq "info" severity
    then 0
    else if str_eq "warning" severity
    then 1
    else if str_eq "critical" severity
    then 2
    else other

-- Is one of the muted names, blank ones aside, the alert's service, or a word of its title where it
-- has no service? Case does not count.
abbrev pub muted_by : List String → Option String → String → Bool
muted_by names service title =
    any
      (λ m.
        not (str_eq m "")
        && (if is_present service
            then str_eq (lower m) (lower (text_of service))
            else contains_word (lower m) (lower title)))
      names

-- Does a snooze under the key run beyond now?
abbrev pub still_snoozed : NotificationPolicy → String → ℕ → Bool
still_snoozed p key now = elim (lookup key p.snoozes) [
  | none ↦ false
  | some expiry ↦ ltb now expiry
]

-- May the alert interrupt now?
abbrev pub may_interrupt : NotificationPolicy → AlertInfo → String → ℕ → Quiet → Bool
may_interrupt p alert fingerprint now quiet =
    let critical = str_eq alert.severity "critical" in
    leb (rank 2 p.settings.min_severity) (rank 0 alert.severity)
    && not (muted_by p.settings.muted_services alert.service_name alert.title)
    && not (still_snoozed p (concat ("fp:" ∷ fingerprint ∷ [])) now)
    && not (
        is_present alert.service_name
        && still_snoozed p (concat ("service:" ∷ lower (text_of alert.service_name) ∷ [])) now)
    && (not quiet.dnd_active || (critical && quiet.dnd_allow_critical))
    && (not p.settings.respect_desktop_dnd || not quiet.desktop_inhibited || critical)
    && (not p.settings.digest_mode || critical)

level_or-rank : (other : ℕ) (severity : String) → level_or other severity ≡ rank other severity
unfolding level_or lookup
level_or-rank other severity = ground arith

min_severity_level-rank :
    (settings : NotificationSettings) → min_severity_level settings ≡ rank 2 settings.min_severity
unfolding min_severity_level
min_severity_level-rank settings = level_or-rank 2 settings.min_severity

any-muted_names :
    (p : String → Bool) (names : List String)
    → any p (muted_names names) ≡ any (λ m. not (str_eq m "") && p (lower m)) names
unfolding muted_names
any-muted_names p [] = refl
any-muted_names p (m ∷ ms) = ground (arith, any-muted_names p ms)

cons_blank : (c : Char) (s : String) → str_eq (String.◌∷◌ c s) "" ≡ false
cons_blank c s = elim (Bool-cases (str_eq (String.◌∷◌ c s) "")) [
  | inl same ↦ absurd (cons≢nil ((str_eq_iff (String.◌∷◌ c s) "").0 same))
  | inr differ ↦ differ
]

lower_blank : (s : String) → str_eq (lower s) "" ≡ str_eq s ""
unfolding lower
lower_blank String.[] = refl
lower_blank (String.◌∷◌ c s) = cons_blank _ _ ∙ sym (cons_blank c s)

is_muted-muted_by :
    (settings : NotificationSettings) (alert : AlertInfo)
    → is_muted settings alert ≡ muted_by settings.muted_services alert.service_name alert.title
unfolding is_muted is_present
is_muted-muted_by settings alert =
    let by_title =
      any-muted_names (λ m. contains_word m (lower alert.title)) settings.muted_services in
    elim (Option-cases alert.service_name) [
      | inl none_named ↦ rw (none_named, lower_blank, str_eq_refl) by_title
      | inr (service, named) ↦ elim (Bool-cases (str_eq service "")) [
        | inl blank ↦ rw (named, lower_blank, blank) by_title
        | inr proper ↦
            rw (named, lower_blank, proper)
              (any-muted_names (λ m. str_eq m (lower service)) settings.muted_services)
      ]
    ]

alert_snoozed-still_snoozed :
    (p : NotificationPolicy) (fingerprint : String) (service : Option String) (now : ℕ)
    → (alert_snoozed p fingerprint service now).1 ≡ (
        still_snoozed p (concat ("fp:" ∷ fingerprint ∷ [])) now
        || (is_present service
            && still_snoozed p (concat ("service:" ∷ lower (text_of service) ∷ [])) now))
unfolding alert_snoozed is_snoozed
alert_snoozed-still_snoozed p fingerprint service now =
    let key = concat ("fp:" ∷ fingerprint ∷ []) in
    let other = concat ("service:" ∷ lower (text_of service) ∷ []) in
    ground (arith, lookup-erase key other p.snoozes, str_eq_iff key other)

-- The guards of `_consider`, one after the other.
abbrev held_back : NotificationPolicy → AlertInfo → String → ℕ → Quiet → Bool
held_back p alert fingerprint now quiet =
    ltb (level_or 0 alert.severity) (min_severity_level p.settings)
    || is_muted p.settings alert
    || (alert_snoozed p fingerprint alert.service_name now).1
    || suppressed_by_dnd p.settings alert.severity quiet
    || (p.settings.digest_mode && not (str_eq alert.severity "critical"))

considered :
    (p : NotificationPolicy) (alert : AlertInfo) (s : FingerprintState) (now : ℕ) (first : Bool)
    (quiet : Quiet)
    → (consider p alert s now first quiet).1 ≡ (
        if held_back p alert s.fingerprint now quiet
        then none
        else (speak p.settings alert s now first).1)
unfolding consider
considered p alert s now first quiet =
    ground (arith, alert_snoozed_keeps p s.fingerprint alert.service_name now)

either {ℓ} :
    {A : Type ℓ} (held free : Bool) (x y : A)
    → not held ≡ free
    → (if held then y else x) ≡ (if free then x else y)
either held free x y h = ground (arith, h)

passes :
    (rung floor : ℕ)
    (muted by_print by_service active allowed respected inhibited digest critical : Bool)
    → not (
        ltb rung floor
        || muted
        || (by_print || by_service)
        || (if active && not (critical && allowed)
            then true
            else respected && inhibited && not critical)
        || (digest && not critical))
      ≡ (leb floor rung
          && not muted
          && not by_print
          && not by_service
          && (not active || (critical && allowed))
          && (not respected || not inhibited || critical)
          && (not digest || critical))
passes rung floor muted by_print by_service active allowed respected inhibited digest critical =
    ground arith

-- An alert produces what its episode has to say exactly when it may interrupt: it is at the configured
-- severity or above it (an unknown severity counts as info, an unknown setting as critical), no name that is
-- muted is its service or, without a service, a word of its title, no snooze of its fingerprint or of
-- its service runs beyond now, the program's do-not-disturb is off or lets this critical through, the
-- desktop's is off or not respected or the alert is critical, and with the digest mode it is
-- critical. Otherwise it produces nothing.
pub consider_gates :
    (p : NotificationPolicy) (alert : AlertInfo) (s : FingerprintState) (now : ℕ) (first : Bool)
    (quiet : Quiet)
    → (consider p alert s now first quiet).1 ≡ (
        if may_interrupt p alert s.fingerprint now quiet
        then (speak p.settings alert s now first).1
        else none)
unfolding consider suppressed_by_dnd
consider_gates p alert s now first quiet =
    considered p alert s now first quiet
    ∙ either (held_back p alert s.fingerprint now quiet)
        (may_interrupt p alert s.fingerprint now quiet) _ none
        (rw
          (
            level_or-rank 0 alert.severity,
            min_severity_level-rank,
            is_muted-muted_by,
            alert_snoozed-still_snoozed,
          )
          (passes (rank 0 alert.severity) (rank 2 p.settings.min_severity)
            (muted_by p.settings.muted_services alert.service_name alert.title)
            (still_snoozed p (concat ("fp:" ∷ s.fingerprint ∷ [])) now)
            (is_present alert.service_name
              && still_snoozed p (concat ("service:" ∷ lower (text_of alert.service_name) ∷ []))
                  now)
            quiet.dnd_active quiet.dnd_allow_critical p.settings.respect_desktop_dnd
            quiet.desktop_inhibited p.settings.digest_mode (str_eq alert.severity "critical")))
