-- ===== src/Tray/Poll.antt =====
-- sysadmin_tray/notifications.py: one poll (`evaluate`, `_coalesce`, `_close_inactive`). The clock
-- is read once for a poll. `none` for the requests is the IndexError of `_coalesce` on an empty
-- body: what the loop has written stays, the digest and the open episodes are not reached.
use sysadmin_assistant.Shared.{
  ℕ, ◌+◌, ◌-◌, ◌*◌, max, String, Bool, true, false, not, Option, none, some, List, [], ◌∷◌, ◌++◌,
  map, length, take, any, ltb, ◌==◌, if◌then◌else◌, str_eq,
}
use sysadmin_assistant.Shared.Dict.{Dict, lookup}
use sysadmin_assistant.Shared.Text.{concat, join, show, first_line}
use sysadmin_assistant.Tray.Data.{
  AlertInfo, NotificationRequest, NotificationSettings, FingerprintState, NotificationPolicy, Quiet,
  new_state, fingerprint_of, fp_coalesced, fp_reminder, fp_backend_unreachable, max_listed_titles,
}
use sysadmin_assistant.Tray.Copy.{count_line, highest}
use sysadmin_assistant.Tray.Speak.{cooldown, put_state, consider}
use sysadmin_assistant.Tray.Digest.{maybe_flush_digest}
pub mod Effects
pub mod Keyed

-- `x in xs`
abbrev pub has : String → List String → Bool
has fingerprint active = any (λ f. str_eq f fingerprint) active

-- The locals of `evaluate`'s loop.
pub record Gathered : Type 0 where
  pub policy : NotificationPolicy
  pub active : List String
  pub requests : List NotificationRequest
  pub fresh : List NotificationRequest
  pub reminders : List NotificationRequest

abbrev pub state_or_new : Option FingerprintState → String → String → FingerprintState
state_or_new none fingerprint severity = new_state fingerprint severity
state_or_new (some state) fingerprint severity = state

abbrev pub opened : FingerprintState → FingerprintState
opened state = record state { episode_open = true; polls_active = state.polls_active + 1 }

abbrev pub sort_request : Gathered → Option NotificationRequest → Gathered
sort_request g none = g
sort_request g (some r) =
    if r.escalation
    then record g { requests = g.requests ++ r ∷ [] }
    else if r.reminder
    then record g { reminders = g.reminders ++ r ∷ [] }
    else record g { fresh = g.fresh ++ r ∷ [] }

-- The body of the loop, from the state that the dict holds for the alert.
unfoldable pub gather_state : Quiet → ℕ → AlertInfo → FingerprintState → Gathered → Gathered
gather_state quiet now alert state g =
    let (p, r) =
      consider (put_state g.policy (opened state)) alert (opened state) now (not state.episode_open)
        quiet in
    sort_request (record g { policy = p; active = fingerprint_of alert ∷ g.active }) r

-- The same for an alert whose fingerprint was not met before in this poll.
unfoldable pub gather_new : Quiet → ℕ → AlertInfo → Gathered → Gathered
gather_new quiet now alert g =
    let fp = fingerprint_of alert in
    gather_state quiet now alert (state_or_new (lookup fp g.policy.states) fp alert.severity) g

unfoldable pub gather_alert : Quiet → ℕ → AlertInfo → Gathered → Gathered
gather_alert quiet now alert g =
    if alert.acknowledged
    then g
    else if has (fingerprint_of alert) g.active
    then g
    else gather_new quiet now alert g

unfoldable pub gather_from : Quiet → ℕ → List AlertInfo → Gathered → Gathered
gather_from quiet now [] g = g
gather_from quiet now (alert ∷ alerts) g =
    gather_from quiet now alerts (gather_alert quiet now alert g)

unfoldable pub gather : NotificationPolicy → List AlertInfo → Quiet → ℕ → Gathered
unfolding gather_from
gather p alerts quiet now =
    gather_from quiet now alerts
      (record { policy = p; active = []; requests = []; fresh = []; reminders = [] })

-- `r.body.splitlines()[0]` of each.
unfoldable pub first_lines : List NotificationRequest → Option (List String)
first_lines [] = some []
first_lines (r ∷ rs) =
    let rest = first_lines rs in
    elim (first_line r.body) [
      | none ↦ none
      | some l ↦ elim rest [ none ↦ none | some ls ↦ some (concat ("• " ∷ l ∷ []) ∷ ls) ]
    ]

reported_of : NotificationRequest → String
reported_of r = elim r.alert_severity [
  | none ↦ r.severity
  | some s ↦ if str_eq s "" then r.severity else s
]

more_lines : ℕ → List String
more_lines n =
    if ltb max_listed_titles n
    then concat ("…and " ∷ show (n - max_listed_titles) ∷ " more" ∷ []) ∷ []
    else []

unfoldable pub summary_of :
    List NotificationRequest → String → String → Bool → List String → NotificationRequest
unfolding reported_of more_lines
summary_of fresh label fingerprint reminder lines =
    let reported = map reported_of fresh in
    let urgency = highest (map (λ r. r.severity) fresh) in
    record {
      summary = concat (show (length fresh) ∷ " " ∷ label ∷ []);
      body = join "\n" (count_line reported ∷ (lines ++ more_lines (length fresh)));
      severity = urgency;
      alert_severity = some (highest reported);
      service_name = none;
      fingerprint = some fingerprint;
      transient = if reminder then false else not (str_eq urgency "critical");
      snooze_key = none;
      escalation = false;
      reminder = reminder;
    }

unfoldable pub coalesce :
    NotificationSettings
    → List NotificationRequest
    → String
    → String
    → Bool
    → Option (List NotificationRequest)
unfolding first_lines summary_of
coalesce settings fresh label fingerprint reminder =
    let threshold = max settings.coalesce_threshold 2 in
    if ltb (length fresh) threshold
    then some fresh
    else (elim (first_lines (take max_listed_titles fresh)) [
      | none ↦ none
      | some lines ↦ some (summary_of fresh label fingerprint reminder lines ∷ [])
    ])

unfoldable pub closed : FingerprintState → FingerprintState
closed state = record state {
  episode_open = false;
  polls_active = 0;
  notified_this_episode = false;
  escalated = false;
  first_notified_at = none;
  reminders_sent = 0;
}

-- Is anything left to remember of a closed episode?
unfoldable pub is_warm : ℕ → ℕ → FingerprintState → Bool
is_warm cooldown now state = elim state.last_notified_at [
  | none ↦ false
  | some last ↦ if ltb cooldown (now - last) then false else true
]

unfoldable pub close_states : ℕ → List String → ℕ → Dict FingerprintState → Dict FingerprintState
unfolding closed
close_states cooldown active now [] = []
close_states cooldown active now ((fp, state) ∷ states) =
    let rest = close_states cooldown active now states in
    if has fp active
    then (fp, state) ∷ rest
    else if str_eq fp fp_backend_unreachable
    then (fp, state) ∷ rest
    else if is_warm cooldown now state
    then (fp, closed state) ∷ rest
    else rest

unfoldable pub close_inactive : NotificationPolicy → List String → ℕ → NotificationPolicy
unfolding close_states
close_inactive p active now = record p {
  states = close_states (cooldown p.settings) active now p.states;
}

abbrev pub appended :
    List NotificationRequest → Option NotificationRequest → List NotificationRequest
appended requests none = requests
appended requests (some r) = requests ++ r ∷ []

-- The end of `evaluate`, when both summaries could be built.
unfoldable pub finish :
    NotificationPolicy
    → List String
    → ℕ
    → List NotificationRequest
    → NotificationPolicy × Option (List NotificationRequest)
finish p active now requests =
    let (q, digest) = maybe_flush_digest p now in
    (close_inactive q active now, some (appended requests digest))

unfoldable pub summarise : Gathered → ℕ → NotificationPolicy × Option (List NotificationRequest)
unfolding finish
summarise g now = elim (coalesce g.policy.settings g.fresh "new alerts" fp_coalesced false) [
  | none ↦ (g.policy, none)
  | some fresh ↦
      elim (coalesce g.policy.settings g.reminders "alerts still open" fp_reminder true) [
        | none ↦ (g.policy, none)
        | some reminders ↦ finish g.policy g.active now (fresh ++ (reminders ++ g.requests))
      ]
]

unfoldable pub evaluate :
    NotificationPolicy
    → List AlertInfo
    → Quiet
    → ℕ
    → NotificationPolicy × Option (List NotificationRequest)
unfolding summarise
evaluate p alerts quiet now =
    if not p.settings.enabled then (p, some []) else summarise (gather p alerts quiet now) now
