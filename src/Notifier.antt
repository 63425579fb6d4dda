-- ===== src/Notifier.antt =====
-- sysadmin/monitor/notifier.py: what is posted to the PersonalAssistant, and how often it is tried.
-- The HTTP client is the library's: how each attempt ends is a parameter. A payload's details and
-- sections are of a type that is a parameter too. A sleep is in seconds.
pub mod Posts
use sysadmin_assistant.Shared.{
  ℕ, zero, suc, ◌+◌, ◌*◌, String, Bool, true, false, not, Option, none, some, List, [], ◌∷◌, ltb,
  if◌then◌else◌,
}
use sysadmin_assistant.Shared.Text.{concat}
use sysadmin_assistant.Shared.Dict.{Dict, lookup}
use sysadmin_assistant.Dnd.{DndManager, should_suppress}

abbrev pub max_retries : ℕ
max_retries = 3

-- `INITIAL_BACKOFF_S`
abbrev pub initial_backoff : ℕ
initial_backoff = 1

-- The `severity_levels` of `send_notification`.
abbrev pub severity_levels : Dict ℕ
severity_levels = ("info", 0) ∷ ("warning", 1) ∷ ("critical", 2) ∷ []

pub record PersonalAssistantConfig : Type 0 where
  pub enabled : Bool
  pub url : String
  pub notify_endpoint : String
  pub briefing_endpoint : String

pub record PaNotifyConfig : Type 0 where
  pub enabled : Bool
  pub min_severity : String

pub record Config : Type 0 where
  pub personal_assistant : PersonalAssistantConfig
  pub pa_notify : PaNotifyConfig

-- How an attempt ends: with a status, with a ConnectError or a TimeoutException, or with another
-- exception.
pub data Attempt : Type 0 where
  status : ℕ → Attempt
  unreachable error : Attempt

-- What is sent: a notification with its priority, title, message and details, or a briefing.
pub data Payload (D : Type 0) : Type 0 where
  notification : String → String → String → D → Payload D
  briefing : List D → Payload D

pub data Effect (D : Type 0) : Type 0 where
  post : String → Payload D → Effect D
  sleep : ℕ → Effect D

-- `severity_levels.get(severity, 0)`
unfoldable pub level : String → ℕ
unfolding lookup
level severity = elim (lookup severity severity_levels) [ none ↦ 0 | some n ↦ n ]

module _ {D : Type 0} where
  -- `if attempt < MAX_RETRIES - 1: await asyncio.sleep(backoff)`
  sleep_before : ℕ → ℕ → List (Effect D) → List (Effect D)
  sleep_before zero backoff rest = rest
  sleep_before (suc left) backoff rest = sleep backoff ∷ rest

  -- One attempt with so many left after it; `later` is the rest of the loop.
  after_attempt : ℕ → ℕ → Attempt → Bool × List (Effect D) → Bool × List (Effect D)
  unfolding sleep_before
  after_attempt left backoff (status code) later =
      if ltb code 400 then (true, []) else (later.0, sleep_before left backoff later.1)
  after_attempt left backoff unreachable later = (later.0, sleep_before left backoff later.1)
  after_attempt left backoff error later = (false, [])

  -- The loop, with so many attempts left.
  post_from : (ℕ → Attempt) → ℕ → ℕ → ℕ → String → Payload D → Bool × List (Effect D)
  unfolding after_attempt
  post_from attempts zero number backoff url payload = (false, [])
  post_from attempts (suc left) number backoff url payload =
      let later = post_from attempts left (suc number) (backoff * 2) url payload in
      let (delivered, effects) = after_attempt left backoff (attempts number) later in
      (delivered, post url payload ∷ effects)

  -- `_post_with_retry`
  unfoldable pub post_with_retry : (ℕ → Attempt) → String → Payload D → Bool × List (Effect D)
  unfolding post_from
  post_with_retry attempts url payload =
      post_from attempts max_retries 0 initial_backoff url payload

  -- `details or {}`
  unfoldable pub details_or : D → Option D → D
  details_or empty none = empty
  details_or empty (some details) = details

  -- `send_notification`, at a time of day.
  unfoldable pub send_notification :
      DndManager
      → Config
      → (ℕ → Attempt)
      → D
      → ℕ
      → String
      → String
      → String
      → Option D
      → Option (Bool × List (Effect D))
  unfolding details_or
  send_notification manager config attempts empty now urgency title message details =
      elim (should_suppress manager urgency now) [
        | none ↦ none
        | some suppressed ↦ some (
            if suppressed
            then (false, [])
            else if not config.personal_assistant.enabled
            then (false, [])
            else if not config.pa_notify.enabled
            then (false, [])
            else if ltb (level urgency) (level config.pa_notify.min_severity)
            then (false, [])
            else post_with_retry attempts
                (concat
                  (config.personal_assistant.url ∷ config.personal_assistant.notify_endpoint ∷ []))
                (notification urgency title message (details_or empty details)))
      ]

  -- `send_briefing_data`
  unfoldable pub send_briefing_data : Config → (ℕ → Attempt) → List D → Bool × List (Effect D)
  send_briefing_data config attempts sections =
      if not config.personal_assistant.enabled
      then (false, [])
      else post_with_retry attempts
          (concat
            (config.personal_assistant.url ∷ config.personal_assistant.briefing_endpoint ∷ []))
          (briefing sections)
