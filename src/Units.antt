-- ===== src/Units.antt =====
-- sysadmin/units/scan.py: whether the restarts of a unit ever come to an end. Spans of time are
-- microseconds; an option that cannot be read or is not there is `none`.
pub mod Starts
use sysadmin_assistant.Shared.{
  ℕ, zero, suc, ◌-◌, ◌*◌, String, Bool, true, false, ◌||◌, Option, none, some, ltb, ◌==◌,
  if◌then◌else◌, str_eq,
}
use sysadmin_assistant.Shared.Text.{lower, lstrip, rstrip}

pub data ℤ : Type 0 where
  pos : ℕ → ℤ
  negsuc : ℕ → ℤ

-- What `parse_timespan` reads.
pub data Span : Type 0 where
  span : ℕ → Span
  infinity : Span

abbrev pub default_start_limit_interval : Span
default_start_limit_interval = span 10_000_000

abbrev pub default_start_limit_burst : ℤ
default_start_limit_burst = pos 5

abbrev pub default_restart_sec : Span
default_restart_sec = span 100_000

-- `default if value is None else value`
abbrev pub or_default {ℓ} : {A : Type ℓ} → A → Option A → A
or_default default none = default
or_default default (some value) = value

-- `interval <= 0`
no_window : Span → Bool
no_window (span interval) = interval == 0
no_window infinity = false

-- `burst <= 0`
no_burst : ℤ → Bool
no_burst (pos burst) = burst == 0
no_burst (negsuc n) = true

is_one : ℤ → Bool
is_one (pos burst) = burst == 1
is_one (negsuc n) = false

is_infinite : Span → Bool
is_infinite (span cadence) = false
is_infinite infinity = true

-- `cadence * (burst - 1) < interval`, for a burst of one or more.
burst_within : Span → ℤ → Span → Bool
burst_within (span cadence) (pos burst) (span interval) = ltb (cadence * (burst - 1)) interval
burst_within (span cadence) (pos burst) infinity = true
burst_within _ _ _ = false

-- The part of `restart_is_bounded` behind the defaults.
unfoldable pub limit_reached : Span → Span → ℤ → Bool
unfolding no_window no_burst is_one is_infinite burst_within
limit_reached cadence interval burst =
    if no_window interval || no_burst burst
    then false
    else if is_infinite cadence
    then false
    else if is_one burst
    then true
    else burst_within cadence burst interval

-- Does `Restart=` ask for no restart?
unfoldable pub stays_down : Option String → Bool
stays_down none = true
stays_down (some restart) =
    let text = lower (rstrip (lstrip restart)) in str_eq text "" || str_eq text "no"

-- `restart_is_bounded`
unfoldable pub restart_is_bounded : Option String → Option Span → Option Span → Option ℤ → Bool
restart_is_bounded restart restart_sec start_limit_interval start_limit_burst =
    if stays_down restart
    then true
    else limit_reached (or_default default_restart_sec restart_sec)
        (or_default default_start_limit_interval start_limit_interval)
        (or_default default_start_limit_burst start_limit_burst)
