-- ===== src/Watch/Entry.antt =====
-- What the two families read of a self-report entry, and the order of their alerts.
use Prim.Native.Nat.{Ordering}
use Prim.Native.String.{compare}
use sysadmin_assistant.Shared.{
  ℕ, String, Bool, true, false, Option, none, some, not, str_eq, if◌then◌else◌,
}
use sysadmin_assistant.Escalation.{Datetime}

pub record Entry : Type 0 where
  pub name : Option String
  pub enabled : Bool
  pub stalled : Bool
  pub consecutive_failures : Option ℕ
  pub last_error : Option String
  pub last_run_at : Option String
  pub stall_reason : Option String
  pub seconds_since_last_run : Option ℕ
  pub interval_seconds : Option ℕ

-- The unresolved row of a fault.
pub record OpenRow : Type 0 where
  pub alert_id : ℕ
  pub severity : String
  pub created_at : Datetime

-- `not name`
unfoldable pub no_name : Option String → Bool
no_name none = true
no_name (some s) = str_eq s ""

abbrev pub name_of : Option String → String
name_of none = ""
name_of (some s) = s

-- An optional text inside an f-string.
abbrev pub shown : Option String → String
shown none = "None"
shown (some s) = s

-- The order of the keys `(severity != "critical", name)`.
unfoldable pub less_key : String → String → String → String → Bool
less_key severity name severity' name' =
    let quiet = not (str_eq severity "critical") in
    let quiet' = not (str_eq severity' "critical") in
    let earlier : Bool = elim (compare name name') [ Ordering.lt ↦ true | _ ↦ false ] in
    if quiet then (if quiet' then earlier else false) else (if quiet' then true else earlier)
