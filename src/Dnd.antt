-- ===== src/Dnd.antt =====
-- sysadmin/monitor/dnd.py and the do-not-disturb section of sysadmin/core/config.py: the manager's
-- state, the schedule and the suppression. A time of day is its microseconds since midnight. `none`
-- is the ValueError or IndexError of an ill-formed time; of what Python's `int` accepts, plain
-- digits between blanks are modelled.
pub mod Windows
use Prim.Native.Char.{code}
use Prim.Native.String
use sysadmin_assistant.Shared.{
  ℕ, ◌+◌, ◌-◌, ◌*◌, String, Bool, true, false, ◌&&◌, ◌||◌, not, Option, none, some, List, [], ◌∷◌,
  ltb, leb, ◌==◌, if◌then◌else◌, str_eq,
}
use sysadmin_assistant.Shared.Text.{words}
use sysadmin_assistant.Escalation.{minute, hour}

pub record DndScheduleWindow : Type 0 where
  pub start : String
  pub end : String

pub record DndConfig : Type 0 where
  pub enabled : Bool
  pub schedule : List DndScheduleWindow
  pub allow_critical : Bool

-- The texts before and behind the first colon, where there is one.
halves : String → String × Option String
halves String.[] = ("", none)
halves (String.◌∷◌ c s) =
    let (front, back) = halves s in
    if code c == b':' then ("", some s) else (String.◌∷◌ c front, back)

digits_from : ℕ → String → Option ℕ
digits_from acc String.[] = some acc
digits_from acc (String.◌∷◌ c s) =
    let rest = digits_from (acc * 10 + (code c - b'0')) s in
    if leb b'0' (code c) && leb (code c) b'9' then rest else none

-- `int(text)`
int_of : String → Option ℕ
unfolding digits_from
int_of text = elim (words text) [ [] ↦ none | w ∷ ws ↦ elim ws [ [] ↦ digits_from 0 w | _ ↦ none ] ]

-- `time(hours, minutes)`
time_of : Option ℕ → Option ℕ → Option ℕ
time_of none m = none
time_of (some h) none = none
time_of (some h) (some m) = if ltb h 24 && ltb m 60 then some (h * hour + m * minute) else none

minutes_part : Option String → Option ℕ
unfolding int_of halves
minutes_part none = none
minutes_part (some back) = int_of (halves back).0

unfoldable pub parse_time : String → Option ℕ
unfolding halves int_of time_of minutes_part
parse_time hhmm = let (front, back) = halves hhmm in time_of (int_of front) (minutes_part back)

unfoldable pub in_window : ℕ → ℕ → ℕ → Bool
in_window now_time start end =
    if leb start end
    then leb start now_time && leb now_time end
    else leb start now_time || leb now_time end

pub record DndManager : Type 0 where
  pub manual_override : Option Bool
  pub config : DndConfig

unfoldable pub set_manual_override : DndManager → Option Bool → DndManager
set_manual_override m enabled = record m { manual_override = enabled }

-- One turn of `is_active`'s loop; `rest` is the rest of the method.
try_window : ℕ → Option ℕ → Option ℕ → Option Bool → Option Bool
unfolding in_window
try_window now_time none end rest = none
try_window now_time (some start) none rest = none
try_window now_time (some start) (some end) rest =
    if in_window now_time start end then some true else rest

unfoldable pub scheduled : Bool → ℕ → List DndScheduleWindow → Option Bool
unfolding try_window
scheduled enabled now_time [] = some enabled
scheduled enabled now_time (w ∷ ws) =
    let rest = scheduled enabled now_time ws in
    try_window now_time (parse_time w.start) (parse_time w.end) rest

unfoldable pub is_active : DndManager → ℕ → Option Bool
is_active m now_time = elim m.manual_override [
  | some forced ↦ some forced
  | none ↦ scheduled m.config.enabled now_time m.config.schedule
]

unfoldable pub should_suppress : DndManager → String → ℕ → Option Bool
should_suppress m severity now_time = elim (is_active m now_time) [
  | none ↦ none
  | some active ↦
      if not active
      then some false
      else if str_eq severity "critical" && m.config.allow_critical
      then some false
      else some true
]
