-- ===== src/Dnd/Windows.antt =====
-- The windows of the do-not-disturb schedule, against the clock's dial.
use sysadmin_assistant.Shared.{
  ℕ, ◌+◌, ◌-◌, ◌%◌, ◌<◌, String, ◌≡◌, Bool, true, false, Option, none, some, List, [], ◌∷◌, arith,
  leb, str_eq, if◌then◌else◌, All, any, is_some, refl, ap, ◌∙◌, not, ◌&&◌, ◌||◌,
}
use sysadmin_assistant.Escalation.{day}
use sysadmin_assistant.Dnd.{
  DndScheduleWindow, DndManager, parse_time, in_window, scheduled, is_active, should_suppress,
  try_window, time_of, int_of, halves, minutes_part,
}

-- How far a time of day lies behind another, going round the dial.
abbrev pub behind : ℕ → ℕ → ℕ
behind start time = (time + day - start) % day

-- A window is the arc from its start to its end, whether or not it passes midnight: a time is in it
-- exactly when it is no farther behind the start than the end is.
pub in_window_arc :
    (now start end : ℕ)
    → now < day
    → start < day
    → end < day
    → in_window now start end ≡ leb (behind start now) (behind start end)
unfolding in_window
in_window_arc now start end hn hs he = ground arith

time_of-lt : (h m : Option ℕ) (t : ℕ) → time_of h m ≡ some t → t < day
unfolding time_of
time_of-lt none m t e = cc
time_of-lt (some h) none t e = cc
time_of-lt (some h) (some m) t e = ground arith

-- A time that parses is a time of day.
pub parse_time-lt : (hhmm : String) (t : ℕ) → parse_time hhmm ≡ some t → t < day
unfolding parse_time
parse_time-lt hhmm t e = time_of-lt (int_of (halves hhmm).0) (minutes_part (halves hhmm).1) t e

-- Is the time on the window's arc?
abbrev pub on_arc : ℕ → Option ℕ → Option ℕ → Bool
on_arc now none end = false
on_arc now (some start) none = false
on_arc now (some start) (some end) = leb (behind start now) (behind start end)

abbrev pub covers : ℕ → DndScheduleWindow → Bool
covers now w = on_arc now (parse_time w.start) (parse_time w.end)

abbrev pub IsReadable : DndScheduleWindow → Type 0
IsReadable w = (is_some (parse_time w.start) ≡ true) × (is_some (parse_time w.end) ≡ true)

try_arc :
    (now : ℕ) (start end : Option ℕ) (rest : Option Bool)
    → now < day
    → ((t : ℕ) → start ≡ some t → t < day)
    → ((t : ℕ) → end ≡ some t → t < day)
    → is_some start ≡ true
    → is_some end ≡ true
    → try_window now start end rest ≡ (if on_arc now start end then some true else rest)
unfolding try_window
try_arc now none end rest h bs be ps pe = cc
try_arc now (some s) none rest h bs be ps pe = cc
try_arc now (some s) (some e) rest h bs be ps pe =
    ap (λ b. if b then some true else rest) (in_window_arc now s e h (bs s refl) (be e refl))

-- With every window readable, the schedule is on exactly when the time is on some window's arc, or
-- when the configuration's default is.
scheduled_arcs :
    (enabled : Bool) (now : ℕ) (ws : List DndScheduleWindow)
    → now < day
    → All IsReadable ws
    → scheduled enabled now ws ≡ some (if any (covers now) ws then true else enabled)
unfolding scheduled
scheduled_arcs enabled now [] h readable = refl
scheduled_arcs enabled now (w ∷ ws) h readable =
    try_arc now (parse_time w.start) (parse_time w.end) (scheduled enabled now ws) h
      (parse_time-lt w.start) (parse_time-lt w.end) readable.0.0 readable.0.1
    ∙ ground (arith, scheduled_arcs enabled now ws h readable.1)

-- With every window of the schedule readable, a notification at a time of day is suppressed exactly
-- when do-not-disturb is on and the notification is not a critical one that may break through;
-- a manual override decides whether it is on, and without one it is on when the time lies on the
-- arc of some window or the configured default says so.
pub should_suppress_arcs :
    (m : DndManager) (severity : String) (now : ℕ)
    → now < day
    → All IsReadable m.config.schedule
    → should_suppress m severity now
      ≡ some (
          (elim m.manual_override [
            | some forced ↦ forced
            | none ↦ any (covers now) m.config.schedule || m.config.enabled
          ])
          && not (str_eq severity "critical" && m.config.allow_critical))
unfolding should_suppress is_active
should_suppress_arcs m severity now h readable =
    ground (arith, scheduled_arcs m.config.enabled now m.config.schedule h readable)
