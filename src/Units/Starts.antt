-- ===== src/Units/Starts.antt =====
-- The starts of a unit that fails at once, one after the other, against its start limit.
use sysadmin_assistant.Shared.{
  ℕ, zero, suc, ◌+◌, ◌-◌, ◌*◌, ◌≤◌, ◌≡◌, refl, sym, ap, ◌∙◌, String, Bool, true, false, ◌&&◌, ◌||◌,
  Option, List, [], ◌∷◌, ltb, ◌==◌, if◌then◌else◌, arith,
}
use sysadmin_assistant.Units.{
  ℤ, pos, negsuc, Span, span, infinity, default_start_limit_interval, default_start_limit_burst,
  default_restart_sec, or_default, limit_reached, stays_down, restart_is_bounded,
}

-- The times of so many starts, the first one at `time`, each a restart's delay behind the one before.
abbrev pub starts : ℕ → ℕ → ℕ → List ℕ
starts time delay zero = []
starts time delay (suc n) = time ∷ starts (time + delay) delay n

-- Do all of them lie inside the window, which opens at 0?
abbrev pub all_inside : Span → List ℕ → Bool
all_inside infinity times = true
all_inside (span interval) [] = true
all_inside (span interval) (time ∷ times) = ltb time interval && all_inside (span interval) times

-- Does a unit that always fails use up its burst inside the window? A unit with an endless delay does
-- not start again, and a limit without starts or without a window is turned off.
abbrev pub uses_up : Span → Span → ℤ → Bool
uses_up infinity interval burst = false
uses_up (span delay) interval (negsuc n) = false
uses_up (span delay) interval (pos zero) = false
uses_up (span delay) interval (pos (suc n)) = all_inside interval (starts 0 delay (suc n))

both_inside :
    (early late interval : ℕ)
    → early ≤ late
    → (ltb early interval && ltb late interval) ≡ ltb late interval
both_inside early late interval h = ground arith

shifted : (time delay n : ℕ) → time + delay + delay * n ≡ time + delay * suc n
shifted time delay n = omega arith

later : (time delay n : ℕ) → time ≤ time + delay + delay * n
later time delay n = omega arith

last_inside :
    (interval time delay n : ℕ)
    → all_inside (span interval) (starts time delay (suc n)) ≡ ltb (time + delay * n) interval
last_inside interval time delay zero = ground arith
last_inside interval time delay (suc n) =
    ap (λ b. ltb time interval && b) (last_inside interval (time + delay) delay n)
    ∙ both_inside time (time + delay + delay * n) interval (later time delay n)
    ∙ ap (λ t. ltb t interval) (shifted time delay n)

guards_pass :
    (interval n : ℕ) (within : Bool)
    → (if suc interval == 0 || suc (suc n) == 0
        then false
        else if suc (suc n) == 1
        then true
        else within)
      ≡ within
guards_pass interval n within = ground arith

minus_one : (n : ℕ) → suc (suc n) - 1 ≡ suc n
minus_one n = omega arith

from_zero : (n : ℕ) → n ≡ 0 + n
from_zero n = omega arith

last_start : (delay n : ℕ) → delay * (suc (suc n) - 1) ≡ 0 + delay * suc n
last_start delay n = ap (λ k. delay * k) (minus_one n) ∙ from_zero (delay * suc n)

limit_reached_lem :
    (cadence interval : Span) (burst : ℤ)
    → limit_reached cadence interval burst ≡ uses_up cadence interval burst
unfolding limit_reached
limit_reached_lem infinity interval burst = ground arith
limit_reached_lem (span delay) interval (negsuc n) = ground arith
limit_reached_lem (span delay) interval (pos zero) = ground arith
limit_reached_lem (span delay) infinity (pos (suc n)) = ground arith
limit_reached_lem (span delay) (span zero) (pos (suc n)) = refl
limit_reached_lem (span delay) (span (suc interval)) (pos (suc zero)) = ground arith
limit_reached_lem (span delay) (span (suc interval)) (pos (suc (suc n))) =
    guards_pass interval n _
    ∙ ap (λ t. ltb t (suc interval)) (last_start delay n)
    ∙ sym (last_inside (suc interval) 0 delay (suc n))

if_or : (b : Bool) {c d : Bool} → c ≡ d → (if b then true else c) ≡ (b || d)
if_or true h = refl
if_or false h = h

-- A unit's restarts are said to end exactly where `Restart=` asks for none or where the unit, failing
-- at once at each start, has as many starts as its burst inside the window of its start limit, with
-- systemd's defaults for what it leaves out and for what cannot be read.
pub restart_is_bounded_starts :
    (restart : Option String) (restart_sec interval : Option Span) (burst : Option ℤ)
    → restart_is_bounded restart restart_sec interval burst ≡ (
        stays_down restart
        || uses_up
            (or_default default_restart_sec restart_sec)
            (or_default default_start_limit_interval interval)
            (or_default default_start_limit_burst burst))
unfolding restart_is_bounded
restart_is_bounded_starts restart restart_sec interval burst = if_or (stays_down restart) (
    limit_reached_lem (or_default default_restart_sec restart_sec)
      (or_default default_start_limit_interval interval)
      (or_default default_start_limit_burst burst))
