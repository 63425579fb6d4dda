-- ===== src/Tests/Units.antt =====
-- Start limits, on two units of a real host.
use sysadmin_assistant.Shared.{true, false, ◌≡◌, refl, ◌||◌, none, some, str_eq}
use sysadmin_assistant.Shared.Text.{lower, rstrip, lstrip, is_space}
use sysadmin_assistant.Units.{
  pos, negsuc, span, infinity, default_start_limit_burst, restart_is_bounded, stays_down,
  limit_reached,
}
use sysadmin_assistant.Units.Starts.{uses_up, restart_is_bounded_starts}

-- By default five starts are over at once; ten seconds apart they never fall inside ten seconds; a
-- burst below one turns the limit off.
restarts_test :
    (restart_is_bounded (some "always") none none none ≡ true)
    × (restart_is_bounded (some "always") (some (span 10_000_000)) none none ≡ false)
    × (restart_is_bounded (some "on-failure") none (some infinity) (some (negsuc 0)) ≡ false)
    × (restart_is_bounded (some " No ") none none (some (pos 0)) ≡ true)
unfolding restart_is_bounded stays_down limit_reached str_eq lower rstrip lstrip is_space
restarts_test = (refl, refl, refl, refl)

restart_is_bounded_starts_example :
    restart_is_bounded (some " Always ") (some (span 10_000_000)) (some (span 600_000_000)) none ≡ (
      stays_down (some " Always ")
      || uses_up (span 10_000_000) (span 600_000_000) default_start_limit_burst)
restart_is_bounded_starts_example =
    restart_is_bounded_starts (some " Always ") (some (span 10_000_000)) (some (span 600_000_000))
      none
