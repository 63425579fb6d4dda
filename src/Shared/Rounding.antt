-- ===== src/Shared/Rounding.antt =====
-- Python's `round` of a quotient: to the nearest number, a tie to the even one.
use sysadmin_assistant.Shared.{ℕ, ◌+◌, ◌*◌, ◌/◌, ◌%◌, ◌≤◌, ltb, ◌==◌, if◌then◌else◌, arith}

-- `round(n / d)` of a quotient of numbers.
unfoldable pub round_half_even : ℕ → ℕ → ℕ
round_half_even n d =
    if ltb (2 * (n % d)) d
    then n / d
    else if ltb d (2 * (n % d))
    then n / d + 1
    else if (n / d) % 2 == 0
    then n / d
    else n / d + 1

-- What is at most a whole number of hundreds rounds to at most that number.
pub round_half_even-hundreds : (n k : ℕ) → n ≤ k * 100 → round_half_even n 100 ≤ k
unfolding round_half_even
round_half_even-hundreds n k small = ground arith
