-- ===== src/FailureReplay/Waiting.antt =====
-- How long the notification server is waited for.
use sysadmin_assistant.Shared.{
  ℕ, zero, suc, ◌+◌, ◌≤◌, ◌<◌, ◌≡◌, ◌⊎◌, inl, inr, refl, sym, ap, subst, String, Bool, true, false,
  ◌&&◌, not, Option, some, ltb, ltb→lt, not_ltb→ge, both_true, ◌==◌, if◌then◌else◌, Bool-cases,
  arith,
}
use sysadmin_assistant.FailureReplay.{
  server_present, Run, ask_notification_server, wait_from, wait_for_notification_server,
}

module _ (guard : String) (runs : ℕ → Run) (clock : ℕ → ℕ) where
  -- Does the question of this number find a server?
  abbrev pub finds : ℕ → Bool
  finds n = (ask_notification_server guard (runs n)).0 == server_present

  -- The wait ends with the question of number `last`, which is the first one or follows a pause that
  -- began before the deadline; it found the server, or the clock then read the deadline or later.
  abbrev pub EndsWith : ℕ → ℕ → ℕ → Option (Bool × String × ℕ) → Type 0
  EndsWith first deadline last result =
      (result ≡ some (finds last, (ask_notification_server guard (runs last)).1, suc last))
      × ((last ≡ first) ⊎ (clock last < deadline))
      × ((finds last ≡ true) ⊎ (deadline ≤ clock (suc last)))

  stopped :
      (heard : Bool) (reading deadline : ℕ)
      → (not heard && ltb reading deadline) ≡ false
      → (heard ≡ true) ⊎ (deadline ≤ reading)
  stopped true reading deadline h = inl refl
  stopped false reading deadline h = inr (not_ltb→ge reading deadline h)

  one_more :
      (first deadline last : ℕ) (result : Option (Bool × String × ℕ))
      → clock (suc first) < deadline
      → EndsWith (suc first) deadline last result
      → EndsWith first deadline last result
  one_more first deadline last result early (same, inl next, over) =
      (same, inr (subst (λ n. clock n < deadline) (sym next) early), over)
  one_more first deadline last result early (same, inr before, over) = (same, inr before, over)

  -- Is another question asked behind the one of this number?
  abbrev goes_on : ℕ → ℕ → Bool
  goes_on first deadline = not (finds first) && ltb (clock (suc first)) deadline

  ends_here :
      (fuel deadline first : ℕ)
      → goes_on first deadline ≡ false
      → EndsWith first deadline first (
          wait_from guard runs clock
            (suc fuel)
            deadline
            (suc first)
            (ask_notification_server guard (runs first)))
  unfolding wait_from
  ends_here fuel deadline first h = (
    ap
        (λ b.
          if b
          then wait_from guard runs clock fuel deadline (suc (suc first))
              (ask_notification_server guard (runs (suc first)))
          else some (finds first, (ask_notification_server guard (runs first)).1, suc first))
        h,
    inl refl,
    stopped (finds first) (clock (suc first)) deadline h,
  )

  module _ (advances : (n : ℕ) → clock (suc n) < clock (suc (suc n))) where
    wait_from-EndsWith :
        (fuel deadline first : ℕ)
        → deadline ≤ clock (suc first) + fuel
        → (last : ℕ) × EndsWith first deadline last (
            wait_from guard runs clock
              (suc fuel)
              deadline
              (suc first)
              (ask_notification_server guard (runs first)))
    unfolding wait_from
    wait_from-EndsWith zero deadline first enough = elim (Bool-cases (goes_on first deadline)) [
      | inl go ↦ absurd (
          omega (
            arith,
            enough,
            ltb→lt (clock (suc first)) deadline
                (both_true (not (finds first)) (ltb (clock (suc first)) deadline) go).1,
          ))
      | inr stop ↦ (first, ends_here 0 deadline first stop)
    ]
    wait_from-EndsWith (suc fuel) deadline first enough =
        elim (Bool-cases (goes_on first deadline)) [
          | inl go ↦
              (let early =
                  ltb→lt (clock (suc first)) deadline
                    (both_true (not (finds first)) (ltb (clock (suc first)) deadline) go).1 in
                let (last, ended) =
                  wait_from-EndsWith fuel deadline (suc first)
                    (omega (arith, enough, advances first)) in
                (last, rw go (one_more first deadline last _ early ended)))
          | inr stop ↦ (first, ends_here (suc fuel) deadline first stop)
        ]

    -- Where the clock gains with each pause, the wait comes to an end, in as many rounds as the budget
    -- has units and one more: its last question is the first one or follows a pause that began before
    -- the deadline, and either found the server, which is the answer, or the deadline was reached
    -- after it.
    pub wait_for_notification_server-EndsWith :
        (budget : ℕ)
        → clock 0 ≤ clock 1
        → (last : ℕ) × EndsWith 0
            (clock 0 + budget)
            last
            (wait_for_notification_server guard runs clock (suc budget) budget)
    unfolding wait_for_notification_server
    wait_for_notification_server-EndsWith budget starts =
        wait_from-EndsWith budget (clock 0 + budget) 0 (omega (arith, starts))
