-- ===== src/Reliability/Unmeasured.antt =====
-- A check that measured nothing costs a service no points.
use sysadmin_assistant.Shared.{
  ℕ, ◌-◌, ◌*◌, ◌≡◌, refl, sym, ap, ◌∙◌, String, Bool, true, false, Option, none, some, List, [],
  ◌∷◌, ◌&&◌, not, str_eq, keep, length, ltb, leb, if◌then◌else◌, arith,
}
use sysadmin_assistant.Shared.Sort.{sort_by}
use sysadmin_assistant.Shared.Sort.Order.{by_key, keep-sort_by}
use sysadmin_assistant.Reliability.{
  HealthPoint, Deduction, ReliabilityScore, new_score, is_measured,
}
use sysadmin_assistant.Reliability.Score.{
  day, confidence_of, deductions_of, downtime_deduction, instability_deduction,
}
use sysadmin_assistant.Reliability.Service.{
  inside_window, begin_score, observe, measure, charge, judge, score_inside, score_service,
}

keep-keep {ℓ} :
    {A : Type ℓ} (p q : A → Bool) (xs : List A) → keep p (keep q xs) ≡ keep q (keep p xs)
keep-keep p q [] = refl
keep-keep p q (x ∷ xs) = ground (arith, keep-keep p q xs)

keep_idem {ℓ} : {A : Type ℓ} (p : A → Bool) (xs : List A) → keep p (keep p xs) ≡ keep p xs
keep_idem p [] = refl
keep_idem p (x ∷ xs) = ground (arith, keep_idem p xs)

-- Does the check say anything of the service?
abbrev pub has_evidence : HealthPoint → Bool
has_evidence p = not (str_eq p.status "error") && not (str_eq p.status "skipped")

is_measured-has_evidence : (p : HealthPoint) → is_measured p ≡ has_evidence p
unfolding is_measured
is_measured-has_evidence p = ground arith

keep-has_evidence : (points : List HealthPoint) → keep is_measured points ≡ keep has_evidence points
keep-has_evidence [] = refl
keep-has_evidence (p ∷ ps) = cc (is_measured-has_evidence p, keep-has_evidence ps)

-- Dropping the checks that measured nothing and taking the window are done in either order.
inside_window-measured :
    (start : ℕ) (points : List HealthPoint)
    → inside_window start (keep is_measured points) ≡ keep is_measured (inside_window start points)
unfolding inside_window
inside_window-measured start points =
    ap (sort_by (by_key (λ p. p.checked_at)))
      (keep-keep (λ p. leb start p.checked_at) is_measured points)
    ∙ sym (keep-sort_by (λ p. p.checked_at) is_measured (keep (λ p. leb start p.checked_at) points))

-- What a score says of the service itself.
abbrev pub verdict : ReliabilityScore → ℕ × String × ℕ × ℕ × List Deduction
verdict r = (r.score, r.grade, r.uptime_percent, r.waived_points, r.deductions)

abbrev pub verdict_of : Option ReliabilityScore → Option (ℕ × String × ℕ × ℕ × List Deduction)
verdict_of none = none
verdict_of (some r) = some (verdict r)

verdict_of_if :
    (b : Bool) (x y : ReliabilityScore)
    → verdict x ≡ verdict y
    → verdict_of (if b then none else some x) ≡ verdict_of (if b then none else some y)
verdict_of_if true x y h = refl
verdict_of_if false x y h = ap some h

module _ (format_g : ℕ → ℕ → String) (muted : Bool) (bands : ℕ × ℕ × ℕ) where
  -- The verdict from the measured checks alone.
  judged : List HealthPoint → ℕ × String × ℕ × ℕ × List Deduction
  judged measured = verdict (
      judge format_g (record (new_score "") { checks_measured = length measured }) measured muted
        bands)

  module _ (service : String) (days interval start : ℕ) where
    judge-verdict :
        (inside : List HealthPoint) (p : HealthPoint) (ps measured : List HealthPoint)
        → let observed = observe (begin_score service days interval start muted inside) p ps in
          verdict (judge format_g observed measured muted bands)
          ≡ verdict (
              judge format_g
                (record (new_score "") { checks_measured = observed.checks_measured })
                measured
                muted
                bands)
    unfolding begin_score observe judge charge measure new_score confidence_of deductions_of
        downtime_deduction instability_deduction
    judge-verdict inside p ps [] = refl
    judge-verdict inside p ps (q ∷ qs) = refl

    score_inside-verdict :
        (all inside : List HealthPoint)
        → verdict (
            score_inside format_g
              (begin_score service days interval start muted all)
              inside
              muted
              bands)
          ≡ judged (keep is_measured inside)
    unfolding score_inside observe judged judge begin_score new_score
    score_inside-verdict all [] = refl
    score_inside-verdict all (p ∷ ps) = judge-verdict all p ps (keep is_measured (p ∷ ps))

  drop_unmeasured :
      (service : String) (points : List HealthPoint) (window_days interval now : ℕ)
      → verdict_of (score_service format_g service points window_days interval now muted bands)
        ≡ verdict_of (
            score_service format_g service
              (keep is_measured points)
              window_days
              interval
              now
              muted
              bands)
  unfolding score_service
  drop_unmeasured service points window_days interval now =
      let start = now - window_days * day in
      let inside = inside_window start points in
      let fewer = inside_window start (keep is_measured points) in
      verdict_of_if (ltb now (window_days * day)) _ _ (
        score_inside-verdict service window_days interval start inside inside
        ∙ ap judged (
            sym (
              ap (keep is_measured) (inside_window-measured start points)
              ∙ keep_idem is_measured inside))
        ∙ sym (score_inside-verdict service window_days interval start fewer fewer))

  -- Checks whose status is `error`, because the check failed, or `skipped`, because the service is
  -- declared unmonitored, change neither the score nor the grade, the uptime, the waived points and the
  -- deductions: with them left out, these are the same, and the service can be scored exactly when it
  -- can with them.
  pub score_service_unmeasured :
      (service : String) (points : List HealthPoint) (window_days interval now : ℕ)
      → verdict_of (score_service format_g service points window_days interval now muted bands)
        ≡ verdict_of (
            score_service format_g service
              (keep has_evidence points)
              window_days
              interval
              now
              muted
              bands)
  score_service_unmeasured service points window_days interval now =
      drop_unmeasured service points window_days interval now
      ∙ ap
          (λ ps.
            verdict_of (score_service format_g service ps window_days interval now muted bands))
          (keep-has_evidence points)
