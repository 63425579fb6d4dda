-- ===== src/Reliability/Bounds.antt =====
-- The bounds of a score, and that its deductions account for it.
use sysadmin_assistant.Shared.{
  ℕ, ◌+◌, ◌-◌, ◌*◌, ◌≤◌, ◌≡◌, refl, ap, ◌∙◌, subst, guarded-some, String, Bool, true, false, some,
  List, [], ◌∷◌, ◌++◌, keep, ltb, if◌then◌else◌, map, All, All-append, arith,
}
use sysadmin_assistant.Shared.Sort.{insert_sorted, sort_by, All-sort_by}
use sysadmin_assistant.Reliability.{
  HealthPoint, Deduction, ReliabilityScore, new_score, is_measured,
}
use sysadmin_assistant.Reliability.Score.{
  day, sum, larger_deduction, downtime_deduction, instability_deduction, deductions_of,
  applied_points, waived_points_of,
}
use sysadmin_assistant.Reliability.Service.{
  inside_window, begin_score, observe, measure, charge, judge, score_inside, score_service,
}

-- The points of all the deductions.
abbrev pub all_points : List Deduction → ℕ
all_points ds = sum (map (λ d. d.points) ds)

abbrev AllMarked : Bool → List Deduction → Type 0
AllMarked muted ds = All (λ d. d.waived ≡ muted) ds

all_points-append : (xs ys : List Deduction) → all_points (xs ++ ys) ≡ all_points xs + all_points ys
all_points-append [] ys = omega arith
all_points-append (x ∷ xs) ys = omega (arith, all_points-append xs ys)

all_points-insert_sorted :
    (less : Deduction → Deduction → Bool) (x : Deduction) (ys : List Deduction)
    → all_points (insert_sorted less x ys) ≡ x.points + all_points ys
unfolding insert_sorted
all_points-insert_sorted less x [] = refl
all_points-insert_sorted less x (y ∷ ys) = ground (arith, all_points-insert_sorted less x ys)

all_points-sort_by :
    (less : Deduction → Deduction → Bool) (xs : List Deduction)
    → all_points (sort_by less xs) ≡ all_points xs
unfolding sort_by
all_points-sort_by less [] = refl
all_points-sort_by less (x ∷ xs) =
    all_points-insert_sorted less x (sort_by less xs)
    ∙ ap (◌+◌ x.points) (all_points-sort_by less xs)

applied_points-marked :
    (muted : Bool) (ds : List Deduction)
    → AllMarked muted ds
    → applied_points ds ≡ (if muted then 0 else all_points ds)
unfolding applied_points
applied_points-marked true [] marked = refl
applied_points-marked false [] marked = refl
applied_points-marked true (d ∷ ds) marked = rw (marked.0) (applied_points-marked true ds marked.1)
applied_points-marked false (d ∷ ds) marked =
    rw (marked.0) (ap (◌+◌ d.points) (applied_points-marked false ds marked.1))

waived_points_of-marked :
    (muted : Bool) (ds : List Deduction)
    → AllMarked muted ds
    → waived_points_of ds ≡ (if muted then all_points ds else 0)
unfolding waived_points_of
waived_points_of-marked true [] marked = refl
waived_points_of-marked false [] marked = refl
waived_points_of-marked true (d ∷ ds) marked =
    rw (marked.0) (ap (◌+◌ d.points) (waived_points_of-marked true ds marked.1))
waived_points_of-marked false (d ∷ ds) marked =
    rw (marked.0) (waived_points_of-marked false ds marked.1)

AllMarked-append :
    (muted : Bool) (xs ys : List Deduction)
    → AllMarked muted xs
    → AllMarked muted ys
    → AllMarked muted (xs ++ ys)
AllMarked-append muted = All-append (λ d. d.waived ≡ muted)

marked_if :
    (b muted : Bool) (d : Deduction) → d.waived ≡ muted → AllMarked muted (if b then d ∷ [] else [])
marked_if true muted d h = (h, tt)
marked_if false muted d h = tt

charged_if :
    (b : Bool) (n : ℕ) (d : Deduction) → d.points ≤ n → all_points (if b then d ∷ [] else []) ≤ n
charged_if true n d h = omega (arith, h)
charged_if false n d h = omega arith

module _ (format_g : ℕ → ℕ → String) (result : ReliabilityScore) (muted : Bool) where
  downtime_deduction-AllMarked : AllMarked muted (downtime_deduction format_g result muted)
  unfolding downtime_deduction
  downtime_deduction-AllMarked = marked_if _ muted _ refl

  instability_deduction-AllMarked : AllMarked muted (instability_deduction format_g result muted)
  unfolding instability_deduction
  instability_deduction-AllMarked = marked_if _ muted _ refl

  deductions_of-AllMarked : AllMarked muted (deductions_of format_g result muted)
  unfolding deductions_of
  deductions_of-AllMarked =
      All-sort_by larger_deduction (λ d. d.waived ≡ muted)
        (downtime_deduction format_g result muted ++ instability_deduction format_g result muted)
        (AllMarked-append muted (downtime_deduction format_g result muted)
          (instability_deduction format_g result muted) downtime_deduction-AllMarked
          instability_deduction-AllMarked)

  downtime_deduction-bound : all_points (downtime_deduction format_g result muted) ≤ 60
  unfolding downtime_deduction
  downtime_deduction-bound = charged_if _ _ _ (omega arith)

  instability_deduction-bound : all_points (instability_deduction format_g result muted) ≤ 25
  unfolding instability_deduction
  instability_deduction-bound = charged_if _ _ _ (omega arith)

  deductions_of-bound : all_points (deductions_of format_g result muted) ≤ 85
  unfolding deductions_of
  deductions_of-bound = omega (
    arith,
    all_points-sort_by larger_deduction
        (downtime_deduction format_g result muted ++ instability_deduction format_g result muted),
    all_points-append (downtime_deduction format_g result muted)
        (instability_deduction format_g result muted),
    downtime_deduction-bound,
    instability_deduction-bound,
  )

-- The score and the deductions account for the hundred points.
abbrev pub IsAccounted : Bool → ReliabilityScore → Type 0
IsAccounted muted r =
    (r.score + (if muted then 0 else all_points r.deductions) ≡ 100)
    × (r.waived_points ≡ (if muted then all_points r.deductions else 0))
    × (all_points r.deductions ≤ 85)

accounted_for :
    (muted : Bool) (score applied waived total : ℕ)
    → score ≡ 100 - applied
    → applied ≡ (if muted then 0 else total)
    → total ≤ 85
    → score + (if muted then 0 else total) ≡ 100
accounted_for true score applied waived total s a h = omega (arith, s, a, h)
accounted_for false score applied waived total s a h = omega (arith, s, a, h)

module _ (format_g : ℕ → ℕ → String) where
  charge-IsAccounted :
      (result : ReliabilityScore) (muted : Bool) (bands : ℕ × ℕ × ℕ)
      → IsAccounted muted (charge format_g result muted bands)
  unfolding charge
  charge-IsAccounted result muted bands =
      let ds = deductions_of format_g result muted in
      let marked = deductions_of-AllMarked format_g result muted in
      (
        accounted_for muted (100 - applied_points ds) (applied_points ds) (waived_points_of ds)
            (all_points ds) refl (applied_points-marked muted ds marked)
            (deductions_of-bound format_g result muted),
        waived_points_of-marked muted ds marked,
        deductions_of-bound format_g result muted,
      )

  judge-IsAccounted :
      (result : ReliabilityScore) (measured : List HealthPoint) (muted : Bool) (bands : ℕ × ℕ × ℕ)
      → IsAccounted muted result
      → IsAccounted muted (judge format_g result measured muted bands)
  unfolding judge
  judge-IsAccounted result [] muted bands h = h
  judge-IsAccounted result (p ∷ ps) muted bands h =
      charge-IsAccounted (measure result (p ∷ ps)) muted bands

  score_inside-IsAccounted :
      (result : ReliabilityScore) (inside : List HealthPoint) (muted : Bool) (bands : ℕ × ℕ × ℕ)
      → IsAccounted muted result
      → IsAccounted muted (score_inside format_g result inside muted bands)
  unfolding score_inside observe
  score_inside-IsAccounted result [] muted bands h = h
  score_inside-IsAccounted result (p ∷ ps) muted bands h =
      judge-IsAccounted (observe result p ps) (keep is_measured (p ∷ ps)) muted bands h

  begin_score-IsAccounted :
      (service : String) (days interval start : ℕ) (muted : Bool) (inside : List HealthPoint)
      → IsAccounted muted (begin_score service days interval start muted inside)
  unfolding begin_score new_score
  begin_score-IsAccounted service days interval start true inside = (refl, refl, omega arith)
  begin_score-IsAccounted service days interval start false inside = (refl, refl, omega arith)

  -- A service that is scored keeps, of a hundred points, what its deductions leave, which take at most
  -- 85 together; a muted service keeps all hundred, and what it would have lost is reported as waived.
  pub score_service-IsAccounted :
      (service : String) (points : List HealthPoint) (window_days interval now : ℕ) (muted : Bool)
      (bands : ℕ × ℕ × ℕ) (r : ReliabilityScore)
      → score_service format_g service points window_days interval now muted bands ≡ some r
      → IsAccounted muted r
  unfolding score_service
  score_service-IsAccounted service points window_days interval now muted bands r scored =
      let start = now - window_days * day in
      let inside = inside_window start points in
      let begun = begin_score service window_days interval start muted inside in
      subst (IsAccounted muted) ((guarded-some (ltb now (window_days * day)) scored).1) (
        score_inside-IsAccounted begun inside muted bands
          (begin_score-IsAccounted service window_days interval start muted inside))
