-- ===== src/Reliability/Listing.antt =====
-- The list of the services' scores.
use mathlib.Core.List.{Perm}
use sysadmin_assistant.Shared.{
  ℕ, ◌≤◌, ◌≡◌, subst, String, true, false, Option, some, List, [], ◌∷◌, any, str_eq, ◌>>=◌,
  some_inj, bind-some, arith,
}
use sysadmin_assistant.Shared.Dict.{Dict}
use sysadmin_assistant.Shared.Sort.{sort_by, sort_by-perm}
use sysadmin_assistant.Shared.Sort.Order.{IsRising, sort_by-IsRising}
use sysadmin_assistant.Reliability.{HealthPoint, ReliabilityScore}
use sysadmin_assistant.Reliability.Score.{worse_score}
use sysadmin_assistant.Reliability.Service.{score_service, score_each, score_services}

worse_score-le : (x y : ReliabilityScore) → worse_score x y ≡ true → x.score ≤ y.score
unfolding worse_score
worse_score-le x y h = ground arith

not_worse_score-le : (x y : ReliabilityScore) → worse_score x y ≡ false → y.score ≤ x.score
unfolding worse_score
not_worse_score-le x y h = ground arith

-- The scores are the services' own.
abbrev pub AreScores :
    (String → List HealthPoint → Option ReliabilityScore)
    → Dict (List HealthPoint)
    → List ReliabilityScore
    → Type 0
AreScores score [] [] = Unit
AreScores score [] (r ∷ rs) = ⊥
AreScores score (entry ∷ series) [] = ⊥
AreScores score ((name, points) ∷ series) (r ∷ rs) =
    (score name points ≡ some r) × AreScores score series rs

module _ (format_g : ℕ → ℕ → String) (muted : List String) (days interval now : ℕ)
    (bands : ℕ × ℕ × ℕ) where
  -- The score of one service.
  abbrev pub score_of : String → List HealthPoint → Option ReliabilityScore
  score_of name points =
      score_service format_g name points days interval now (any (str_eq name) muted) bands

  score_each-AreScores :
      (series : Dict (List HealthPoint)) (scores : List ReliabilityScore)
      → score_each format_g series muted days interval now bands ≡ some scores
      → AreScores score_of series scores
  unfolding score_each
  score_each-AreScores [] [] h = tt
  score_each-AreScores [] (r ∷ rs) h = grind (arith, h)
  score_each-AreScores ((name, points) ∷ series) scores h =
      let (r, scored, more) =
        bind-some (score_of name points)
          (λ r.
            score_each format_g series muted days interval now bands >>= λ rest. some (r ∷ rest))
          scores h in
      let (rest, each, same) =
        bind-some (score_each format_g series muted days interval now bands)
          (λ rest. some (r ∷ rest)) scores more in
      subst (AreScores score_of ((name, points) ∷ series)) (some_inj same)
        (scored, score_each-AreScores series rest each)

  -- Where every service can be scored, the list has the score of each service once, and no score in it
  -- is below one that stands before it.
  pub score_services_worst_first :
      (series : Dict (List HealthPoint)) (scores : List ReliabilityScore)
      → score_services format_g series muted days interval now bands ≡ some scores
      → IsRising (λ r. r.score) scores
        × ((each : List ReliabilityScore) × AreScores score_of series each × Perm scores each)
  unfolding score_services
  score_services_worst_first series scores h =
      let (each, scored, same) =
        bind-some (score_each format_g series muted days interval now bands)
          (λ each. some (sort_by worse_score each)) scores h in
      (
        subst (IsRising (λ r. r.score)) (some_inj same)
            (sort_by-IsRising (λ r. r.score) worse_score worse_score-le not_worse_score-le each),
        (
          each,
          score_each-AreScores series each scored,
          subst (λ rs. Perm rs each) (some_inj same) (sort_by-perm worse_score each),
        ),
      )
