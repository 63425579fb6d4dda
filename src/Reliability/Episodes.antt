-- ===== src/Reliability/Episodes.antt =====
-- The outage episodes against an independent reading of the checks: an episode begins at each failing
-- check that follows none, and ends at each that no failing check follows.
use sysadmin_assistant.Shared.{
  ℕ, ◌≡◌, refl, ap, ◌∙◌, Bool, true, false, not, ◌&&◌, none, some, List, [], ◌∷◌, map,
  if◌then◌else◌, Bool-cases, inl, inr,
}
use sysadmin_assistant.Reliability.{
  HealthPoint, is_down, close_episode, start_or, episodes_from, outage_episodes_of,
}

-- The failing checks that come right after one that does not fail, or first.
abbrev pub begins : Bool → List HealthPoint → List ℕ
begins down [] = []
begins down (p ∷ ps) =
    if is_down p && not down then p.checked_at ∷ begins (is_down p) ps else begins (is_down p) ps

abbrev pub head_is_down : List HealthPoint → Bool
head_is_down [] = false
head_is_down (p ∷ ps) = is_down p

-- The failing checks that come right before one that does not fail, or last.
abbrev pub ends : List HealthPoint → List ℕ
ends [] = []
ends (p ∷ ps) = if is_down p && not (head_is_down ps) then p.checked_at ∷ ends ps else ends ps

abbrev pub starts_of : List (ℕ × ℕ) → List ℕ
starts_of = map (λ e. e.0)

abbrev pub ends_of : List (ℕ × ℕ) → List ℕ
ends_of = map (λ e. e.1)

episode_starts :
    (ps : List HealthPoint)
    → ((s l : ℕ) → starts_of (episodes_from (some s) (some l) ps) ≡ s ∷ begins true ps)
      × (starts_of (episodes_from none none ps) ≡ begins false ps)
unfolding episodes_from close_episode start_or
episode_starts [] = (λ s l. refl, refl)
episode_starts (p ∷ ps) =
    let (open_lem, closed) = episode_starts ps in
    elim (Bool-cases (is_down p)) [
      | inl down ↦ rw down (λ s l. open_lem s p.checked_at, open_lem p.checked_at p.checked_at)
      | inr up ↦ rw up (λ s l. ap (◌∷◌ s) closed, closed)
    ]

if_not : (b : Bool) (xs ys : List ℕ) → (if b then xs else ys) ≡ (if not b then ys else xs)
if_not true xs ys = refl
if_not false xs ys = refl

episode_ends :
    (ps : List HealthPoint)
    → ((s l : ℕ)
        → ends_of (episodes_from (some s) (some l) ps)
          ≡ (if head_is_down ps then ends ps else l ∷ ends ps))
      × (ends_of (episodes_from none none ps) ≡ ends ps)
unfolding episodes_from close_episode start_or
episode_ends [] = (λ s l. refl, refl)
episode_ends (p ∷ ps) =
    let (open_lem, closed) = episode_ends ps in
    elim (Bool-cases (is_down p)) [
      | inl down ↦ rw down (
        λ s l.
            open_lem s p.checked_at ∙ if_not (head_is_down ps) (ends ps) (p.checked_at ∷ ends ps),
        open_lem p.checked_at p.checked_at
            ∙ if_not (head_is_down ps) (ends ps) (p.checked_at ∷ ends ps),
      )
      | inr up ↦ rw up (λ s l. ap (◌∷◌ l) closed, closed)
    ]

-- The outage episodes begin at the failing checks that follow no failing check, and end at the failing
-- checks that no failing check follows, in the order of the checks.
pub outage_episodes_of_runs :
    (measured : List HealthPoint)
    → (starts_of (outage_episodes_of measured) ≡ begins false measured)
      × (ends_of (outage_episodes_of measured) ≡ ends measured)
unfolding outage_episodes_of
outage_episodes_of_runs measured = ((episode_starts measured).1, (episode_ends measured).1)
