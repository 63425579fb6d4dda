-- ===== src/Notifier/Posts.antt =====
-- What the notifier posts, against the attempts and the configuration.
use sysadmin_assistant.Shared.{
  ℕ, zero, suc, ◌+◌, ◌*◌, ◌≡◌, refl, ap, ◌∙◌, String, Bool, true, false, not, ◌&&◌, Option, some,
  List, [], ◌∷◌, ltb, leb, if◌then◌else◌, min, Bool-cases, inl, inr, arith,
}
use sysadmin_assistant.Shared.Text.{concat}
use sysadmin_assistant.Dnd.{DndManager, should_suppress}
use sysadmin_assistant.Notifier.{
  Config, Attempt, status, unreachable, error, Payload, notification, Effect, post, sleep, level,
  sleep_before, after_attempt, post_from, post_with_retry, send_notification, details_or,
}

-- Is the attempt one that is made again?
abbrev pub is_retried : Attempt → Bool
is_retried (status code) = not (ltb code 400)
is_retried unreachable = true
is_retried error = false

abbrev pub is_delivered : Attempt → Bool
is_delivered (status code) = ltb code 400
is_delivered unreachable = false
is_delivered error = false

-- The number of attempts at the front that are made again, of so many from the given one on.
abbrev pub retried : (ℕ → Attempt) → ℕ → ℕ → ℕ
retried attempts zero number = 0
retried attempts (suc n) number =
    if is_retried (attempts number) then suc (retried attempts n (suc number)) else 0

one_later :
    (attempts : ℕ → Attempt) (n number r : ℕ)
    → (ltb r n && is_delivered (attempts (suc number + r)))
      ≡ (ltb (suc r) (suc n) && is_delivered (attempts (number + suc r)))
one_later attempts n number r =
    let same : ltb r n ≡ ltb (suc r) (suc n) = ground arith in
    let next : suc number + r ≡ number + suc r = omega arith in
    ap (λ b. b && is_delivered (attempts (suc number + r))) same
    ∙ ap (λ m. ltb (suc r) (suc n) && is_delivered (attempts m)) next

at_once :
    (attempts : ℕ → Attempt) (n number : ℕ)
    → is_delivered (attempts number) ≡ (ltb 0 (suc n) && is_delivered (attempts (number + 0)))
at_once attempts n number =
    let first : true ≡ ltb 0 (suc n) = ground arith in
    let same : number ≡ number + 0 = omega arith in
    ap (λ b. b && is_delivered (attempts number)) first
    ∙ ap (λ m. ltb 0 (suc n) && is_delivered (attempts m)) same

min-suc : (n m : ℕ) → min (suc n) (suc m) ≡ suc (min n m)
min-suc n m = ground arith

both_left : (n m : ℕ) → suc (suc (min n m)) ≡ min (suc (suc n)) (suc (suc m))
both_left n m = ground arith

one_left : (n : ℕ) → 1 ≡ min (suc n) 1
one_left n = ground arith

none_left : (m : ℕ) → min 0 m ≡ 0
none_left m = ground arith

last_left : (m : ℕ) → 1 ≡ min 1 (suc m)
last_left m = ground arith

module _ {D : Type 0} where
  -- So many posts, with a pause between each and the next, the first one given and each twice the
  -- one before.
  abbrev pub rounds : ℕ → ℕ → String → Payload D → List (Effect D)
  rounds zero pause url payload = []
  rounds (suc zero) pause url payload = post url payload ∷ []
  rounds (suc (suc n)) pause url payload =
      post url payload ∷ sleep pause ∷ rounds (suc n) (pause * 2) url payload

  -- What one attempt adds to the rest of the loop.
  after_attempt_effects :
      (left backoff : ℕ) (a : Attempt) (later : Bool × List (Effect D))
      → (after_attempt left backoff a later).1
        ≡ (if is_retried a then sleep_before left backoff later.1 else [])
  unfolding after_attempt
  after_attempt_effects left backoff (status code) later = ground arith
  after_attempt_effects left backoff unreachable later = refl
  after_attempt_effects left backoff error later = refl

  after_attempt_delivered :
      (left backoff : ℕ) (a : Attempt) (later : Bool × List (Effect D))
      → (after_attempt left backoff a later).0 ≡ (if is_retried a then later.0 else is_delivered a)
  unfolding after_attempt
  after_attempt_delivered left backoff (status code) later = ground arith
  after_attempt_delivered left backoff unreachable later = refl
  after_attempt_delivered left backoff error later = refl

  module _ (attempts : ℕ → Attempt) (url : String) (payload : Payload D) where
    next_round :
        (n again backoff : ℕ) (settled : Bool) (later : List (Effect D))
        → later ≡ rounds (min n (suc again)) (backoff * 2) url payload
        → post url payload ∷ (if settled then sleep_before n backoff later else [])
          ≡ rounds (min (suc n) (suc (if settled then suc again else 0))) backoff url payload
    unfolding sleep_before
    next_round n again backoff false later h = ap (λ k. rounds k backoff url payload) (one_left n)
    next_round zero again backoff true later h =
        ap (λ e. post url payload ∷ e)
          (h ∙ ap (λ k. rounds k (backoff * 2) url payload) (none_left (suc again)))
        ∙ ap (λ k. rounds k backoff url payload) (last_left (suc again))
    next_round (suc n) again backoff true later h =
        ap (λ e. post url payload ∷ sleep backoff ∷ e)
          (h ∙ ap (λ k. rounds k (backoff * 2) url payload) (min-suc n again))
        ∙ ap (λ k. rounds k backoff url payload) (both_left n again)

    post_from-rounds :
        (n number backoff : ℕ)
        → (post_from attempts n number backoff url payload).1
          ≡ rounds (min n (suc (retried attempts n number))) backoff url payload
    unfolding post_from
    post_from-rounds zero number backoff = refl
    post_from-rounds (suc n) number backoff =
        let later = post_from attempts n (suc number) (backoff * 2) url payload in
        ap (λ e. post url payload ∷ e) (after_attempt_effects n backoff (attempts number) later)
        ∙ next_round n (retried attempts n (suc number)) backoff (is_retried (attempts number))
            later.1 (post_from-rounds n (suc number) (backoff * 2))

    post_from_delivered :
        (n number backoff : ℕ)
        → (post_from attempts n number backoff url payload).0 ≡ (
            ltb (retried attempts n number) n
            && is_delivered (attempts (number + retried attempts n number)))
    unfolding post_from
    post_from_delivered zero number backoff = ground arith
    post_from_delivered (suc n) number backoff =
        after_attempt_delivered n backoff (attempts number)
          (post_from attempts n (suc number) (backoff * 2) url payload)
        ∙ elim (Bool-cases (is_retried (attempts number))) [
          | inl again ↦ rw again (
              post_from_delivered n (suc number) (backoff * 2)
              ∙ one_later attempts n number (retried attempts n (suc number)))
          | inr settled ↦ rw settled (at_once attempts n number)
        ]

    -- An attempt is made again after a connection error, a timeout or a status of 400 or above. A
    -- payload is posted once more than there are such attempts at the front, and three times at most,
    -- with a pause of one second before the second post and of two before the third, and nothing else
    -- is done. It is delivered exactly when the first other attempt is among the first three and
    -- answers below 400.
    pub post_with_retry-attempts :
        let again = retried attempts 3 0 in
        let (delivered, effects) = post_with_retry attempts url payload in
        (effects ≡ rounds (min 3 (suc again)) 1 url payload)
        × (delivered ≡ (ltb again 3 && is_delivered (attempts again)))
    unfolding post_with_retry
    post_with_retry-attempts =
        let again = retried attempts 3 0 in
        let same : 0 + again ≡ again = omega arith in
        (
          post_from-rounds 3 0 1,
          post_from_delivered 3 0 1 ∙ ap (λ m. ltb again 3 && is_delivered (attempts m)) same,
        )

-- Nothing is suppressed or switched off, and the urgency reaches the threshold.
abbrev pub is_sent : Bool → Config → String → Bool
is_sent suppressed config urgency =
    not suppressed
    && config.personal_assistant.enabled
    && config.pa_notify.enabled
    && leb (level config.pa_notify.min_severity) (level urgency)

gated {ℓ} :
    {A : Type ℓ} (suppressed on notify : Bool) (rung floor : ℕ) (x y : A)
    → (if suppressed
        then y
        else if not on
        then y
        else if not notify
        then y
        else if ltb rung floor
        then y
        else x)
      ≡ (if not suppressed && on && notify && leb floor rung then x else y)
gated suppressed on notify rung floor x y = ground arith

-- Where the schedule can be read, a notification is posted exactly when do-not-disturb does not
-- suppress its urgency, the integration and its notifications are enabled, and its urgency is not below
-- the configured severity; otherwise nothing is posted and it counts as not delivered.
pub send_notification_gates :
    {D : Type 0} (manager : DndManager) (config : Config) (attempts : ℕ → Attempt) (empty : D)
    (now : ℕ) (urgency title message : String) (details : Option D) (suppressed : Bool)
    → should_suppress manager urgency now ≡ some suppressed
    → send_notification manager config attempts empty now urgency title message details
      ≡ some (
          if is_sent suppressed config urgency
          then post_with_retry attempts
              (concat
                (config.personal_assistant.url ∷ config.personal_assistant.notify_endpoint ∷ []))
              (notification urgency title message (details_or empty details))
          else (false, []))
unfolding send_notification
send_notification_gates manager config attempts empty now urgency title message details suppressed
      h =
    rw (send_notification, h)
      (ap some (
        gated suppressed config.personal_assistant.enabled config.pa_notify.enabled (level urgency)
          (level config.pa_notify.min_severity) _ _))
