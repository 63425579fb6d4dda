-- ===== src/Runs/Events/Invariant.antt =====
-- What the state of the runs, their queues and the bus keeps: an announced alert is committed, or stands in
-- a transaction that has not ended.
use sysadmin_assistant.Shared.{
  ℕ, String, ◌≡◌, refl, ap, sym, subst, Bool, true, false, ◌||◌, Option, none, some, List, [], ◌∷◌,
  ◌++◌, arith, any, All, All-append, ◌==◌, if◌then◌else◌, str_eq,
}
use sysadmin_assistant.Shared.Dict.{Dict, lookup, insert, erase, lookup-insert, lookup-erase}
use sysadmin_assistant.Runs.{
  Event, alert_raised, alert_resolved, agent_run, Phase, executing, worked, recorded, Active,
  Process, queue_of, put_run,
}

-- Is the alert among these?
abbrev pub among : List ℕ → ℕ → Bool
among xs id = any (λ x. x == id) xs

-- An event that announces an alert announces one of these.
abbrev pub IsOf : List ℕ → Event → Type 0
IsOf alerts (alert_raised id severity title) = among alerts id ≡ true
IsOf alerts (alert_resolved agent title n) = Unit
IsOf alerts (agent_run agent run_type status) = Unit

pub among-append : (xs ys : List ℕ) (id : ℕ) → among (xs ++ ys) id ≡ (among xs id || among ys id)
among-append [] ys id = refl
among-append (x ∷ xs) ys id = ground (arith, among-append xs ys id)

pub IsOf-more : (xs ys : List ℕ) (e : Event) → IsOf xs e → IsOf (xs ++ ys) e
IsOf-more xs ys (alert_raised id severity title) h = ground (arith, among-append xs ys id, h)
IsOf-more xs ys (alert_resolved agent title n) h = tt
IsOf-more xs ys (agent_run agent run_type status) h = tt

pub IsOf-later : (xs ys : List ℕ) (e : Event) → IsOf ys e → IsOf (xs ++ ys) e
IsOf-later xs ys (alert_raised id severity title) h = ground (arith, among-append xs ys id, h)
IsOf-later xs ys (alert_resolved agent title n) h = tt
IsOf-later xs ys (agent_run agent run_type status) h = tt

pub All-map {ℓ κ ι} :
    {A : Type ℓ} (P : A → Type κ) (Q : A → Type ι) (xs : List A)
    → ((a : A) → P a → Q a)
    → All P xs
    → All Q xs
All-map P Q [] f h = tt
All-map P Q (x ∷ xs) f h = (f x h.0, All-map P Q xs f h.1)

-- What the queue of a run may announce: the alerts of its transaction, then those committed.
abbrev pub Queued : List ℕ → Phase → List ℕ → List Event → Type 0
Queued committed executing writes events = All (IsOf writes) events
Queued committed (worked status error) writes events = All (IsOf committed) events
Queued committed recorded writes events = All (IsOf committed) events

abbrev pub RunIsSafe : List ℕ → Option Active → List Event → Type 0
RunIsSafe committed none events = Unit
RunIsSafe committed (some run) events = Queued committed run.phase run.writes events

pub record IsSafe (p : Process) : Type 0 where
  pub announced : All (IsOf p.committed) p.published
  pub queued :
      (agent : String)
      → RunIsSafe p.committed (lookup agent p.active) (queue_of (lookup agent p.pending))

pub Queued-more :
    (committed new : List ℕ) (phase : Phase) (writes : List ℕ) (events : List Event)
    → Queued committed phase writes events
    → Queued (committed ++ new) phase writes events
Queued-more committed new executing writes events h = h
Queued-more committed new (worked s e) writes events h =
    All-map (IsOf committed) (IsOf (committed ++ new)) events (IsOf-more committed new) h
Queued-more committed new recorded writes events h =
    All-map (IsOf committed) (IsOf (committed ++ new)) events (IsOf-more committed new) h

pub RunIsSafe-more :
    (committed new : List ℕ) (run : Option Active) (events : List Event)
    → RunIsSafe committed run events
    → RunIsSafe (committed ++ new) run events
RunIsSafe-more committed new none events h = tt
RunIsSafe-more committed new (some run) events h =
    Queued-more committed new run.phase run.writes events h

-- A write to one agent's run keeps the others.
pub insert-RunIsSafe :
    (agent other : String) (committed : List ℕ) (run : Active) (events : List Event)
    (active : Dict Active) (pending : Dict (List Event))
    → Queued committed run.phase run.writes events
    → RunIsSafe committed (lookup other active) (queue_of (lookup other pending))
    → RunIsSafe committed
        (lookup other (insert agent run active))
        (queue_of (lookup other (insert agent events pending)))
insert-RunIsSafe agent other committed run events active pending new old =
    rw (lookup-insert agent other run active, lookup-insert agent other events pending)
      (pick (str_eq agent other))
  where
    pick :
        (b : Bool)
        → RunIsSafe committed
            (if b then some run else lookup other active)
            (queue_of (if b then some events else lookup other pending))
    pick true = new
    pick false = old

pub erase-RunIsSafe :
    (agent other : String) (committed : List ℕ) (active : Dict Active) (events : List Event)
    → RunIsSafe committed (lookup other active) events
    → RunIsSafe committed (lookup other (erase agent active)) events
erase-RunIsSafe agent other committed active events old =
    rw (lookup-erase agent other active) (pick (str_eq agent other))
  where
    pick : (b : Bool) → RunIsSafe committed (if b then none else lookup other active) events
    pick true = tt
    pick false = old

pub erase_both-RunIsSafe :
    (agent other : String) (committed : List ℕ) (active : Dict Active) (pending : Dict (List Event))
    → RunIsSafe committed (lookup other active) (queue_of (lookup other pending))
    → RunIsSafe committed
        (lookup other (erase agent active))
        (queue_of (lookup other (erase agent pending)))
erase_both-RunIsSafe agent other committed active pending old =
    rw (lookup-erase agent other active, lookup-erase agent other pending)
      (pick (str_eq agent other))
  where
    pick :
        (b : Bool)
        → RunIsSafe committed
            (if b then none else lookup other active)
            (queue_of (if b then none else lookup other pending))
    pick true = tt
    pick false = old

pub put_run-IsSafe :
    (p : Process) (agent : String) (run : Active) (events : List Event) (new : List ℕ)
    → IsSafe p
    → Queued (p.committed ++ new) run.phase run.writes events
    → IsSafe (put_run p agent run events (p.committed ++ new))
unfolding put_run
put_run-IsSafe p agent run events new h q = record {
  announced =
      All-map (IsOf p.committed) (IsOf (p.committed ++ new)) p.published (IsOf-more p.committed new)
        h.announced;
  queued = λ other.
      insert-RunIsSafe agent other (p.committed ++ new) run events p.active p.pending q (
        RunIsSafe-more p.committed new (lookup other p.active) (queue_of (lookup other p.pending))
          (h.queued other));
}

pub append-nil : (xs : List ℕ) → xs ++ [] ≡ xs
append-nil [] = refl
append-nil (x ∷ xs) = ap (λ ys. x ∷ ys) (append-nil xs)

pub put_run-IsSafe_same :
    (p : Process) (agent : String) (run : Active) (events : List Event)
    → IsSafe p
    → Queued p.committed run.phase run.writes events
    → IsSafe (put_run p agent run events p.committed)
put_run-IsSafe_same p agent run events h q =
    subst (λ c. IsSafe (put_run p agent run events c)) (append-nil p.committed)
      (put_run-IsSafe p agent run events [] h
        (subst (λ c. Queued c run.phase run.writes events) (sym (append-nil p.committed)) q))

-- The rows, the counters and the process's name are no part of the invariant.
pub same-IsSafe :
    (p q : Process)
    → q.committed ≡ p.committed
    → q.active ≡ p.active
    → q.pending ≡ p.pending
    → q.published ≡ p.published
    → IsSafe p
    → IsSafe q
same-IsSafe p q c a d e h = record {
  announced = rw (c, e) h.announced;
  queued = λ agent. rw (c, a, d) (h.queued agent);
}

pub All-snoc {ℓ κ} :
    {A : Type ℓ} (P : A → Type κ) (xs : List A) (x : A) → All P xs → P x → All P (xs ++ x ∷ [])
All-snoc P xs x h hx = All-append P xs (x ∷ []) h (hx, tt)
