-- ===== src/Reload/Handover.antt =====
-- sysadmin/monitor/handover.py: the services that declare an agent, against the agents' schedules.
use sysadmin_assistant.Shared.{
  ℕ, ◌+◌, String, ◌≡◌, refl, Bool, true, false, ◌&&◌, not, none, some, List, [], ◌∷◌, ◌++◌, arith,
  any, if◌then◌else◌, str_eq, inl, inr, Option-cases,
}
use sysadmin_assistant.Shared.Dict.{Dict, lookup}
use sysadmin_assistant.Shared.Text.{concat}
use sysadmin_assistant.SelfMonitor.{AgentSchedule}
use sysadmin_assistant.Reload.Diff.{Service}

pub record HandoverReport : Type 0 where
  pub walked : Bool
  pub breached : List String
  pub flag_carried : List String
  pub unknown_agents : List String
  pub declared : ℕ

abbrev pub unwalked : HandoverReport
unwalked = record {
  walked = false;
  breached = [];
  flag_carried = [];
  unknown_agents = [];
  declared = 0;
}

is_empty : List String → Bool
is_empty [] = true
is_empty (x ∷ xs) = false

-- `clean`
unfoldable pub clean : HandoverReport → Bool
unfolding is_empty
clean r =
    r.walked && (is_empty r.breached && (is_empty r.flag_carried && is_empty r.unknown_agents))

module _ (agent_names : List String) (schedules : Dict AgentSchedule) where
  -- The body of the loop, for a service that declares an agent.
  unfoldable pub hand_over : String → String → HandoverReport → HandoverReport
  hand_over name agent r =
      let pair = concat (name ∷ " -> " ∷ agent ∷ []) in
      let counted = record r { declared = r.declared + 1 } in
      elim (lookup agent schedules) [
        | some schedule ↦
            if schedule.enabled
            then record counted { breached = r.breached ++ pair ∷ [] }
            else record counted { flag_carried = r.flag_carried ++ pair ∷ [] }
        | none ↦
            if any (λ n. str_eq n agent) agent_names
            then counted
            else record counted { unknown_agents = r.unknown_agents ++ pair ∷ [] }
      ]

  pub handover_from : HandoverReport → List Service → HandoverReport
  handover_from r [] = r
  handover_from r (entry ∷ services) =
      handover_from (elim entry.agent [ none ↦ r | some agent ↦ hand_over entry.name agent r ])
        services

  unfoldable pub handover_report : List Service → HandoverReport
  unfolding handover_from hand_over
  handover_report services = handover_from (record unwalked { walked = true }) services

  -- Is the agent known and without a schedule?
  abbrev pub is_handed_over : String → Bool
  is_handed_over agent = elim (lookup agent schedules) [
    | some schedule ↦ false
    | none ↦ any (λ n. str_eq n agent) agent_names
  ]

  -- Does the service declare an agent that has a schedule or that is not known?
  abbrev pub is_breach : Service → Bool
  is_breach entry = elim entry.agent [ none ↦ false | some agent ↦ not (is_handed_over agent) ]

  is_empty-snoc : (xs : List String) (x : String) → is_empty (xs ++ x ∷ []) ≡ false
  unfolding is_empty
  is_empty-snoc [] x = refl
  is_empty-snoc (y ∷ ys) x = refl

  hand_over-clean :
      (name agent : String) (r : HandoverReport)
      → clean (hand_over name agent r) ≡ (clean r && is_handed_over agent)
  unfolding clean hand_over
  hand_over-clean name agent r =
      let pair = concat (name ∷ " -> " ∷ agent ∷ []) in
      ground (
        arith,
        is_empty-snoc r.breached pair,
        is_empty-snoc r.flag_carried pair,
        is_empty-snoc r.unknown_agents pair,
      )

  handover_from-clean :
      (r : HandoverReport) (services : List Service)
      → clean (handover_from r services) ≡ (clean r && not (any is_breach services))
  unfolding handover_from
  handover_from-clean r [] = ground arith
  handover_from-clean r (entry ∷ services) = elim (Option-cases entry.agent) [
    | inl undeclared ↦ ground (arith, undeclared, handover_from-clean r services)
    | inr (agent, declares) ↦ ground (
      arith,
      declares,
      hand_over-clean entry.name agent r,
      handover_from-clean (hand_over entry.name agent r) services,
    )
  ]

  -- The report is clean exactly when every agent that a service declares is known and has no schedule
  -- of its own, enabled or not.
  pub handover_report-clean :
      (services : List Service) → clean (handover_report services) ≡ not (any is_breach services)
  unfolding handover_report clean
  handover_report-clean services = handover_from-clean (record unwalked { walked = true }) services
