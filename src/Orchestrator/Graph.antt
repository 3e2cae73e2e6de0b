-- ===== src/Orchestrator/Graph.antt =====
-- backend/src/adoptimizer/orchestrator/graph.py: the two executors of a run. An agent is a function of
-- the state and the world, and so is the cancellation check. LangGraph follows the edges that `_compile`
-- declares and stops a run that visits more nodes than its recursion limit.
use multi_agent_ad_optimizer.Prelude.{
  ℕ, zero, suc, ◌+◌, ◌*◌, Bool, true, false, String, Option, none, some, List, [], ◌∷◌, ◌⊎◌, inl,
  inr, leb, if◌then◌else◌, ◌==◌, nat_eq,
}
use multi_agent_ad_optimizer.Domain.Enums.{AgentName}
use multi_agent_ad_optimizer.Orchestrator.State.{AgentState, Update, apply_update}

-- What ends a run early: its cancellation, or the exception of an agent.
pub data Halt : Type 0 where
  cancelled : Halt
  raised : String → Halt

-- `_ordered_agents`
abbrev pub ordered_agents : List AgentName
ordered_agents =
    AgentName.monitor ∷ AgentName.audience ∷ AgentName.creative ∷ AgentName.bidding
    ∷ AgentName.optimize ∷ AgentName.critic ∷ []

abbrev pub has_alerts : {J : Type 0} → List J → Bool
has_alerts [] = false
has_alerts (_ ∷ _) = true

module _ {F J : Type 0} where
  -- `int(state.get("max_iterations", 3) or 3)`
  unfoldable pub iteration_limit : AgentState F J → ℕ
  iteration_limit s = if s.max_iterations == 0 then 3 else s.max_iterations

  -- `_route_after_critic`, where `true` is "continue"
  unfoldable pub route_after_critic : AgentState F J → Bool
  route_after_critic s =
      if s.is_complete
      then false
      else if leb (iteration_limit s) s.iteration
      then false
      else has_alerts s.alerts

  -- The edges of `_compile`, where `none` is the end.
  abbrev pub next_node : AgentName → AgentState F J → Option AgentName
  next_node AgentName.monitor s = some AgentName.audience
  next_node AgentName.audience s = some AgentName.creative
  next_node AgentName.creative s = some AgentName.bidding
  next_node AgentName.bidding s = some AgentName.optimize
  next_node AgentName.optimize s = some AgentName.critic
  next_node AgentName.critic s = if route_after_critic s then some AgentName.monitor else none

  -- The recursion limit that `_invoke_graph` passes.
  unfoldable pub recursion_limit : AgentState F J → ℕ
  recursion_limit s = 6 * iteration_limit s + 8

-- A run's state or what ended it, and the world.
abbrev pub RunEnds : Type 0 → Type 0 → Type 0 → Type 0
RunEnds F J W = (Halt ⊎ AgentState F J) × W

module _ {F J W : Type 0} where
  abbrev pub merged : AgentState F J → (String ⊎ Update F J) × W → RunEnds F J W
  merged s (inl text, world) = (inl (raised text), world)
  merged s (inr update, world) = (inr (apply_update s update), world)

  abbrev pub continue : RunEnds F J W → (AgentState F J → W → RunEnds F J W) → RunEnds F J W
  continue (inl halt, world) go = (inl halt, world)
  continue (inr s, world) go = go s world

  abbrev pub continue_walk :
      RunEnds F J W → (AgentState F J → W → Option (RunEnds F J W)) → Option (RunEnds F J W)
  continue_walk (inl halt, world) go = some (inl halt, world)
  continue_walk (inr s, world) go = go s world

module _ {F J W : Type 0} (cancelled_now : W → Bool × W)
    (agent : AgentName → AgentState F J → W → (String ⊎ Update F J) × W) where
  -- One agent's turn: `raise_if_cancelled`, the agent, and the merge of its update.
  unfoldable pub turn : AgentName → AgentState F J → W → RunEnds F J W
  turn name s world =
      let (stop, after) = cancelled_now world in
      if stop then (inl cancelled, after) else merged s (agent name s after)

  unfoldable pub turns : List AgentName → AgentState F J → W → RunEnds F J W
  turns [] s world = (inr s, world)
  turns (name ∷ names) s world = continue (turn name s world) (λ t after. turns names t after)

  -- The loop of `_invoke_sequential`, with the rounds that are left.
  unfoldable pub rounds : ℕ → AgentState F J → W → RunEnds F J W
  rounds zero s world = (inr s, world)
  rounds (suc left) s world = continue (turns ordered_agents s world) (λ t after.
      let rest = rounds left t after in
      if t.is_complete
      then (inr t, after)
      else if has_alerts t.alerts
      then rest
      else (inr t, after))

  unfoldable pub invoke_sequential : AgentState F J → W → RunEnds F J W
  invoke_sequential s world = rounds (iteration_limit s) s world

  -- The walk along the edges from a node, with the visits that are left; `none` where the limit
  -- was met before the end.
  unfoldable pub walk : ℕ → AgentName → AgentState F J → W → Option (RunEnds F J W)
  walk zero name s world = none
  walk (suc left) name s world = continue_walk (turn name s world) (λ t after.
      elim (next_node name t) [ none ↦ some (inr t, after) | some next ↦ walk left next t after ])

  unfoldable pub invoke_graph : AgentState F J → W → Option (RunEnds F J W)
  invoke_graph s world = walk (recursion_limit s) AgentName.monitor s world
