-- ===== src/Orchestrator/Counting.antt =====
-- How the turns of orchestrator/graph.py move the iteration counter.
use multi_agent_ad_optimizer.Prelude.{
  ℕ, ◌+◌, String, Option, none, some, ◌⊎◌, inl, inr, if◌then◌else◌, ◌==◌, nat_eq, ◌≡◌, refl, ◌∙◌,
  arith,
}
use multi_agent_ad_optimizer.Domain.Enums.{AgentName, agent_name_eq}
use multi_agent_ad_optimizer.Orchestrator.State.{AgentState, Update, apply_update, max_int}
use multi_agent_ad_optimizer.Orchestrator.Graph.{RunEnds, merged, continue, continue_walk}

module _ {F J W : Type 0} where
  -- The iteration counter that an answer writes.
  abbrev pub Writes : AgentName → AgentState F J → (String ⊎ Update F J) × W → Type 0
  Writes name s (inl text, world) = Unit
  Writes name s (inr update, world) =
      update.iteration ≡ (if name == AgentName.optimize then some (s.iteration + 1) else none)

  -- The limit of the run is the same, and the counter has grown by `n`.
  abbrev pub Counts : ℕ → AgentState F J → RunEnds F J W → Type 0
  Counts n s (inl halt, world) = Unit
  Counts n s (inr t, world) =
      (t.iteration ≡ s.iteration + n) × (t.max_iterations ≡ s.max_iterations)

  pub merged-Counts :
      (name : AgentName) (s : AgentState F J) (answer : (String ⊎ Update F J) × W)
      → Writes name s answer
      → Counts (if name == AgentName.optimize then 1 else 0) s (merged s answer)
  unfolding apply_update max_int
  merged-Counts name s (inl text, world) writes = tt
  merged-Counts name s (inr update, world) writes = (grind (arith, writes), refl)

  Counts-later :
      (n m : ℕ) (s t : AgentState F J) (o : RunEnds F J W)
      → (t.iteration ≡ s.iteration + n) × (t.max_iterations ≡ s.max_iterations)
      → Counts m t o
      → Counts (n + m) s o
  Counts-later n m s t (inl halt, world) first later = tt
  Counts-later n m s t (inr u, world) first later =
      (omega (arith, first.0, later.0), later.1 ∙ first.1)

  pub continue-Counts :
      (n m : ℕ) (s : AgentState F J) (o : RunEnds F J W) (go : AgentState F J → W → RunEnds F J W)
      → Counts n s o
      → ((t : AgentState F J) (world : W) → Counts m t (go t world))
      → Counts (n + m) s (continue o go)
  continue-Counts n m s (inl halt, world) go first then_m = tt
  continue-Counts n m s (inr t, world) go first then_m =
      Counts-later n m s t (go t world) first (then_m t world)

  pub walks :
      (o : RunEnds F J W) (f : AgentState F J → W → Option (RunEnds F J W))
      (g : AgentState F J → W → RunEnds F J W) (last : AgentState F J → W → Option (RunEnds F J W))
      → ((t : AgentState F J) (world : W) → f t world ≡ continue_walk (g t world) last)
      → continue_walk o f ≡ continue_walk (continue o g) last
  walks (inl halt, world) f g last same = refl
  walks (inr t, world) f g last same = same t world
