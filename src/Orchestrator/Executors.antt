-- ===== src/Orchestrator/Executors.antt =====
-- The two executors of orchestrator/graph.py side by side.
use multi_agent_ad_optimizer.Prelude.{
  ℕ, zero, suc, ◌+◌, ◌-◌, ◌*◌, ◌≤◌, Bool, String, Option, none, some, List, [], ◌∷◌, ◌⊎◌, inl, inr,
  if◌then◌else◌, ◌==◌, nat_eq, ◌≡◌, refl, subst, ◌∙◌, arith, Bool-cases,
}
use multi_agent_ad_optimizer.Domain.Enums.{AgentName, agent_name_eq}
use multi_agent_ad_optimizer.Orchestrator.State.{AgentState, Update}
use multi_agent_ad_optimizer.Orchestrator.Graph.{
  RunEnds, continue, continue_walk, ordered_agents, iteration_limit, has_alerts, route_after_critic,
  next_node, recursion_limit, turn, turns, rounds, invoke_sequential, walk, invoke_graph,
}
use multi_agent_ad_optimizer.Orchestrator.Counting.{
  Writes, Counts, merged-Counts, continue-Counts, walks,
}

module _ {F J W : Type 0} (cancelled_now : W → Bool × W)
    (agent : AgentName → AgentState F J → W → (String ⊎ Update F J) × W) where
  -- The optimize agent alone writes the iteration counter, and writes the next number.
  abbrev pub IsCounting : Type 0
  IsCounting =
      (name : AgentName) (s : AgentState F J) (world : W) → Writes name s (agent name s world)

  turn-Counts :
      IsCounting
      → (name : AgentName) (s : AgentState F J) (world : W)
      → Counts
          (if name == AgentName.optimize then 1 else 0)
          s
          (turn cancelled_now agent name s world)
  unfolding turn
  turn-Counts counting name s world = elim (Bool-cases (cancelled_now world).0) [
    | inl stop ↦ rw (stop, turn) tt
    | inr run ↦
        rw (run, turn)
          (merged-Counts name s (agent name s (cancelled_now world).1)
            (counting name s (cancelled_now world).1))
  ]

  abbrev optimizers : List AgentName → ℕ
  optimizers [] = 0
  optimizers (name ∷ names) = (if name == AgentName.optimize then 1 else 0) + optimizers names

  turns-Counts :
      IsCounting
      → (names : List AgentName) (s : AgentState F J) (world : W)
      → Counts (optimizers names) s (turns cancelled_now agent names s world)
  unfolding turns
  turns-Counts counting [] s world = (omega arith, refl)
  turns-Counts counting (name ∷ names) s world =
      continue-Counts _ (optimizers names) s (turn cancelled_now agent name s world) _
        (turn-Counts counting name s world) (λ t after. turns-Counts counting names t after)

  -- What the walk does after the critic.
  abbrev after_critic : ℕ → AgentState F J → W → Option (RunEnds F J W)
  after_critic left t world = elim (next_node AgentName.critic t) [
    | none ↦ some (inr t, world)
    | some next ↦ walk cancelled_now agent left next t world
  ]

  walk-turn :
      (name : AgentName) (names : List AgentName)
      (f last : AgentState F J → W → Option (RunEnds F J W))
      → ((t : AgentState F J) (after : W)
          → f t after ≡ continue_walk (turns cancelled_now agent names t after) last)
      → (s : AgentState F J) (world : W)
      → continue_walk (turn cancelled_now agent name s world) f
        ≡ continue_walk (turns cancelled_now agent (name ∷ names) s world) last
  unfolding turns
  walk-turn name names f last same s world =
      walks (turn cancelled_now agent name s world) f
        (λ t after. turns cancelled_now agent names t after) last same

  -- The walk from a node is the turns that are left of the round, and then the route.
  abbrev RestOfRound : (ℕ → ℕ) → AgentName → List AgentName → Type 0
  RestOfRound visits name names =
      (left : ℕ) (s : AgentState F J) (world : W)
      → walk cancelled_now agent (visits left) name s world
        ≡ continue_walk (turns cancelled_now agent names s world) (after_critic left)

  from_critic : RestOfRound (λ left. suc left) AgentName.critic (AgentName.critic ∷ [])
  unfolding walk turns
  from_critic left s world =
      walk-turn AgentName.critic [] (after_critic left) (after_critic left) (λ t after. refl) s
        world

  abbrev visit : ℕ → AgentName → AgentState F J → W → Option (RunEnds F J W)
  visit left name s world = walk cancelled_now agent left name s world

  from_optimize :
      RestOfRound
        (λ left. suc (suc left))
        AgentName.optimize
        (AgentName.optimize ∷ AgentName.critic ∷ [])
  unfolding walk
  from_optimize left s world =
      walk-turn AgentName.optimize (AgentName.critic ∷ []) (visit (suc left) AgentName.critic)
        (after_critic left) (from_critic left) s world

  from_bidding :
      RestOfRound
        (λ left. suc (suc (suc left)))
        AgentName.bidding
        (AgentName.bidding ∷ AgentName.optimize ∷ AgentName.critic ∷ [])
  unfolding walk
  from_bidding left s world =
      walk-turn AgentName.bidding (AgentName.optimize ∷ AgentName.critic ∷ [])
        (visit (suc (suc left)) AgentName.optimize) (after_critic left) (from_optimize left) s world

  from_creative :
      RestOfRound
        (λ left. suc (suc (suc (suc left))))
        AgentName.creative
        (AgentName.creative ∷ AgentName.bidding ∷ AgentName.optimize ∷ AgentName.critic ∷ [])
  unfolding walk
  from_creative left s world =
      walk-turn AgentName.creative (AgentName.bidding ∷ AgentName.optimize ∷ AgentName.critic ∷ [])
        (visit (suc (suc (suc left))) AgentName.bidding) (after_critic left) (from_bidding left) s
        world

  from_audience :
      RestOfRound
        (λ left. suc (suc (suc (suc (suc left)))))
        AgentName.audience
        (AgentName.audience ∷ AgentName.creative ∷ AgentName.bidding ∷ AgentName.optimize
          ∷ AgentName.critic ∷ [])
  unfolding walk
  from_audience left s world =
      walk-turn AgentName.audience
        (AgentName.creative ∷ AgentName.bidding ∷ AgentName.optimize ∷ AgentName.critic ∷ [])
        (visit (suc (suc (suc (suc left)))) AgentName.creative) (after_critic left)
        (from_creative left) s world

  from_monitor :
      RestOfRound
        (λ left. suc (suc (suc (suc (suc (suc left))))))
        AgentName.monitor
        (AgentName.monitor ∷ AgentName.audience ∷ AgentName.creative ∷ AgentName.bidding
          ∷ AgentName.optimize ∷ AgentName.critic ∷ [])
  unfolding walk
  from_monitor left s world =
      walk-turn AgentName.monitor
        (AgentName.audience ∷ AgentName.creative ∷ AgentName.bidding ∷ AgentName.optimize
          ∷ AgentName.critic ∷ [])
        (visit (suc (suc (suc (suc (suc left))))) AgentName.audience) (after_critic left)
        (from_audience left) s world

  -- The rest of a run: what `rounds` does after a round.
  abbrev after_round : ℕ → AgentState F J → W → RunEnds F J W
  after_round left t after =
      let rest = rounds cancelled_now agent left t after in
      if t.is_complete then (inr t, after) else if has_alerts t.alerts then rest else (inr t, after)

  -- The last round that the limit allows.
  after_last :
      (visits : ℕ) (t : AgentState F J) (world : W)
      → iteration_limit t ≡ t.iteration
      → after_critic visits t world ≡ some (after_round zero t world)
  unfolding rounds route_after_critic
  after_last visits t world spent = elim (Bool-cases t.is_complete) [
    | inl complete ↦ ground (arith, complete, spent)
    | inr open_run ↦ ground (arith, open_run, spent)
  ]

  -- A round before the last, where the walk from the monitor ends as the loop does.
  after_more :
      (visits left : ℕ) (t : AgentState F J) (world : W)
      → suc t.iteration ≤ iteration_limit t
      → walk cancelled_now agent visits AgentName.monitor t world
        ≡ some (rounds cancelled_now agent left t world)
      → after_critic visits t world ≡ some (after_round left t world)
  unfolding route_after_critic
  after_more visits left t world room later = ground (arith, room, later)

  ends_alike :
      (n : ℕ) (s : AgentState F J) (o : RunEnds F J W)
      (f : AgentState F J → W → Option (RunEnds F J W)) (g : AgentState F J → W → RunEnds F J W)
      → Counts n s o
      → ((t : AgentState F J) (after : W)
          → (t.iteration ≡ s.iteration + n) × (t.max_iterations ≡ s.max_iterations)
          → f t after ≡ some (g t after))
      → continue_walk o f ≡ some (continue o g)
  ends_alike n s (inl halt, world) f g counts same = refl
  ends_alike n s (inr t, world) f g counts same = same t world counts

  -- A limit of zero counts as three.
  iteration_limit-positive : (s : AgentState F J) → suc (iteration_limit s - 1) ≡ iteration_limit s
  unfolding iteration_limit
  iteration_limit-positive s = ground arith

  iteration_limit-same :
      (s t : AgentState F J)
      → t.max_iterations ≡ s.max_iterations
      → iteration_limit t ≡ iteration_limit s
  unfolding iteration_limit
  iteration_limit-same s t same = rw same refl

  -- With as many rounds left as the limit allows, the walk and the loop end alike.
  walk-rounds :
      IsCounting
      → (left spare : ℕ) (s : AgentState F J) (world : W)
      → s.iteration + suc left ≡ iteration_limit s
      → walk cancelled_now agent
          (suc (suc (suc (suc (suc (suc (6 * left + spare)))))))
          AgentName.monitor
          s
          world
        ≡ some (rounds cancelled_now agent (suc left) s world)
  unfolding rounds
  walk-rounds counting zero spare s world room =
      from_monitor (6 * zero + spare) s world
      ∙ ends_alike 1 s _ _ (after_round zero) (turns-Counts counting ordered_agents s world)
          (λ t after counts.
            after_last _ t after (omega (arith, room, counts.0, iteration_limit-same s t counts.1)))
  walk-rounds counting (suc left) spare s world room =
      from_monitor (6 * suc left + spare) s world
      ∙ ends_alike 1 s _ _ (after_round (suc left)) (turns-Counts counting ordered_agents s world)
          (λ t after counts.
            after_more _ (suc left) t after
              (omega (arith, room, counts.0, iteration_limit-same s t counts.1))
              (subst
                (λ k.
                  walk cancelled_now agent k AgentName.monitor t after
                  ≡ some (rounds cancelled_now agent (suc left) t after))
                (omega arith)
                (walk-rounds counting left spare t after
                  (omega (arith, room, counts.0, iteration_limit-same s t counts.1)))))

  -- Where the optimize agent alone writes the iteration counter, one more each time, a run that
  -- starts at iteration 0 ends under the graph as under the sequential executor: with the same state
  -- or the same halt, and the same world. The graph never meets its recursion limit.
  pub invoke_graph-sequential :
      (s : AgentState F J) (world : W)
      → IsCounting
      → s.iteration ≡ 0
      → invoke_graph cancelled_now agent s world
        ≡ some (invoke_sequential cancelled_now agent s world)
  unfolding invoke_graph invoke_sequential recursion_limit
  invoke_graph-sequential s world counting fresh =
      let limit = iteration_limit s in
      let left = limit - 1 in
      subst
        (λ k.
          walk cancelled_now agent k AgentName.monitor s world
          ≡ some (rounds cancelled_now agent limit s world))
        (omega (arith, iteration_limit-positive s))
        (subst
          (λ k.
            walk cancelled_now agent (suc (suc (suc (suc (suc (suc (6 * left + 8)))))))
              AgentName.monitor s world
            ≡ some (rounds cancelled_now agent k s world))
          (iteration_limit-positive s)
          (walk-rounds counting left 8 s world (omega (arith, fresh, iteration_limit-positive s))))
