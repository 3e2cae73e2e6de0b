-- ===== src/Orchestrator/State.antt =====
-- backend/src/adoptimizer/orchestrator/state.py: the channels, their reducers and the summary. `J` is
-- the type of the dictionaries that this module only passes on; `none` in a channel of proposals or
-- findings is an element that is no dictionary, as a replayed run may restore one.
use multi_agent_ad_optimizer.Prelude.{
  ℕ, ◌-◌, max, String, Bool, false, not, Option, none, some, List, [], ◌∷◌, ◌++◌, map, length, keep,
  elem, string_eq, otherwise,
}
use multi_agent_ad_optimizer.Prelude.Dict.{Dict, put, tally}
use multi_agent_ad_optimizer.Critic.Proposal.{Number, Proposal, action_id}
use multi_agent_ad_optimizer.Critic.Finding.{Finding, suppressed_action_ids}
use multi_agent_ad_optimizer.Critic.Review.{review}

-- The reducers. A missing update is `none`, as is an update that holds Python's `None`.
module _ {A : Type 0} where
  unfoldable pub replace_list : List A → Option (List A) → List A
  replace_list existing none = existing
  replace_list existing (some incoming) = incoming

  unfoldable pub append_list : List A → Option (List A) → List A
  append_list existing none = existing
  append_list existing (some incoming) = existing ++ incoming

  abbrev pub updated : Dict String A → Dict String A → Dict String A
  updated merged [] = merged
  updated merged ((k, v) ∷ incoming) = updated (put k v merged) incoming

  unfoldable pub merge_mapping : Dict String A → Option (Dict String A) → Dict String A
  merge_mapping existing none = existing
  merge_mapping existing (some incoming) = updated existing incoming

unfoldable pub max_int : ℕ → Option ℕ → ℕ
max_int existing none = existing
max_int existing (some incoming) = max existing incoming

pub record AgentState (F J : Type 0) : Type 0 where
  pub run_id : String
  pub campaign_ids : List String
  pub window_days : ℕ
  pub max_iterations : ℕ
  pub metrics : List J
  pub daily_budgets : Dict String F
  pub audience_observations : List J
  pub audience_insights : Dict String J
  pub health : Dict String J
  pub new_creatives : List J
  pub bidding_decisions : List J
  pub budget_allocations : List J
  pub optimization_actions : List (Option (Proposal F))
  pub critic_findings : List (Option (Finding F))
  pub alerts : List J
  pub platform_checks : List J
  pub tool_preflights : List J
  pub agent_messages : List J
  pub current_agent : String
  pub iteration : ℕ
  pub is_complete : Bool
  pub usage : Dict String F

-- What an agent returns: any of the channels that agents write.
pub record Update (F J : Type 0) : Type 0 where
  pub metrics : Option (List J)
  pub audience_insights : Option (Dict String J)
  pub health : Option (Dict String J)
  pub new_creatives : Option (List J)
  pub bidding_decisions : Option (List J)
  pub budget_allocations : Option (List J)
  pub optimization_actions : Option (List (Option (Proposal F)))
  pub critic_findings : Option (List (Option (Finding F)))
  pub alerts : Option (List J)
  pub platform_checks : Option (List J)
  pub tool_preflights : Option (List J)
  pub agent_messages : Option (List J)
  pub current_agent : Option String
  pub iteration : Option ℕ
  pub is_complete : Option Bool

module _ {F J : Type 0} where
  abbrev pub no_update : Update F J
  no_update = record {
    metrics = none;
    audience_insights = none;
    health = none;
    new_creatives = none;
    bidding_decisions = none;
    budget_allocations = none;
    optimization_actions = none;
    critic_findings = none;
    alerts = none;
    platform_checks = none;
    tool_preflights = none;
    agent_messages = none;
    current_agent = none;
    iteration = none;
    is_complete = none;
  }

  -- `_apply_update` of orchestrator/graph.py with the reducers of the schema.
  unfoldable pub apply_update : AgentState F J → Update F J → AgentState F J
  apply_update s u = record s {
    metrics = replace_list s.metrics u.metrics;
    audience_insights = merge_mapping s.audience_insights u.audience_insights;
    health = merge_mapping s.health u.health;
    new_creatives = append_list s.new_creatives u.new_creatives;
    bidding_decisions = replace_list s.bidding_decisions u.bidding_decisions;
    budget_allocations = replace_list s.budget_allocations u.budget_allocations;
    optimization_actions = append_list s.optimization_actions u.optimization_actions;
    critic_findings = append_list s.critic_findings u.critic_findings;
    alerts = replace_list s.alerts u.alerts;
    platform_checks = replace_list s.platform_checks u.platform_checks;
    tool_preflights = append_list s.tool_preflights u.tool_preflights;
    agent_messages = append_list s.agent_messages u.agent_messages;
    current_agent = otherwise s.current_agent u.current_agent;
    iteration = max_int s.iteration u.iteration;
    is_complete = otherwise s.is_complete u.is_complete;
  }

  -- `initial_state`, given the zeros of `usage` and a run id that is not empty.
  unfoldable pub initial_state : Dict String F → String → List String → ℕ → ℕ → AgentState F J
  initial_state usage run_id campaign_ids max_iterations window_days = record {
    run_id = run_id;
    campaign_ids = campaign_ids;
    window_days = window_days;
    max_iterations = max_iterations;
    metrics = [];
    daily_budgets = [];
    audience_observations = [];
    audience_insights = [];
    health = [];
    new_creatives = [];
    bidding_decisions = [];
    budget_allocations = [];
    optimization_actions = [];
    critic_findings = [];
    alerts = [];
    platform_checks = [];
    tool_preflights = [];
    agent_messages = [];
    current_agent = "";
    iteration = 0;
    is_complete = false;
    usage = usage;
  }

-- `[x for x in channel if isinstance(x, dict)]`
abbrev pub dicts : {A : Type 0} → List (Option A) → List A
dicts [] = []
dicts (none ∷ channel) = dicts channel
dicts (some a ∷ channel) = a ∷ dicts channel

module _ {F : Type 0} where
  abbrev pub ids_from : List (Finding F) → List String
  ids_from [] = []
  ids_from (finding ∷ findings) = suppressed_action_ids finding ++ ids_from findings

module _ {F J : Type 0} where
  -- `suppressed_action_ids` of the state
  unfoldable pub dropped_ids : AgentState F J → List String
  dropped_ids s = ids_from (dicts s.critic_findings)

  unfoldable pub surviving_actions : AgentState F J → List (Proposal F)
  surviving_actions s =
      keep (λ a. not (elem (action_id a) (dropped_ids s))) (dicts s.optimization_actions)

-- `action_counts` and `findings_by_kind`
abbrev pub tally_from : Dict String ℕ → List String → Dict String ℕ
tally_from counts [] = counts
tally_from counts (key ∷ keys) = tally_from (tally key counts) keys

-- The figures of `summarise_state`. An absent type counts as "unknown".
pub record Summary : Type 0 where
  pub iterations : ℕ
  pub campaigns : ℕ
  pub creatives_generated : ℕ
  pub bidding_decisions : ℕ
  pub budget_adjustments : ℕ
  pub actions : ℕ
  pub actions_proposed : ℕ
  pub actions_suppressed : ℕ
  pub critic_findings : ℕ
  pub critic_findings_by_kind : Dict String ℕ
  pub platform_checks : ℕ
  pub action_counts : Dict String ℕ
  pub alerts_raised : ℕ

module _ {F J : Type 0} where
  unfoldable pub summarise_state : AgentState F J → Summary
  summarise_state s =
      let proposed = dicts s.optimization_actions in
      let actions = surviving_actions s in
      let findings = dicts s.critic_findings in
      record {
        iterations = s.iteration;
        campaigns = length s.metrics;
        creatives_generated = length s.new_creatives;
        bidding_decisions = length s.bidding_decisions;
        budget_adjustments = length s.budget_allocations;
        actions = length actions;
        actions_proposed = length proposed;
        actions_suppressed = length proposed - length actions;
        critic_findings = length findings;
        critic_findings_by_kind = tally_from [] (map (λ f. f.kind) findings);
        platform_checks = length s.platform_checks;
        action_counts = tally_from [] (map (λ a. otherwise "unknown" a.type) actions);
        alerts_raised = length s.alerts;
      }

module _ {F J : Type 0} ⦃n : Number F⦄ where
  -- What `CriticAgent.run` returns to the graph, with the message that it composes.
  unfoldable pub critic_update : J → AgentState F J → Update F J
  critic_update message s = record no_update {
    critic_findings =
        some (map (λ f. some f) (review s.iteration (dicts s.optimization_actions)).findings);
    current_agent = some "critic";
    agent_messages = some (message ∷ []);
  }
