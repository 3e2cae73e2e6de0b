-- ===== src/Orchestrator/Examples.antt =====
-- A small queue and agents that only count: the theorems on runs at that data.
use multi_agent_ad_optimizer.Prelude.{
  ℕ, ◌+◌, String, Bool, false, none, some, [], ◌∷◌, ◌⊎◌, inl, inr, ◌≡◌, refl, ltb, leb, elem,
  string_eq, if◌then◌else◌, ◌==◌,
}
use multi_agent_ad_optimizer.Prelude.Dict.{put, get}
use multi_agent_ad_optimizer.Domain.Enums.{AgentName, agent_name_eq}
use multi_agent_ad_optimizer.Critic.Proposal.{
  Number, Proposal, ConflictRule, action_type, severity_rank, is_unexecutable, rank_lt, urgency,
  dominates, outranks,
}
use multi_agent_ad_optimizer.Critic.Sets.{
  add, add_all, file_under, group_from, max_from, insert_desc, sort_desc, enumerate_from,
}
use multi_agent_ad_optimizer.Critic.Rules.{
  unexecutable, member_lt, collapse, collapse_all, repeats, settle, resolve, resolve_rules,
  resolve_groups, conflicts, oppose, oppose_all, spend_direction,
}
use multi_agent_ad_optimizer.Critic.Review.{by_kind_from, review}
use multi_agent_ad_optimizer.Orchestrator.State.{
  AgentState, Update, no_update, surviving_actions, dropped_ids, apply_update, append_list,
  critic_update,
}
use multi_agent_ad_optimizer.Orchestrator.Survivors.{surviving_actions-agree}
use multi_agent_ad_optimizer.Orchestrator.Graph.{invoke_graph, invoke_sequential}
use multi_agent_ad_optimizer.Orchestrator.Executors.{invoke_graph-sequential}

instance abbrev thousandths : Number ℕ
thousandths = record {
  zero = 0;
  one = 1000;
  add = λ a b. a + b;
  lt = λ a b. ltb a b;
  le = λ a b. leb a b;
  critical_gap = 500;
  dominance_margin = 100;
}

abbrev proposal : String → String → Proposal ℕ
proposal id type = record {
  id = some id;
  type = some type;
  campaign = some "c1";
  creative = none;
  confidence = some 900;
  iteration = some 0;
  direction = none;
  reference = none;
  severity = some "warning";
  urgency = none;
  reason = none;
  preflight = none;
}

abbrev pausing : Proposal ℕ
pausing = proposal "a1" "pause_campaign"

abbrev widening : Proposal ℕ
widening = proposal "a2" "expand_audience"

abbrev pause_rule : ConflictRule
pause_rule = record {
  dominant = "pause_campaign";
  contradicted = "resume_campaign" ∷ [];
  kind = "campaign_pause_resume_conflict";
}

abbrev run_state : AgentState ℕ ℕ
run_state = record {
  run_id = "r1";
  campaign_ids = "c1" ∷ [];
  window_days = 7;
  max_iterations = 2;
  metrics = [];
  daily_budgets = [];
  audience_observations = [];
  audience_insights = [];
  health = [];
  new_creatives = [];
  bidding_decisions = [];
  budget_allocations = [];
  optimization_actions = some pausing ∷ none ∷ some widening ∷ [];
  critic_findings = [];
  alerts = 5 ∷ [];
  platform_checks = [];
  tool_preflights = [];
  agent_messages = [];
  current_agent = "";
  iteration = 0;
  is_complete = false;
  usage = [];
}

surviving_actions-agree_example : elem (action_type widening) pause_rule.contradicted ≡ false
unfolding surviving_actions dropped_ids apply_update append_list critic_update severity_rank
    is_unexecutable rank_lt urgency dominates outranks add add_all file_under group_from max_from
    insert_desc sort_desc enumerate_from unexecutable member_lt collapse collapse_all repeats settle
    resolve resolve_rules resolve_groups conflicts oppose oppose_all spend_direction by_kind_from
    review put get
surviving_actions-agree_example =
    surviving_actions-agree 0 run_state pause_rule pausing widening (inr (inl refl)) (inl refl)
      (inr (inl refl)) refl refl refl

-- Agents that raise no new alert and count the iterations.
abbrev counting_agent : AgentName → AgentState ℕ ℕ → ℕ → (String ⊎ Update ℕ ℕ) × ℕ
counting_agent name s world = (
  inr (record no_update {
    iteration = if name == AgentName.optimize then some (s.iteration + 1) else none;
  }),
  world + 1,
)

abbrev never_cancelled : ℕ → Bool × ℕ
never_cancelled world = (false, world)

invoke_graph-sequential_example :
    invoke_graph never_cancelled counting_agent run_state 0
    ≡ some (invoke_sequential never_cancelled counting_agent run_state 0)
invoke_graph-sequential_example =
    invoke_graph-sequential never_cancelled counting_agent run_state 0 (λ name s world. refl) refl
