-- ===== src/Actions/Examples.antt =====
-- One action from its proposal to its execution: the theorems on the service at that action.
use multi_agent_ad_optimizer.Prelude.{
  ◌+◌, string_eq, inr, false, ◌≡◌, ℕ, true, none, some, [], ◌∷◌, inl, ◌⊎◌, refl, ltb, arith,
}
use multi_agent_ad_optimizer.Prelude.Dict.{get}
use multi_agent_ad_optimizer.Domain.Enums.{Platform, ActionStatus}
use multi_agent_ad_optimizer.Domain.Access.{Role}
use multi_agent_ad_optimizer.Security.{role_has_permission, TokenClaims}
use multi_agent_ad_optimizer.Tools.Spec.{ToolSpec, allows}
use multi_agent_ad_optimizer.Tools.Executor.{Executor, finish, final_result}
use multi_agent_ad_optimizer.Tools.Call.{
  charge, replay, replay_key, validate, should_dry_run, run_handler, call,
}
use multi_agent_ad_optimizer.Tools.Accounting.{session}
use multi_agent_ad_optimizer.Actions.Push.{request_of, push}
use multi_agent_ad_optimizer.Actions.Bulk.{Answers, IsNamed, bulk_approve-Answers}
use multi_agent_ad_optimizer.Actions.Once.{push_once}
use multi_agent_ad_optimizer.Actions.Records.{Amount, OptimizationAction, Wire, call_arguments}
use multi_agent_ad_optimizer.Actions.Monad.{Service, Env}
use multi_agent_ad_optimizer.Actions.Service.{bulk_approve, approve, execute}
use multi_agent_ad_optimizer.Actions.Gate.{
  Refuses, Approves, approve_cases, Executes, execute_cases,
}
use multi_agent_ad_optimizer.Actions.Vouched.{
  IsVouched, still, approving, executing, Moves-IsVouched,
}

abbrev cents : Amount ℕ
cents = record {
  parse = λ text. some 5000;
  round_2 = λ n. n;
  round_4 = λ n. n;
  not_positive = λ n. ltb n 1;
  lt = λ a b. ltb a b;
}

abbrev env : Env ℕ ℕ ℕ
env = record {
  amount = cents;
  require_approval = true;
  now = 100;
  timer = record { started = 10; built = 12; finished = 13 };
  for_platform = λ name. none;
  describe = λ e. "refused";
}

abbrev optimizer : TokenClaims
optimizer = record {
  subject = "u1";
  email = "ann@example.com";
  role = Role.optimizer;
  session_id = "s1";
}

abbrev proposed : OptimizationAction ℕ
proposed = record {
  id = "a1";
  run_id = some "r1";
  campaign_id = "c1";
  creative_id = none;
  action_type = "expand_audience";
  status = ActionStatus.proposed;
  after_value = "";
  reason = "reach is saturated";
  confidence = 800;
  approved_by = none;
  approved_at = none;
  executed_at = none;
  external_reference = none;
  error_message = none;
}

abbrev service : Service ℕ ℕ ℕ
service = record {
  actions = ("a1", proposed) ∷ [];
  campaigns = [];
  creatives = [];
  experiments = [];
  audit = [];
  counted = [];
  deferred = [];
  tools = none;
  world = 7;
}

approve_cases_example :
    Approves env optimizer "a1" service (approve env optimizer "a1" service)
    ⊎ Refuses env optimizer service (approve env optimizer "a1" service)
approve_cases_example = approve_cases env optimizer "a1" service

execute_cases_example :
    Executes env optimizer "a1" service (execute env optimizer "a1" service)
    ⊎ Refuses env optimizer service (execute env optimizer "a1" service)
execute_cases_example = execute_cases env optimizer "a1" service

abbrev approved_service : Service ℕ ℕ ℕ
approved_service = (approve env optimizer "a1" service).1

-- The whole way, a proposal is approved and then executed.
Moves-IsVouched_example : IsVouched (execute env optimizer "a1" approved_service).1
Moves-IsVouched_example =
    Moves-IsVouched env service (execute env optimizer "a1" approved_service).1 refl
      (record { key = refl; gate = inl refl }, tt)
      (executing optimizer "a1" approved_service (approving optimizer "a1" service still))

-- The world counts the calls that reached the network.
abbrev network_tool : ToolSpec (Wire ℕ) (Wire ℕ) ℕ
network_tool = record {
  name = "platform.pause_campaign";
  parameters = λ arguments. inr arguments;
  handler = λ arguments request world. (inr arguments, world + 1);
  read_only = false;
  agents = [];
  touches_platform = true;
}

abbrev executor : Executor (Wire ℕ) (Wire ℕ) ℕ
executor = record {
  registry = ("platform.pause_campaign", network_tool) ∷ [];
  settings = record {
    enabled = true;
    dry_run = false;
    allow_agent_writes = false;
    max_calls_per_run = 9;
  };
  calls_per_run = [];
  replays = [];
  stats_per_run = [];
  bus = none;
  recorded = [];
}

abbrev pausing : Platform → Wire ℕ
pausing p = call_arguments p "ext-1" none "reach is saturated"

abbrev tools_env : Env ℕ (Wire ℕ) ℕ
tools_env = record {
  amount = cents;
  require_approval = true;
  now = 100;
  timer = record { started = 10; built = 12; finished = 13 };
  for_platform = λ name. none;
  describe = λ e. "refused";
}

abbrev tools_service : Service ℕ (Wire ℕ) ℕ
tools_service = record {
  actions = ("a1", proposed) ∷ [];
  campaigns = [];
  creatives = [];
  experiments = [];
  audit = [];
  counted = [];
  deferred = [];
  tools = some executor;
  world = 7;
}

push_once_example :
    let first =
      call tools_env.timer
        (request_of proposed "platform.pause_campaign" (pausing Platform.meta))
        executor
        7 in
    let later = session [] first.executor first.world in
    let t : Service ℕ (Wire ℕ) ℕ = record tools_service { tools = some later.0; world = later.1 } in
    (push tools_env proposed "platform.pause_campaign" "pause_campaign"
      (some Platform.meta)
      pausing
      t).1.world
    ≡ later.1
unfolding call request_of get allows charge replay replay_key validate should_dry_run run_handler
    finish final_result
push_once_example =
    push_once tools_env proposed proposed "platform.pause_campaign" "platform.pause_campaign"
      "pause_campaign" Platform.meta Platform.meta pausing pausing executor 7 [] network_tool
      tools_service refl refl refl refl

service-IsNamed : IsNamed env optimizer service
unfolding get
service-IsNamed j action there = ground (arith, string_eq.decides "a1" j, there)

bulk_approve-Answers_example :
    Answers env optimizer 500
      ("a1" ∷ "a1" ∷ "a9" ∷ [])
      service
      (bulk_approve env optimizer 500 ("a1" ∷ "a1" ∷ "a9" ∷ []) service)
unfolding role_has_permission
bulk_approve-Answers_example =
    bulk_approve-Answers env optimizer 500 ("a1" ∷ "a1" ∷ "a9" ∷ []) service refl service-IsNamed
