-- ===== src/Tools/Examples.antt =====
-- One tool that writes, one registry, one executor: the theorems on tool calls at concrete calls.
use multi_agent_ad_optimizer.Prelude.{
  ℕ, ◌+◌, true, false, none, some, List, [], ◌∷◌, inr, ◌≡◌, ◌≢◌, ◌⊎◌, refl, ap, ◌==◌, string_eq,
  arith,
}
use multi_agent_ad_optimizer.Prelude.Dict.{get}
use multi_agent_ad_optimizer.Domain.Enums.{AgentName}
use multi_agent_ad_optimizer.Tools.Spec.{ToolOutcome, ToolRequest, ToolSpec, allows}
use multi_agent_ad_optimizer.Tools.Executor.{Timer, Executor, finish, final_result}
use multi_agent_ad_optimizer.Tools.Call.{
  charge, replay, replay_key, validate, should_dry_run, run_handler, call,
}
use multi_agent_ad_optimizer.Tools.Interlock.{Reaches, Stays, call_cases, call-agent_write}
use multi_agent_ad_optimizer.Tools.Accounting.{
  IsAccounted, session, session-IsAccounted, fresh-IsAccounted,
}
use multi_agent_ad_optimizer.Tools.Idempotency.{Replays, success_once}

abbrev timer : Timer
timer = record { started = 10; built = 12; finished = 13 }

-- A budget tool: the world is the amount spent, the argument is added to it.
abbrev budget_tool : ToolSpec ℕ ℕ ℕ
budget_tool = record {
  name = "platform.set_daily_budget";
  parameters = λ n. inr n;
  handler = λ n request world. (inr (world + n), world + n);
  read_only = false;
  agents = [];
  touches_platform = true;
}

abbrev executor : Executor ℕ ℕ ℕ
executor = record {
  registry = ("platform.set_daily_budget", budget_tool) ∷ [];
  settings = record {
    enabled = true;
    dry_run = false;
    allow_agent_writes = false;
    max_calls_per_run = 2;
  };
  calls_per_run = [];
  replays = [];
  stats_per_run = [];
  bus = some [];
  recorded = [];
}

abbrev by_agent : ToolRequest ℕ
by_agent = record {
  tool = "platform.set_daily_budget";
  arguments = 50;
  agent = some AgentName.bidding;
  run_id = "r1";
  actor = "bidding";
  idempotency_key = "";
  dry_run = some false;
}

abbrev by_person : ToolRequest ℕ
by_person = record by_agent {
  agent = none;
  actor = "ann@example.com";
  idempotency_key = "action:a1";
  dry_run = none;
}

call-agent_write_example :
    ((call timer by_agent executor 7).world ≡ 7)
    × ((call timer by_agent executor 7).result.outcome ≢ ToolOutcome.success)
unfolding get
call-agent_write_example =
    call-agent_write timer by_agent executor 7 budget_tool refl refl refl refl

call_cases_example :
    Reaches timer by_person executor 7 (call timer by_person executor 7)
    ⊎ Stays timer by_person 7 (call timer by_person executor 7)
call_cases_example = call_cases timer by_person executor 7

-- A person's call goes through: the world changes.
call_writes : (call timer by_person executor 7).world ≡ 57
unfolding get call allows charge replay replay_key validate should_dry_run run_handler finish
call_writes = refl

three_calls : List (Timer × ToolRequest ℕ)
three_calls = (timer, by_agent) ∷ (timer, by_agent) ∷ (timer, by_agent) ∷ []

session-IsAccounted_example : IsAccounted (session three_calls executor 7).0
session-IsAccounted_example =
    session-IsAccounted three_calls executor 7 (fresh-IsAccounted executor (refl, refl))

success_once_example :
    let first = call timer by_person executor 7 in
    let later = session ((timer, by_agent) ∷ []) first.executor first.world in
    Replays first.result later.1 (call timer by_person later.0 later.1)
unfolding get call allows charge replay replay_key validate should_dry_run run_handler finish
    final_result
success_once_example =
    success_once timer timer by_person by_person executor 7 ((timer, by_agent) ∷ []) budget_tool
      (λ e. ground (arith, ap (λ s. s == "") e)) refl refl refl refl
