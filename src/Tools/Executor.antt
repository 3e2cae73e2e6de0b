-- ===== src/Tools/Executor.antt =====
-- backend/src/adoptimizer/tools/executor.py: the choke point of every tool call. The state of the
-- object is a record, a call returns the result with the next state and the next world.
use multi_agent_ad_optimizer.Prelude.{
  ℕ, ◌+◌, ◌-◌, ◌*◌, String, Bool, not, Option, none, some, List, [], ◌∷◌, ◌++◌, leb, elem,
  if◌then◌else◌, ◌==◌, string_eq,
}
use multi_agent_ad_optimizer.Prelude.Dict.{Dict, get_or, put, tally}
use multi_agent_ad_optimizer.Domain.Enums.{AgentName}
use multi_agent_ad_optimizer.Tools.Spec.{
  ToolOutcome, tool_outcome_eq, refused_outcomes, ToolRequest, ToolSpec, ToolError, empty,
  ToolResult, is_dry_run,
}

pub record ToolSettings : Type 0 where
  pub enabled : Bool
  pub dry_run : Bool
  pub allow_agent_writes : Bool
  pub max_calls_per_run : ℕ

pub record RunStats : Type 0 where
  pub invocations : ℕ
  pub by_outcome : Dict ToolOutcome ℕ
  pub by_tool : Dict String ℕ
  pub writes : ℕ
  pub dry_runs : ℕ
  pub refusals : ℕ
  pub failures : ℕ

abbrev pub new_run_stats : RunStats
new_run_stats = record {
  invocations = 0;
  by_outcome = [];
  by_tool = [];
  writes = 0;
  dry_runs = 0;
  refusals = 0;
  failures = 0;
}

-- Readings of the clock in ticks of any length: on entry, when the result is built, and in
-- `_finish`.
pub record Timer : Type 0 where
  pub started : ℕ
  pub built : ℕ
  pub finished : ℕ

-- `_elapsed_ms`
abbrev pub elapsed_ms : ℕ → ℕ → ℕ
elapsed_ms started now = (now - started) * 1000

pub record ToolEvent : Type 0 where
  pub run_id : String
  pub agent : Option AgentName
  pub tool : String
  pub outcome : ToolOutcome
  pub error : Option ToolError

-- `recorded` lists what was handed to the audit sink. Whether the sink then raises changes
-- nothing here, since the executor swallows it.
pub record Executor (J V W : Type 0) : Type 0 where
  pub registry : Dict String (ToolSpec J V W)
  pub settings : ToolSettings
  pub calls_per_run : Dict String ℕ
  pub replays : Dict String (ToolResult J V W)
  pub stats_per_run : Dict String RunStats
  pub bus : Option (List ToolEvent)
  pub recorded : List (ToolResult J V W)

pub record Invocation (J V W : Type 0) : Type 0 where
  pub result : ToolResult J V W
  pub executor : Executor J V W
  pub world : W

module _ {J V W : Type 0} where
  -- One more invocation in the counters of its run.
  unfoldable pub counted :
      ToolRequest J → Option (ToolSpec J V W) → ToolOutcome → RunStats → RunStats
  unfolding is_dry_run
  counted request spec outcome stats = record {
    invocations = stats.invocations + 1;
    by_outcome = tally outcome stats.by_outcome;
    by_tool = tally request.tool stats.by_tool;
    writes =
        stats.writes + elim spec [ none ↦ 0 | some tool ↦ if not tool.read_only then 1 else 0 ];
    dry_runs = stats.dry_runs + (if is_dry_run outcome then 1 else 0);
    refusals = stats.refusals + (if elem outcome refused_outcomes then 1 else 0);
    failures = stats.failures + (if outcome == ToolOutcome.failed then 1 else 0);
  }

  -- `_count`
  unfoldable pub count :
      Executor J V W → ToolRequest J → Option (ToolSpec J V W) → ToolResult J V W → Executor J V W
  unfolding counted
  count s request spec result = record s {
    stats_per_run =
        put request.run_id
          (counted request spec result.outcome
            (get_or request.run_id new_run_stats s.stats_per_run))
          s.stats_per_run;
  }

  -- The event bus of `_finish`: a run's events go out only where a bus is attached.
  unfoldable pub publish : Executor J V W → ToolRequest J → ToolResult J V W → Executor J V W
  publish s request final = record s {
    bus = elim s.bus [
      | none ↦ none
      | some events ↦ some (
          events
          ++ record {
            run_id = request.run_id;
            agent = request.agent;
            tool = request.tool;
            outcome = final.outcome;
            error = final.error;
          }
            ∷ [])
    ];
  }

  -- The result of `_finish`. A result that the caller did not build gets the bare difference of
  -- the two readings, with no factor.
  unfoldable pub final_result :
      Timer
      → ToolRequest J
      → Option (ToolSpec J V W)
      → ToolOutcome
      → Option ToolError
      → Option (ToolResult J V W)
      → ToolResult J V W
  final_result timer request spec outcome error given =
      let final : ToolResult J V W = elim given [
        | some result ↦ result
        | none ↦ record {
          request = request;
          outcome = outcome;
          spec = spec;
          content = empty;
          error = error;
          duration_ms = timer.built - timer.started;
        }
      ] in
      if leb final.duration_ms 0
      then record final { duration_ms = elapsed_ms timer.started timer.finished }
      else final

  -- `_finish`: count, publish, persist.
  unfoldable pub noted :
      Executor J V W → ToolRequest J → Option (ToolSpec J V W) → ToolResult J V W → Executor J V W
  noted s request spec final =
      let told : Executor J V W =
        if request.run_id == "" then s else publish (count s request spec final) request final in
      record told { recorded = told.recorded ++ final ∷ [] }

  unfoldable pub finish :
      Timer
      → Executor J V W
      → W
      → ToolRequest J
      → Option (ToolSpec J V W)
      → ToolOutcome
      → Option ToolError
      → Option (ToolResult J V W)
      → Invocation J V W
  finish timer s world request spec outcome error given =
      let final = final_result timer request spec outcome error given in
      record { result = final; executor = noted s request spec final; world = world }
