-- ===== src/Tools/Call.antt =====
-- `ToolExecutor.call` of backend/src/adoptimizer/tools/executor.py, stage by stage. Each stage is
-- the code from one gate to the next, and ends in a call of `_finish` or in the next stage.
use multi_agent_ad_optimizer.Prelude.{
  ◌+◌, String, Bool, true, false, not, ◌&&◌, Option, none, some, [], ◌∷◌, inl, inr, leb,
  if◌then◌else◌, ◌==◌, string_eq,
}
use multi_agent_ad_optimizer.Prelude.Dict.{get, get_or, put}
use multi_agent_ad_optimizer.Prelude.Text.{concat}
use multi_agent_ad_optimizer.Tools.Spec.{
  ToolOutcome, ToolRequest, from_agent, ToolSpec, allows, ToolError, layer_disabled, unknown_tool,
  may_not_call, reached_budget, invalid_arguments, raised, DryRunReason, agent_preflight,
  caller_requested, paper_trading, ToolData, payload, rehearsal, ToolResult,
}
use multi_agent_ad_optimizer.Tools.Executor.{
  ToolSettings, Executor, Invocation, Timer, elapsed_ms, final_result, finish,
}

module _ {J V W : Type 0} where
  -- `_should_dry_run`
  unfoldable pub should_dry_run : ToolSettings → ToolRequest J → ToolSpec J V W → Bool
  should_dry_run settings request spec =
      if spec.read_only
      then false
      else if from_agent request && not settings.allow_agent_writes
      then true
      else elim request.dry_run [ some asked ↦ asked | none ↦ settings.dry_run ]

module _ {J : Type 0} where
  -- `_replay_key`
  unfoldable pub replay_key : ToolRequest J → String
  replay_key request =
      if request.idempotency_key == ""
      then ""
      else concat (request.run_id ∷ "|" ∷ request.idempotency_key ∷ [])

  -- `_dry_run_reason`
  unfoldable pub dry_run_reason : ToolRequest J → ToolSettings → DryRunReason
  dry_run_reason request settings =
      if from_agent request && not settings.allow_agent_writes
      then agent_preflight request.agent
      else elim request.dry_run [ some true ↦ caller_requested | _ ↦ paper_trading ]

module _ {J V W : Type 0} (timer : Timer) (request : ToolRequest J) where
  abbrev pub built_result :
      ToolSpec J V W → ToolOutcome → ToolData J → Option ToolError → ToolResult J V W
  built_result spec outcome content error = record {
    request = request;
    outcome = outcome;
    spec = some spec;
    content = content;
    error = error;
    duration_ms = elapsed_ms timer.started timer.built;
  }

  -- A success is kept under the key of its request. The table holds the object that `_finish`
  -- then completes in place, so what a later call reads there is the completed result.
  unfoldable pub remembered : ToolSpec J V W → ToolResult J V W → Executor J V W → Executor J V W
  remembered spec final s =
      if not (replay_key request == "")
      then record s {
        replays =
            put (replay_key request)
              (final_result timer request (some spec) ToolOutcome.success none (some final))
              s.replays;
      }
      else s

  -- The handler is awaited, and what it returns or raises is recorded.
  unfoldable pub run_handler : ToolSpec J V W → V → Executor J V W → W → Invocation J V W
  run_handler spec arguments s world =
      let (answer, after) = spec.handler arguments request world in
      elim answer [
        | inl (kind, text) ↦
            finish timer s after request (some spec) ToolOutcome.failed (some (raised kind text))
              none
        | inr result ↦
            let final = built_result spec ToolOutcome.success (payload result) none in
            finish timer (remembered spec final s) after request (some spec) ToolOutcome.success
              none (some final)
      ]

  -- Validation, then the choice between a rehearsal and the handler.
  unfoldable pub validate : ToolSpec J V W → Executor J V W → W → Invocation J V W
  validate spec s world = elim (spec.parameters request.arguments) [
    | inl text ↦
        finish timer s world request (some spec) ToolOutcome.validation_failed
          (some (invalid_arguments text)) none
    | inr arguments ↦
        if should_dry_run s.settings request spec
        then finish timer s world request (some spec) ToolOutcome.dry_run none (
            some (
              built_result spec ToolOutcome.dry_run
                (rehearsal spec.name request.arguments (dry_run_reason request s.settings)) none))
        else run_handler spec arguments s world
  ]

  -- A recorded success under the same key answers in place of the handler.
  unfoldable pub replay : ToolSpec J V W → Executor J V W → W → Invocation J V W
  replay spec s world =
      let key = replay_key request in
      elim (if not (key == "") then get key s.replays else none) [
        | some previous ↦
            finish timer s world request (some spec) ToolOutcome.replayed none
              (some (built_result spec ToolOutcome.replayed previous.content previous.error))
        | none ↦ validate spec s world
      ]

  -- One more call of the request's run.
  abbrev pub charged : Executor J V W → Executor J V W
  charged s = record s {
    calls_per_run =
        put request.run_id (get_or request.run_id 0 s.calls_per_run + 1) s.calls_per_run;
  }

  -- Agent calls of a named run are charged to the run's budget.
  unfoldable pub charge : ToolSpec J V W → Executor J V W → W → Invocation J V W
  charge spec s world =
      if not (request.run_id == "") && from_agent request
      then (if leb s.settings.max_calls_per_run (get_or request.run_id 0 s.calls_per_run)
          then finish timer s world request (some spec) ToolOutcome.budget_exhausted
              (some (reached_budget request.run_id s.settings.max_calls_per_run)) none
          else replay spec (charged s) world)
      else replay spec s world

  unfoldable pub call : Executor J V W → W → Invocation J V W
  call s world =
      let spec = get request.tool s.registry in
      if not s.settings.enabled
      then finish timer s world request spec ToolOutcome.disabled (some layer_disabled) none
      else elim spec [
        | none ↦
            finish timer s world request none ToolOutcome.validation_failed
              (some (unknown_tool request.tool)) none
        | some tool ↦
            if not (allows tool request.agent)
            then finish timer s world request (some tool) ToolOutcome.permission_denied
                (some (may_not_call request.agent tool.name)) none
            else charge tool s world
      ]
