-- ===== src/Actions/Push.antt =====
-- `_push` of services/actions.py: an approved change goes to the network through the tool executor.
use multi_agent_ad_optimizer.Prelude.{
  String, true, false, not, ◌||◌, Option, none, some, ◌==◌, string_eq, otherwise, if◌then◌else◌,
}
use multi_agent_ad_optimizer.Prelude.Text.{concat, clip, strip}
use mathlib.Core.List.{[], ◌∷◌}
use multi_agent_ad_optimizer.Domain.Enums.{Platform}
use multi_agent_ad_optimizer.Tools.Spec.{
  ToolOutcome, tool_outcome_eq, ToolRequest, ToolResult, ToolData, refused, is_dry_run,
}
use multi_agent_ad_optimizer.Tools.Call.{call}
use multi_agent_ad_optimizer.Actions.Records.{
  OptimizationAction, ExecutionResult, AdapterPayload, Wire, adapter_answer, ServiceError, present,
}
use multi_agent_ad_optimizer.Actions.Monad.{Service, Env, M, pure, raise}

module _ {F : Type 0} where
  -- `_reason`: never empty, never over-long.
  unfoldable pub reason_of : OptimizationAction F → String
  unfolding clip
  reason_of action =
      let text = clip 200 (strip action.reason) in if text == "" then action.action_type else text

  -- The payload that a tool returned, or no key at all.
  abbrev pub payload_of : ToolData (Wire F) → AdapterPayload
  payload_of (ToolData.payload (adapter_answer p)) = p
  payload_of _ = record {
    success = none;
    operation = none;
    external_reference = none;
    error = none;
    dry_run = none;
  }

  -- `_execution_from_tool`
  unfoldable pub execution_from_tool :
      {V W : Type 0} → ToolResult (Wire F) V W → Platform → String → ExecutionResult
  unfolding is_dry_run
  execution_from_tool result platform operation =
      if is_dry_run result.outcome
      then record {
        success = true;
        platform = platform;
        operation = operation;
        external_reference = none;
        error = none;
        dry_run = true;
      }
      else let payload = payload_of result.content in
        record {
          success = otherwise true payload.success;
          platform = platform;
          operation = otherwise operation (present payload.operation);
          external_reference = present payload.external_reference;
          error = present payload.error;
          dry_run = otherwise false payload.dry_run;
        }

  -- The request that stands for one action, whichever attempt this is.
  unfoldable pub request_of : OptimizationAction F → String → Wire F → ToolRequest (Wire F)
  request_of action tool arguments = record {
    tool = tool;
    arguments = arguments;
    agent = none;
    run_id = otherwise "" action.run_id;
    actor = otherwise "system" (present action.approved_by);
    idempotency_key = concat ("action:" ∷ action.id ∷ []);
    dry_run = none;
  }

module _ {F V W : Type 0} (env : Env F V W) where
  unfoldable pub push :
      OptimizationAction F
      → String
      → String
      → Option Platform
      → (Platform → Wire F)
      → M F V W (Option ExecutionResult)
  unfolding request_of refused execution_from_tool
  push action tool operation none arguments s = pure none s
  push action tool operation (some platform) arguments s = elim s.tools [
    | none ↦ pure none s
    | some executor ↦
        if not executor.settings.enabled
        then pure none s
        else let i =
            call env.timer (request_of action tool (arguments platform)) executor s.world in
          let s' : Service F V W = record s { tools = some i.executor; world = i.world } in
          if i.result.outcome == ToolOutcome.validation_failed
          then raise ServiceError.validation_failure s'
          else if i.result.outcome == ToolOutcome.failed || refused i.result.outcome
          then raise ServiceError.external_service s'
          else pure (some (execution_from_tool i.result platform operation)) s'
  ]
