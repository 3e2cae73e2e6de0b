-- ===== src/Tools/Finish.antt =====
-- What `_finish` leaves alone, whichever outcome it notes.
use multi_agent_ad_optimizer.Prelude.{Option, ◌≡◌, arith}
use multi_agent_ad_optimizer.Tools.Spec.{ToolOutcome, ToolRequest, ToolSpec, ToolError, ToolResult}
use multi_agent_ad_optimizer.Tools.Executor.{Executor, Timer, count, publish, noted, final_result}

module _ {J V W : Type 0} (s : Executor J V W) (request : ToolRequest J)
    (spec : Option (ToolSpec J V W)) (final : ToolResult J V W) where
  pub registry-noted : (noted s request spec final).registry ≡ s.registry
  unfolding noted count publish
  registry-noted = ground arith

  pub settings-noted : (noted s request spec final).settings ≡ s.settings
  unfolding noted count publish
  settings-noted = ground arith

  pub calls-noted : (noted s request spec final).calls_per_run ≡ s.calls_per_run
  unfolding noted count publish
  calls-noted = ground arith

  pub replays-noted : (noted s request spec final).replays ≡ s.replays
  unfolding noted count publish
  replays-noted = ground arith

module _ {J V W : Type 0} (timer : Timer) (request : ToolRequest J) (spec : Option (ToolSpec J V W))
    (outcome : ToolOutcome) (error : Option ToolError) (given : Option (ToolResult J V W)) where
  abbrev outcome_of : ToolOutcome
  outcome_of = elim given [ Option.none ↦ outcome | Option.some r ↦ r.outcome ]

  pub outcome-final_result :
      (final_result timer request spec outcome error given).outcome ≡ outcome_of
  unfolding final_result
  outcome-final_result = ground arith
