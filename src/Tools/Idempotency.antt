-- ===== src/Tools/Idempotency.antt =====
-- Calls of tools/executor.py under one idempotency key.
use text.Mathlib.TextEquality.{eq_iff}
use multi_agent_ad_optimizer.Prelude.{
  true, false, not, ◌&&◌, some, none, List, inl, inr, ◌≡◌, ◌≢◌, arith, string_eq, ◌==◌, Bool-cases,
  Sum-cases,
}
use multi_agent_ad_optimizer.Prelude.Dict.{get, get-put_self}
use multi_agent_ad_optimizer.Tools.Spec.{
  ToolOutcome, ToolRequest, ToolSpec, ToolResult, from_agent, allows,
}
use multi_agent_ad_optimizer.Tools.Executor.{Timer, Executor, Invocation, final_result, finish}
use multi_agent_ad_optimizer.Tools.Call.{
  replay_key, remembered, run_handler, validate, replay, charged, charge, call, should_dry_run,
}
use multi_agent_ad_optimizer.Tools.Finish.{replays-noted}
use multi_agent_ad_optimizer.Tools.Interlock.{
  Runs, IsNew, IsAffordable, call_cases, call_allowed, charge_free, charge_left, replay-eq-validate,
}
use multi_agent_ad_optimizer.Tools.Advance.{
  success_result, run_handler_raised, run_handler_answered,
}
use multi_agent_ad_optimizer.Tools.Accounting.{session}
use multi_agent_ad_optimizer.Tools.Kept.{
  replay_key-ne-empty, call-SameSetup, session_keeps, session-SameSetup,
}

module _ {J V W : Type 0} where
  pub record Replays (kept : ToolResult J V W) (world : W) (i : Invocation J V W) : Type 0 where
    pub outcome : i.result.outcome ≡ ToolOutcome.replayed
    pub content : i.result.content ≡ kept.content
    pub error : i.result.error ≡ kept.error
    pub untouched : i.world ≡ world

  replay-Replays :
      (timer : Timer) (request : ToolRequest J) (spec : ToolSpec J V W) (s : Executor J V W)
      (world : W) (kept : ToolResult J V W)
      → (replay_key request == "") ≡ false
      → get (replay_key request) s.replays ≡ some kept
      → Replays kept world (replay timer request spec s world)
  unfolding replay finish final_result
  replay-Replays timer request spec s world kept keyed found = record {
    outcome = ground arith;
    content = ground arith;
    error = ground arith;
    untouched = ground arith;
  }

  call-Replays :
      (timer : Timer) (request : ToolRequest J) (spec : ToolSpec J V W) (s : Executor J V W)
      (world : W) (kept : ToolResult J V W)
      → s.settings.enabled ≡ true
      → get request.tool s.registry ≡ some spec
      → request.agent ≡ none
      → replay_key request ≢ ""
      → get (replay_key request) s.replays ≡ some kept
      → Replays kept world (call timer request s world)
  unfolding allows
  call-Replays timer request spec s world kept on known human named found =
      rw (call_allowed timer request s world spec on known (rw human)) (
        rw (charge_free timer request spec s world (rw human (ground arith))) (
          replay-Replays timer request spec s world kept
            (ground (arith, eq_iff (replay_key request) "")) found))

  run_handler_kept :
      (timer : Timer) (request : ToolRequest J) (spec : ToolSpec J V W) (arguments : V)
      (s : Executor J V W) (world : W)
      → replay_key request ≢ ""
      → let i = run_handler timer request spec arguments s world in
        i.result.outcome ≡ ToolOutcome.success
        → get (replay_key request) i.executor.replays ≡ some i.result
  unfolding finish
  run_handler_kept timer request spec arguments s world named =
      elim (Sum-cases (spec.handler arguments request world).0) [
        | inl ((kind, text), e) ↦
            rw (run_handler_raised timer request spec arguments s world kind text e)
              (λ h. absurd (unfold final_result in ground arith))
        | inr (answer, e) ↦
            rw (run_handler_answered timer request spec arguments s world answer e) (λ h.
              rw replays-noted (
                unfold remembered in
                ground (
                  arith,
                  eq_iff (replay_key request) "",
                  get-put_self (replay_key request) (success_result timer request spec answer)
                      s.replays,
                )))
      ]

  validate_runs :
      (timer : Timer) (request : ToolRequest J) (spec : ToolSpec J V W) (arguments : V)
      (s : Executor J V W) (world : W)
      → spec.parameters request.arguments ≡ inr arguments
      → should_dry_run s.settings request spec ≡ false
      → validate timer request spec s world ≡ run_handler timer request spec arguments s world
  unfolding validate
  validate_runs timer request spec arguments s world valid real = rw (valid, real, validate)

  -- A success under a key is in the table afterwards.
  abbrev Keeps : ToolRequest J → Invocation J V W → Type 0
  Keeps request i =
      i.result.outcome ≡ ToolOutcome.success
      → get (replay_key request) i.executor.replays ≡ some i.result

  replay_kept :
      (timer : Timer) (request : ToolRequest J) (spec : ToolSpec J V W) (s : Executor J V W)
      (world : W) {i : Invocation J V W}
      → replay_key request ≢ ""
      → Runs timer request spec s world i
      → IsNew timer request s
      → Keeps request (replay timer request spec s world)
  replay_kept timer request spec s world named runs new =
      rw (replay-eq-validate timer request spec s world new) (
        rw (validate_runs timer request spec runs.arguments s world runs.valid runs.real)
          (run_handler_kept timer request spec runs.arguments s world named))

  charge_kept :
      (timer : Timer) (request : ToolRequest J) (spec : ToolSpec J V W) (s : Executor J V W)
      (world : W) {i : Invocation J V W}
      → replay_key request ≢ ""
      → Runs timer request spec s world i
      → IsNew timer request s
      → IsAffordable timer request s
      → Keeps request (charge timer request spec s world)
  charge_kept timer request spec s world {i} named runs new affordable =
      elim (Bool-cases (not (request.run_id == "") && from_agent request)) [
        | inl budgeted ↦
            rw
              (charge_left timer request spec s world budgeted
                (elim affordable [ inl free ↦ cc | inr room ↦ ground arith ]))
              (replay_kept timer request spec (charged timer request s) world {i = i} named
                (record {
                  arguments = runs.arguments;
                  valid = runs.valid;
                  real = runs.real;
                  after = runs.after;
                })
                new)
        | inr free ↦
            rw (charge_free timer request spec s world free)
              (replay_kept timer request spec s world {i = i} named runs new)
      ]

  success_kept :
      (timer : Timer) (request : ToolRequest J) (s : Executor J V W) (world : W)
      → replay_key request ≢ ""
      → Keeps request (call timer request s world)
  success_kept timer request s world named = elim (call_cases timer request s world) [
    | inr stays ↦ λ success. absurd (stays.no_success success)
    | inl reaches ↦
        rw
          (call_allowed timer request s world reaches.spec reaches.enabled reaches.found
            reaches.allowed)
          (charge_kept timer request reaches.spec s world named reaches.runs reaches.is_new
            reaches.affordable)
  ]

  success-enabled :
      (timer : Timer) (request : ToolRequest J) (s : Executor J V W) (world : W)
      → (call timer request s world).result.outcome ≡ ToolOutcome.success
      → s.settings.enabled ≡ true
  success-enabled timer request s world success = elim (call_cases timer request s world) [
    | inl reaches ↦ reaches.enabled
    | inr stays ↦ absurd (stays.no_success success)
  ]

  -- Once a call under an idempotency key has succeeded, any later call by a person under the same
  -- key, after any session in between, reports the recorded content as replayed and leaves the
  -- world alone. The later call may name another registered tool.
  pub success_once :
      (timer again : Timer) (request retry : ToolRequest J) (s : Executor J V W) (world : W)
      (between : List (Timer × ToolRequest J)) (spec : ToolSpec J V W)
      → request.idempotency_key ≢ ""
      → (call timer request s world).result.outcome ≡ ToolOutcome.success
      → replay_key retry ≡ replay_key request
      → retry.agent ≡ none
      → get retry.tool s.registry ≡ some spec
      → let first = call timer request s world in
        let later = session between first.executor first.world in
        Replays first.result later.1 (call again retry later.0 later.1)
  success_once timer again request retry s world between spec given success same human known =
      let first = call timer request s world in
      let later = session between first.executor first.world in
      let named = replay_key-ne-empty request given in
      let setup = call-SameSetup timer request s world in
      let setup' = session-SameSetup between first.executor first.world in
      let kept =
        session_keeps between first.executor first.world (replay_key request) first.result named
          (success_kept timer request s world named success) in
      call-Replays again retry spec later.0 later.1 first.result
        (rw (setup'.settings, setup.settings) (success-enabled timer request s world success))
        (rw (setup'.registry, setup.registry) known) human (rw same named) (rw same kept)
