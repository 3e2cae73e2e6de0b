-- ===== src/Actions/Once.antt =====
-- Sending an approved action again: `_push` of services/actions.py keys its calls on the action.
use text.Mathlib.TextLemmas.{append-eq-nil_iff}
use multi_agent_ad_optimizer.Prelude.{
  String, some, List, ◌≡◌, ◌≢◌, refl, ap, arith, ◌==◌, string_eq,
}
use multi_agent_ad_optimizer.Prelude.Dict.{get}
use multi_agent_ad_optimizer.Domain.Enums.{Platform}
use multi_agent_ad_optimizer.Tools.Spec.{ToolOutcome, ToolRequest, ToolSpec}
use multi_agent_ad_optimizer.Tools.Executor.{Timer, Executor}
use multi_agent_ad_optimizer.Tools.Call.{call, replay_key}
use multi_agent_ad_optimizer.Tools.Accounting.{session}
use multi_agent_ad_optimizer.Tools.Idempotency.{success_once}
use multi_agent_ad_optimizer.Actions.Records.{OptimizationAction, Wire}
use multi_agent_ad_optimizer.Actions.Monad.{Service, Env}
use multi_agent_ad_optimizer.Actions.Push.{request_of, push}

module _ {F V W : Type 0} (env : Env F V W) where
  -- The world after a push is the world after its tool call, or nothing was called.
  push_untouched :
      (action : OptimizationAction F) (tool operation : String) (platform : Platform)
      (arguments : Platform → Wire F) (executor : Executor (Wire F) V W) (s : Service F V W)
      → s.tools ≡ some executor
      → (call env.timer (request_of action tool (arguments platform)) executor s.world).world
        ≡ s.world
      → (push env action tool operation (some platform) arguments s).1.world ≡ s.world
  unfolding push
  push_untouched action tool operation platform arguments executor s with_tools same =
      ground (arith, with_tools, same)

module _ {F : Type 0} where
  request_of_keyed :
      (action : OptimizationAction F) (tool : String) (arguments : Wire F)
      → (request_of action tool arguments).idempotency_key ≢ ""
  unfolding request_of
  request_of_keyed action tool arguments e =
      ground (arith, ap (λ t. t == "") (append-eq-nil_iff.0 e).0)

  replay_key-request_of :
      (action again : OptimizationAction F) (tool tool' : String) (arguments arguments' : Wire F)
      → again.id ≡ action.id
      → again.run_id ≡ action.run_id
      → replay_key (request_of again tool' arguments')
        ≡ replay_key (request_of action tool arguments)
  unfolding replay_key request_of
  replay_key-request_of action again tool tool' arguments arguments' id run = rw (id, run) refl

module _ {F V W : Type 0} (env : Env F V W) where
  -- Once an action was sent under its key and the tool reported success, then after any session of
  -- tool calls in between, sending the action again (after a failed commit, say), through any
  -- registered tool and with any arguments, leaves the world as it was.
  pub push_once :
      (action again : OptimizationAction F) (tool tool' operation : String)
      (platform platform' : Platform) (arguments arguments' : Platform → Wire F)
      (executor : Executor (Wire F) V W) (world : W) (between : List (Timer × ToolRequest (Wire F)))
      (spec : ToolSpec (Wire F) V W) (s : Service F V W)
      → again.id ≡ action.id
      → again.run_id ≡ action.run_id
      → get tool' executor.registry ≡ some spec
      → (call env.timer (request_of action tool (arguments platform)) executor world).result.outcome
        ≡ ToolOutcome.success
      → let first = call env.timer (request_of action tool (arguments platform)) executor world in
        let later = session between first.executor first.world in
        let t : Service F V W = record s { tools = some later.0; world = later.1 } in
        (push env again tool' operation (some platform') arguments' t).1.world ≡ later.1
  push_once action again tool tool' operation platform platform' arguments arguments' executor world
        between spec s id run known success =
      let first = call env.timer (request_of action tool (arguments platform)) executor world in
      let later = session between first.executor first.world in
      let retry = request_of again tool' (arguments' platform') in
      let replays =
        success_once env.timer env.timer (request_of action tool (arguments platform)) retry
          executor world between spec (request_of_keyed action tool (arguments platform)) success
          (replay_key-request_of action again tool tool' (arguments platform) (arguments' platform')
            id run)
          (unfold request_of in refl) (unfold request_of in known) in
      push_untouched env again tool' operation platform' arguments' later.0
        (record s { tools = some later.0; world = later.1 }) refl replays.untouched
