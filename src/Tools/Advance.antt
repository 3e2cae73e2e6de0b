-- ===== src/Tools/Advance.antt =====
-- How one call moves the executor on: at most one charge and at most one kept success, and then
-- exactly one `_finish`.
use multi_agent_ad_optimizer.Prelude.{
  String, Option, some, none, ◌⊎◌, inl, inr, ◌≡◌, refl, ◌<◌, not, ◌&&◌, true, false, ◌==◌, arith,
  string_eq, Bool-cases, if◌then◌else◌, Option-cases, Sum-cases, leb,
}
use multi_agent_ad_optimizer.Prelude.Dict.{get, get_or, put}
use multi_agent_ad_optimizer.Tools.Spec.{
  ToolOutcome, ToolRequest, ToolSpec, ToolResult, from_agent, allows, payload, raised,
  layer_disabled, unknown_tool, may_not_call,
}
use multi_agent_ad_optimizer.Tools.Executor.{
  Executor, Timer, Invocation, noted, final_result, finish,
}
use multi_agent_ad_optimizer.Tools.Call.{
  replay_key, remembered, run_handler, validate, replay, charged, charge, call, should_dry_run,
  built_result,
}
use multi_agent_ad_optimizer.Tools.Interlock.{call_allowed}

module _ {J V W : Type 0} (timer : Timer) (request : ToolRequest J) where
  -- `base` is the executor just before `_finish`.
  pub record Settles (s : Executor J V W) (i : Invocation J V W) : Type 0 where
    pub base : Executor J V W
    pub spec : Option (ToolSpec J V W)
    pub ends : i.executor ≡ noted base request spec i.result
    pub registry : base.registry ≡ s.registry
    pub settings : base.settings ≡ s.settings
    pub stats : base.stats_per_run ≡ s.stats_per_run
    pub recorded : base.recorded ≡ s.recorded
    pub calls : base.calls_per_run ≡ s.calls_per_run
    pub replays :
        (base.replays ≡ s.replays)
        ⊎ (i.result.outcome ≡ ToolOutcome.success)
          × (base.replays ≡ put (replay_key request) i.result s.replays)

  remembered-frame :
      (spec : ToolSpec J V W) (final : ToolResult J V W) (s : Executor J V W)
      → ((remembered timer request spec final s).registry ≡ s.registry)
        × ((remembered timer request spec final s).settings ≡ s.settings)
        × ((remembered timer request spec final s).stats_per_run ≡ s.stats_per_run)
        × ((remembered timer request spec final s).recorded ≡ s.recorded)
        × ((remembered timer request spec final s).calls_per_run ≡ s.calls_per_run)
  unfolding remembered
  remembered-frame spec final s = ground arith

  Settles-finish :
      (s : Executor J V W) (world : W) (spec : Option (ToolSpec J V W)) (outcome : ToolOutcome)
      (error : Option _) (given : Option (ToolResult J V W))
      → Settles s (finish timer s world request spec outcome error given)
  unfolding finish
  Settles-finish s world spec outcome error given = record {
    base = s;
    spec = spec;
    ends = refl;
    registry = refl;
    settings = refl;
    stats = refl;
    recorded = refl;
    calls = refl;
    replays = inl refl;
  }

  abbrev pub success_result : ToolSpec J V W → J → ToolResult J V W
  success_result spec answer =
      final_result timer request (some spec) ToolOutcome.success none
        (some (built_result timer request spec ToolOutcome.success (payload answer) none))

  answered-Settles :
      (spec : ToolSpec J V W) (answer : J) (s : Executor J V W) (world : W)
      → let final = built_result timer request spec ToolOutcome.success (payload answer) none in
        Settles s (
          finish timer
            (remembered timer request spec final s)
            world
            request
            (some spec)
            ToolOutcome.success
            none
            (some final))
  unfolding finish remembered final_result
  answered-Settles spec answer s world = record {
    base = _;
    spec = some spec;
    ends = refl;
    registry = ground arith;
    settings = ground arith;
    stats = ground arith;
    recorded = ground arith;
    calls = ground arith;
    replays = elim (Bool-cases (replay_key request == "")) [
      | inl blank ↦ inl (rw blank)
      | inr keyed ↦ inr (ground arith, rw keyed)
    ];
  }

  pub run_handler_raised :
      (spec : ToolSpec J V W) (arguments : V) (s : Executor J V W) (world : W) (kind text : String)
      → (spec.handler arguments request world).0 ≡ inl (kind, text)
      → run_handler timer request spec arguments s world
        ≡ finish timer s
            (spec.handler arguments request world).1
            request
            (some spec)
            ToolOutcome.failed
            (some (raised kind text))
            none
  unfolding run_handler
  run_handler_raised spec arguments s world kind text e = rw (e, run_handler)

  pub run_handler_answered :
      (spec : ToolSpec J V W) (arguments : V) (s : Executor J V W) (world : W) (answer : J)
      → (spec.handler arguments request world).0 ≡ inr answer
      → let final = built_result timer request spec ToolOutcome.success (payload answer) none in
        run_handler timer request spec arguments s world
        ≡ finish timer
            (remembered timer request spec final s)
            (spec.handler arguments request world).1
            request
            (some spec)
            ToolOutcome.success
            none
            (some final)
  unfolding run_handler
  run_handler_answered spec arguments s world answer e = rw (e, run_handler)

  run_handler-Settles :
      (spec : ToolSpec J V W) (arguments : V) (s : Executor J V W) (world : W)
      → Settles s (run_handler timer request spec arguments s world)
  run_handler-Settles spec arguments s world =
      elim (Sum-cases (spec.handler arguments request world).0) [
        | inl ((kind, text), e) ↦
            rw (run_handler_raised spec arguments s world kind text e)
              (Settles-finish s _ (some spec) ToolOutcome.failed _ none)
        | inr (answer, e) ↦
            rw (run_handler_answered spec arguments s world answer e)
              (answered-Settles spec answer s _)
      ]

  validate-Settles :
      (spec : ToolSpec J V W) (s : Executor J V W) (world : W)
      → Settles s (validate timer request spec s world)
  unfolding validate
  validate-Settles spec s world = elim (Sum-cases (spec.parameters request.arguments)) [
    | inl (text, e) ↦ rw (e, validate) (Settles-finish s world (some spec) _ _ none)
    | inr (arguments, e) ↦
        rw (e, validate)
          (elim (Bool-cases (should_dry_run s.settings request spec)) [
            | inl dry ↦ rw dry (Settles-finish s world (some spec) _ _ _)
            | inr real ↦ rw real (run_handler-Settles spec arguments s world)
          ])
  ]

  replay-Settles :
      (spec : ToolSpec J V W) (s : Executor J V W) (world : W)
      → Settles s (replay timer request spec s world)
  unfolding replay
  replay-Settles spec s world =
      elim (Option-cases
        (if not (replay_key request == "") then get (replay_key request) s.replays else none)) [
          | inl absent ↦ rw (absent, replay) (validate-Settles spec s world)
          | inr (previous, found) ↦ rw (found, replay) (Settles-finish s world (some spec) _ _ _)
        ]

  -- A call that is charged settles from the executor with the charge.
  abbrev pub Advances : Executor J V W → Invocation J V W → Type 0
  Advances s i =
      Settles s i
      ⊎ (get_or request.run_id 0 s.calls_per_run < s.settings.max_calls_per_run)
        × Settles (charged timer request s) i

  charge-Advances :
      (spec : ToolSpec J V W) (s : Executor J V W) (world : W)
      → Advances s (charge timer request spec s world)
  unfolding charge
  charge-Advances spec s world =
      elim (Bool-cases (not (request.run_id == "") && from_agent request)) [
        | inl budgeted ↦
            elim (Bool-cases
              (leb s.settings.max_calls_per_run (get_or request.run_id 0 s.calls_per_run))) [
                | inl spent ↦
                    rw (budgeted, spent, charge) (inl (Settles-finish s world (some spec) _ _ none))
                | inr left ↦
                    rw (budgeted, left, charge)
                      (inr (ground arith, replay-Settles spec (charged timer request s) world))
              ]
        | inr free ↦ rw (free, charge) (inl (replay-Settles spec s world))
      ]

  module _ (s : Executor J V W) (world : W) where
    call_disabled :
        s.settings.enabled ≡ false
        → call timer request s world
          ≡ finish timer s world request
              (get request.tool s.registry)
              ToolOutcome.disabled
              (some layer_disabled)
              none
    unfolding call
    call_disabled off = ground arith

    call_unknown :
        s.settings.enabled ≡ true
        → get request.tool s.registry ≡ none
        → call timer request s world
          ≡ finish timer s world request none ToolOutcome.validation_failed
              (some (unknown_tool request.tool))
              none
    unfolding call
    call_unknown on unknown = ground arith

    call_denied :
        (spec : ToolSpec J V W)
        → s.settings.enabled ≡ true
        → get request.tool s.registry ≡ some spec
        → allows spec request.agent ≡ false
        → call timer request s world
          ≡ finish timer s world request
              (some spec)
              ToolOutcome.permission_denied
              (some (may_not_call request.agent spec.name))
              none
    unfolding call
    call_denied spec on found denied = ground arith

    pub call-Advances : Advances s (call timer request s world)
    call-Advances = elim (Bool-cases s.settings.enabled) [
      | inr off ↦ rw (call_disabled off) (inl (Settles-finish s world _ _ _ none))
      | inl on ↦ elim (Option-cases (get request.tool s.registry)) [
        | inl unknown ↦ rw (call_unknown on unknown) (inl (Settles-finish s world none _ _ none))
        | inr (spec, found) ↦ elim (Bool-cases (allows spec request.agent)) [
          | inr denied ↦
              rw (call_denied spec on found denied)
                (inl (Settles-finish s world (some spec) _ _ none))
          | inl allowed ↦
              rw (call_allowed timer request s world spec on found allowed)
                (charge-Advances spec s world)
        ]
      ]
    ]
