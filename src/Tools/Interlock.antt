-- ===== src/Tools/Interlock.antt =====
-- When a call reaches a handler, and so the outside world.
use multi_agent_ad_optimizer.Prelude.{
  true, false, none, some, ◌⊎◌, inl, inr, ◌≡◌, ◌≢◌, ap, arith, string_eq, Bool-cases, Sum-cases,
  ◌==◌, ==_sound, Option-cases, leb, ◌<◌, not, ◌&&◌,
}
use text.Mathlib.TextEquality.{eq_iff}
use multi_agent_ad_optimizer.Prelude.Dict.{get, get_or}
use multi_agent_ad_optimizer.Tools.Spec.{
  ToolOutcome, ToolRequest, from_agent, ToolSpec, allows, ToolResult,
}
use multi_agent_ad_optimizer.Tools.Executor.{Executor, Timer, Invocation, finish, final_result}
use multi_agent_ad_optimizer.Tools.Call.{
  should_dry_run, run_handler, validate, replay, charged, charge, call, replay_key,
}

module _ {J V W : Type 0} (timer : Timer) (request : ToolRequest J) where
  -- The handler ran on validated arguments, for real, and the world is the one that it left.
  pub record Runs (spec : ToolSpec J V W) (s : Executor J V W) (world : W) (i : Invocation J V W)
      : Type 0 where
    pub arguments : V
    pub valid : spec.parameters request.arguments ≡ inr arguments
    pub real : should_dry_run s.settings request spec ≡ false
    pub after : i.world ≡ (spec.handler arguments request world).1

  -- No handler ran.
  pub record Stays (world : W) (i : Invocation J V W) : Type 0 where
    pub same : i.world ≡ world
    pub no_success : i.result.outcome ≢ ToolOutcome.success
    pub no_failure : i.result.outcome ≢ ToolOutcome.failed

  abbrev RunsOrStays : ToolSpec J V W → Executor J V W → W → Invocation J V W → Type 0
  RunsOrStays spec s world i = Runs spec s world i ⊎ Stays world i

  run_handler-after :
      (spec : ToolSpec J V W) (arguments : V) (s : Executor J V W) (world : W)
      → (run_handler timer request spec arguments s world).world
        ≡ (spec.handler arguments request world).1
  unfolding run_handler finish
  run_handler-after spec arguments s world = ground arith

  validate_cases :
      (spec : ToolSpec J V W) (s : Executor J V W) (world : W)
      → RunsOrStays spec s world (validate timer request spec s world)
  unfolding validate finish final_result
  validate_cases spec s world = elim (Sum-cases (spec.parameters request.arguments)) [
    | inl (text, e) ↦
        inr (record { same = ground arith; no_success = ground arith; no_failure = ground arith })
    | inr (arguments, e) ↦ elim (Bool-cases (should_dry_run s.settings request spec)) [
      | inl dry ↦
          inr (record { same = ground arith; no_success = ground arith; no_failure = ground arith })
      | inr real ↦ inl (record {
        arguments = arguments;
        valid = e;
        real = real;
        after = ground (arith, run_handler-after spec arguments s world);
      })
    ]
  ]

  -- No result was recorded under the key of the request.
  abbrev pub IsNew : Executor J V W → Type 0
  IsNew s = (replay_key request ≡ "") ⊎ (get (replay_key request) s.replays ≡ none)

  pub replay-eq-validate :
      (spec : ToolSpec J V W) (s : Executor J V W) (world : W)
      → IsNew s
      → replay timer request spec s world ≡ validate timer request spec s world
  unfolding replay
  replay-eq-validate spec s world h = ground (arith, eq_iff (replay_key request) "")

  replay_recorded :
      (spec : ToolSpec J V W) (s : Executor J V W) (world : W) (previous : ToolResult J V W)
      → (replay_key request == "") ≡ false
      → get (replay_key request) s.replays ≡ some previous
      → Stays world (replay timer request spec s world)
  unfolding replay finish final_result
  replay_recorded spec s world previous keyed found = record {
    same = ground arith;
    no_success = ground arith;
    no_failure = ground arith;
  }

  replay_cases :
      (spec : ToolSpec J V W) (s : Executor J V W) (world : W)
      → Runs spec s world (replay timer request spec s world) × IsNew s
        ⊎ Stays world (replay timer request spec s world)
  replay_cases spec s world = elim (Bool-cases (replay_key request == "")) [
    | inl blank ↦ fresh (inl (==_sound _ _ blank))
    | inr keyed ↦ elim (Option-cases (get (replay_key request) s.replays)) [
      | inl absent ↦ fresh (inr absent)
      | inr (previous, found) ↦ inr (replay_recorded spec s world previous keyed found)
    ]
  ]
    where
      fresh :
          IsNew s
          → Runs spec s world (replay timer request spec s world) × IsNew s
            ⊎ Stays world (replay timer request spec s world)
      fresh h =
          rw (replay-eq-validate spec s world h) (elim (validate_cases spec s world) [
            | inl runs ↦ inl (runs, h)
            | inr stays ↦ inr stays
          ])

  -- The call is not budgeted, or its run has calls left.
  abbrev pub IsAffordable : Executor J V W → Type 0
  IsAffordable s =
      ((not (request.run_id == "") && from_agent request) ≡ false)
      ⊎ (get_or request.run_id 0 s.calls_per_run < s.settings.max_calls_per_run)

  Runs-charged :
      (spec : ToolSpec J V W) (s : Executor J V W) (world : W) (i : Invocation J V W)
      → Runs spec (charged timer request s) world i
      → Runs spec s world i
  Runs-charged spec s world i r = record {
    arguments = r.arguments;
    valid = r.valid;
    real = r.real;
    after = r.after;
  }

  charge_spent :
      (spec : ToolSpec J V W) (s : Executor J V W) (world : W)
      → (not (request.run_id == "") && from_agent request) ≡ true
      → leb s.settings.max_calls_per_run (get_or request.run_id 0 s.calls_per_run) ≡ true
      → Stays world (charge timer request spec s world)
  unfolding charge finish final_result
  charge_spent spec s world budgeted spent = record {
    same = rw (budgeted, spent);
    no_success = rw (budgeted, spent) (ground arith);
    no_failure = rw (budgeted, spent) (ground arith);
  }

  pub charge_left :
      (spec : ToolSpec J V W) (s : Executor J V W) (world : W)
      → (not (request.run_id == "") && from_agent request) ≡ true
      → leb s.settings.max_calls_per_run (get_or request.run_id 0 s.calls_per_run) ≡ false
      → charge timer request spec s world
        ≡ replay timer request spec (charged timer request s) world
  unfolding charge
  charge_left spec s world budgeted left = rw (budgeted, left)

  pub charge_free :
      (spec : ToolSpec J V W) (s : Executor J V W) (world : W)
      → (not (request.run_id == "") && from_agent request) ≡ false
      → charge timer request spec s world ≡ replay timer request spec s world
  unfolding charge
  charge_free spec s world free = rw free

  abbrev Goes : ToolSpec J V W → Executor J V W → W → Invocation J V W → Type 0
  Goes spec s world i = Runs spec s world i × IsNew s × IsAffordable s

  charge_cases :
      (spec : ToolSpec J V W) (s : Executor J V W) (world : W)
      → Goes spec s world (charge timer request spec s world)
        ⊎ Stays world (charge timer request spec s world)
  charge_cases spec s world = elim (Bool-cases (not (request.run_id == "") && from_agent request)) [
    | inl budgeted ↦
        elim (Bool-cases
          (leb s.settings.max_calls_per_run (get_or request.run_id 0 s.calls_per_run))) [
            | inl spent ↦ inr (charge_spent spec s world budgeted spent)
            | inr left ↦
                rw (charge_left spec s world budgeted left)
                  (elim (replay_cases spec (charged timer request s) world) [
                    | inl (runs, new) ↦
                        inl (Runs-charged spec s world _ runs, new, inr (ground arith))
                    | inr stays ↦ inr stays
                  ])
          ]
    | inr free ↦ rw (charge_free spec s world free) (elim (replay_cases spec s world) [
      | inl (runs, new) ↦ inl (runs, new, inl free)
      | inr stays ↦ inr stays
    ])
  ]

  -- Everything that stands between a request and the handler of a tool.
  pub record Reaches (s : Executor J V W) (world : W) (i : Invocation J V W) : Type 0 where
    pub spec : ToolSpec J V W
    pub enabled : s.settings.enabled ≡ true
    pub found : get request.tool s.registry ≡ some spec
    pub allowed : allows spec request.agent ≡ true
    pub affordable : IsAffordable s
    pub is_new : IsNew s
    pub runs : Runs spec s world i

  call_off :
      (s : Executor J V W) (world : W)
      → (s.settings.enabled ≡ false) ⊎ (get request.tool s.registry ≡ none)
      → Stays world (call timer request s world)
  unfolding call finish final_result
  call_off s world h = record {
    same = ground arith;
    no_success = ground arith;
    no_failure = ground arith;
  }

  call_denied :
      (s : Executor J V W) (world : W) (spec : ToolSpec J V W)
      → s.settings.enabled ≡ true
      → get request.tool s.registry ≡ some spec
      → allows spec request.agent ≡ false
      → Stays world (call timer request s world)
  unfolding call finish final_result
  call_denied s world spec on found denied = record {
    same = ground arith;
    no_success = ground arith;
    no_failure = ground arith;
  }

  pub call_allowed :
      (s : Executor J V W) (world : W) (spec : ToolSpec J V W)
      → s.settings.enabled ≡ true
      → get request.tool s.registry ≡ some spec
      → allows spec request.agent ≡ true
      → call timer request s world ≡ charge timer request spec s world
  unfolding call
  call_allowed s world spec on found allowed = ground arith

  -- A call either passes all five gates and is no rehearsal, and then leaves the world as the
  -- handler left it; or it leaves the world as it was and reports neither success nor failure.
  pub call_cases :
      (s : Executor J V W) (world : W)
      → Reaches s world (call timer request s world) ⊎ Stays world (call timer request s world)
  call_cases s world = elim (Bool-cases s.settings.enabled) [
    | inr off ↦ inr (call_off s world (inl off))
    | inl on ↦ elim (Option-cases (get request.tool s.registry)) [
      | inl unknown ↦ inr (call_off s world (inr unknown))
      | inr (spec, found) ↦ elim (Bool-cases (allows spec request.agent)) [
        | inr denied ↦ inr (call_denied s world spec on found denied)
        | inl allowed ↦
            rw (call_allowed s world spec on found allowed) (elim (charge_cases spec s world) [
              | inl (runs, new, affordable) ↦ inl (record {
                spec = spec;
                enabled = on;
                found = found;
                allowed = allowed;
                affordable = affordable;
                is_new = new;
                runs = runs;
              })
              | inr stays ↦ inr stays
            ])
      ]
    ]
  ]

  should_dry_run-agent :
      (spec : ToolSpec J V W) (s : Executor J V W)
      → spec.read_only ≡ false
      → from_agent request ≡ true
      → s.settings.allow_agent_writes ≡ false
      → should_dry_run s.settings request spec ≡ true
  unfolding should_dry_run
  should_dry_run-agent spec s w a h = ground arith

  -- While agent writes are off, a call by an agent of a tool that writes leaves the world as it
  -- was and reports no success, whatever the arguments, the budget and the handler are.
  pub call-agent_write :
      (s : Executor J V W) (world : W) (spec : ToolSpec J V W)
      → get request.tool s.registry ≡ some spec
      → spec.read_only ≡ false
      → from_agent request ≡ true
      → s.settings.allow_agent_writes ≡ false
      → ((call timer request s world).world ≡ world)
        × ((call timer request s world).result.outcome ≢ ToolOutcome.success)
  call-agent_write s world spec found writes agent off = elim (call_cases s world) [
    | inr stays ↦ (stays.same, stays.no_success)
    | inl reaches ↦
        let same : reaches.spec ≡ spec = ground (arith, reaches.found) in
        absurd (
          ground (
            arith,
            same,
            reaches.runs.real,
            should_dry_run-agent spec s writes agent off,
            ap (λ (t : ToolSpec J V W). should_dry_run s.settings request t) same,
          ))
  ]
