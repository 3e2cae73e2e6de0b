-- ===== src/Tools/Accounting.antt =====
-- The per-run counters of the executor, over any sequence of calls.
use multi_agent_ad_optimizer.Prelude.{
  ℕ, ◌+◌, ◌≤◌, ◌<◌, Bool, true, false, String, Option, List, [], ◌∷◌, ◌++◌, inl, inr, ◌≡◌, refl,
  sym, subst, arith, string_eq, ◌==◌, if◌then◌else◌,
}
use text.Mathlib.TextEquality.{eq_iff}
use multi_agent_ad_optimizer.Prelude.Dict.{
  get, get_or, get_or-put, total, total-tally, get_or-tally,
}
use multi_agent_ad_optimizer.Tools.Spec.{
  ToolOutcome, tool_outcome_eq, ToolRequest, ToolSpec, ToolResult,
}
use multi_agent_ad_optimizer.Tools.Executor.{
  RunStats, new_run_stats, Timer, Executor, Invocation, counted, count, publish, noted,
}
use multi_agent_ad_optimizer.Tools.Call.{charged, call}
use multi_agent_ad_optimizer.Tools.Finish.{calls-noted, settings-noted}
use multi_agent_ad_optimizer.Tools.Advance.{Settles, call-Advances}

abbrev seen : ToolOutcome → RunStats → ℕ
seen outcome stats = get_or outcome 0 stats.by_outcome

-- Both breakdowns add up to the invocations, and the summary counters are those of the outcomes
-- that they summarise.
pub record IsBalanced (stats : RunStats) : Type 0 where
  pub outcomes : total stats.by_outcome ≡ stats.invocations
  pub tools : total stats.by_tool ≡ stats.invocations
  pub dry_runs : stats.dry_runs ≡ seen ToolOutcome.dry_run stats
  pub failures : stats.failures ≡ seen ToolOutcome.failed stats
  pub refusals :
      stats.refusals
      ≡ seen ToolOutcome.validation_failed stats
        + seen ToolOutcome.permission_denied stats
        + seen ToolOutcome.budget_exhausted stats
        + seen ToolOutcome.disabled stats
  pub writes : stats.writes ≤ stats.invocations

new_run_stats-IsBalanced : IsBalanced new_run_stats
unfolding total get
new_run_stats-IsBalanced = record {
  outcomes = refl;
  tools = refl;
  dry_runs = refl;
  failures = refl;
  refusals = omega arith;
  writes = omega arith;
}

counted-IsBalanced :
    {J V W : Type 0} (request : ToolRequest J) (spec : Option (ToolSpec J V W))
    (outcome : ToolOutcome) (stats : RunStats)
    → IsBalanced stats
    → IsBalanced (counted request spec outcome stats)
unfolding counted
counted-IsBalanced request spec outcome stats b = record {
  outcomes = ground (arith, total-tally outcome stats.by_outcome);
  tools = ground (arith, total-tally request.tool stats.by_tool);
  dry_runs = ground (arith, get_or-tally outcome ToolOutcome.dry_run stats.by_outcome);
  failures = ground (arith, get_or-tally outcome ToolOutcome.failed stats.by_outcome);
  refusals = ground (
    arith,
    get_or-tally outcome ToolOutcome.validation_failed stats.by_outcome,
    get_or-tally outcome ToolOutcome.permission_denied stats.by_outcome,
    get_or-tally outcome ToolOutcome.budget_exhausted stats.by_outcome,
    get_or-tally outcome ToolOutcome.disabled stats.by_outcome,
  );
  writes = ground arith;
}

IsBalanced-if :
    (b : Bool) {x y : RunStats} → IsBalanced x → IsBalanced y → IsBalanced (if b then x else y)
IsBalanced-if true h k = h
IsBalanced-if false h k = k

module _ {J V W : Type 0} where
  abbrev pub stats_of : String → Executor J V W → RunStats
  stats_of run s = get_or run new_run_stats s.stats_per_run

  -- The counters of every run are balanced, and no run has been charged past the cap.
  pub record IsAccounted (s : Executor J V W) : Type 0 where
    pub balanced : (run : String) → IsBalanced (stats_of run s)
    pub capped : (run : String) → get_or run 0 s.calls_per_run ≤ s.settings.max_calls_per_run

  stats-noted :
      (s : Executor J V W) (request : ToolRequest J) (spec : Option (ToolSpec J V W))
      (final : ToolResult J V W) (run : String)
      → stats_of run (noted s request spec final) ≡ (
          if request.run_id == ""
          then stats_of run s
          else if request.run_id == run
          then counted request spec final.outcome (stats_of request.run_id s)
          else stats_of run s)
  unfolding noted count publish
  stats-noted s request spec final run = ground (
    arith,
    get_or-put request.run_id run new_run_stats
        (counted request spec final.outcome (stats_of request.run_id s)) s.stats_per_run,
  )

  recorded-noted :
      (s : Executor J V W) (request : ToolRequest J) (spec : Option (ToolSpec J V W))
      (final : ToolResult J V W)
      → (noted s request spec final).recorded ≡ s.recorded ++ final ∷ []
  unfolding noted count publish
  recorded-noted s request spec final = ground arith

  noted-IsAccounted :
      (s : Executor J V W) (request : ToolRequest J) (spec : Option (ToolSpec J V W))
      (final : ToolResult J V W)
      → IsAccounted s
      → IsAccounted (noted s request spec final)
  noted-IsAccounted s request spec final h = record {
    balanced = λ run. rw (stats-noted s request spec final run) (
        IsBalanced-if (request.run_id == "") (h.balanced run) (
          IsBalanced-if (request.run_id == run)
            (counted-IsBalanced request spec final.outcome _ (h.balanced request.run_id))
            (h.balanced run)));
    capped = λ run.
        rw (calls-noted s request spec final, settings-noted s request spec final) (h.capped run);
  }

  charged-IsAccounted :
      (timer : Timer) (s : Executor J V W) (request : ToolRequest J)
      → get_or request.run_id 0 s.calls_per_run < s.settings.max_calls_per_run
      → IsAccounted s
      → IsAccounted (charged timer request s)
  charged-IsAccounted timer s request room h = record {
    balanced = h.balanced;
    capped = λ run. ground (
      arith,
      h.capped run,
      get_or-put request.run_id run 0 (get_or request.run_id 0 s.calls_per_run + 1) s.calls_per_run,
      eq_iff request.run_id run,
    );
  }

  Settles-IsAccounted :
      (timer : Timer) (request : ToolRequest J) (s : Executor J V W) {i : Invocation J V W}
      → IsAccounted s
      → Settles timer request s i
      → IsAccounted i.executor
  Settles-IsAccounted timer request s h r = subst IsAccounted (sym r.ends) (
      noted-IsAccounted r.base request r.spec _ (record {
        balanced = λ run. rw r.stats (h.balanced run);
        capped = λ run. rw (r.calls, r.settings) (h.capped run);
      }))

  -- Whatever a call ends in, the counters stay balanced and no run passes its cap.
  pub call-IsAccounted :
      (timer : Timer) (request : ToolRequest J) (s : Executor J V W) (world : W)
      → IsAccounted s
      → IsAccounted (call timer request s world).executor
  call-IsAccounted timer request s world h = elim (call-Advances timer request s world) [
    | inl settles ↦ Settles-IsAccounted timer request s h settles
    | inr (room, settles) ↦
        Settles-IsAccounted timer request (charged timer request s)
          (charged-IsAccounted timer s request room h) settles
  ]

  -- A session is any sequence of calls, by agents and by people, of any runs.
  unfoldable pub session : List (Timer × ToolRequest J) → Executor J V W → W → Executor J V W × W
  session [] s world = (s, world)
  session ((timer, request) ∷ rest) s world =
      let i = call timer request s world in session rest i.executor i.world

  -- From an accounted executor, such as a new one, every session leaves it accounted.
  pub session-IsAccounted :
      (calls : List (Timer × ToolRequest J)) (s : Executor J V W) (world : W)
      → IsAccounted s
      → IsAccounted (session calls s world).0
  unfolding session
  session-IsAccounted [] s world h = h
  session-IsAccounted ((timer, request) ∷ rest) s world h =
      session-IsAccounted rest _ _ (call-IsAccounted timer request s world h)

  abbrev pub IsFresh : Executor J V W → Type 0
  IsFresh s = (s.stats_per_run ≡ []) × (s.calls_per_run ≡ [])

  pub fresh-IsAccounted : (s : Executor J V W) → IsFresh s → IsAccounted s
  unfolding get
  fresh-IsAccounted s (e, f) = record {
    balanced = λ run. rw e new_run_stats-IsBalanced;
    capped = λ run. rw f (omega arith);
  }

  -- Every call, refused or not, hands exactly its own result to the audit sink.
  pub recorded-call :
      (timer : Timer) (request : ToolRequest J) (s : Executor J V W) (world : W)
      → (call timer request s world).executor.recorded
        ≡ s.recorded ++ (call timer request s world).result ∷ []
  recorded-call timer request s world = elim (call-Advances timer request s world) [
    | inl r ↦ ground (
      arith,
      r.ends,
      r.recorded,
      recorded-noted r.base request r.spec (call timer request s world).result,
    )
    | inr (_, r) ↦ ground (
      arith,
      r.ends,
      r.recorded,
      recorded-noted r.base request r.spec (call timer request s world).result,
    )
  ]
