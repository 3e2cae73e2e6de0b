-- ===== src/Llm/Gateway.antt =====
-- `LLMGateway` of llm/gateway.py with the spend ledger of llm/ledger.py. The provider is a function of
-- the world `W`, the mock model a function of the request, the cache a state `C` with its two
-- operations; a stored answer that does not decode counts as none.
-- The waits between attempts, logs, metrics and the semaphore are left out.
use multi_agent_ad_optimizer.Prelude.{
  ℕ, zero, suc, ◌+◌, max, String, Bool, true, false, not, ◌&&◌, ◌||◌, Option, none, some, List, [],
  ◌∷◌, ◌++◌, ◌⊎◌, inl, inr, keep, if◌then◌else◌, leb, ◌==◌, string_eq,
}
use multi_agent_ad_optimizer.Prelude.Dict.{Dict, put, get_or}
use multi_agent_ad_optimizer.Prelude.Text.{strip}
use multi_agent_ad_optimizer.Llm.Records.{
  Cache, CachedPayload, Call, CompletionResult, GatewayError, Hub, Parts, ProviderError,
  SpendRecord, Tally, Usage, budget_exceeded, ledger_failed, propagated, provider_failed,
  unavailable, unexpected,
}

module _ {F R C W : Type 0} (g : Parts F R C W) where
  -- `month_to_date_usd`
  unfoldable pub spent_of : List (SpendRecord F) → F
  spent_of [] = g.money.zero
  spent_of (row ∷ rows) = g.money.add row.usage.cost_usd (spent_of rows)

  unfoldable pub month_to_date : ℕ → List (SpendRecord F) → F
  month_to_date now rows = spent_of (keep (λ row. leb (g.month_start now) row.created_at) rows)

  -- `_enforce_budget`: what it raises, if anything, and whether the gateway is exceeded from now on.
  unfoldable pub enforce_budget : Call R → Hub F C W → Option GatewayError × Bool
  enforce_budget call h =
      if h.exceeded
      then (some budget_exceeded, true)
      else if g.money.leb g.settings.monthly_budget_usd g.money.zero
      then (none, false)
      else if not call.ledger_up
      then (some ledger_failed, false)
      else if g.money.leb g.settings.monthly_budget_usd (month_to_date call.now h.rows)
      then (some budget_exceeded, true)
      else (none, false)

  -- The cache, where it is used.
  abbrev pub cache_in_use : Option (Cache C)
  cache_in_use = if g.settings.cache_enabled then g.cache else none

  abbrev pub from_payload : CachedPayload → CompletionResult F
  from_payload p = record {
    text = p.text;
    usage = record {
      prompt_tokens = p.prompt_tokens;
      completion_tokens = p.completion_tokens;
      cost_usd = g.money.zero;
    };
    provider = p.provider;
    model = p.model;
    latency_ms = 0;
    cached = true;
    degraded = false;
    error = none;
  }

  -- `_read_cache`
  unfoldable pub read_cache : String → C → Option (CompletionResult F)
  read_cache key c = elim cache_in_use [
    | none ↦ none
    | some cache ↦ elim (cache.get_json key c) [ none ↦ none | some p ↦ some (from_payload p) ]
  ]

  -- `result.degraded or result.error`
  abbrev pub is_tainted : CompletionResult F → Bool
  is_tainted result =
      result.degraded || elim result.error [ none ↦ false | some text ↦ not (text == "") ]

  -- `_write_cache`
  unfoldable pub write_cache : String → CompletionResult F → C → C
  write_cache key result c = elim cache_in_use [
    | none ↦ c
    | some cache ↦
        if is_tainted result
        then c
        else cache.set_json key
            (record {
              text = result.text;
              prompt_tokens = result.usage.prompt_tokens;
              completion_tokens = result.usage.completion_tokens;
              provider = result.provider;
              model = result.model;
            })
            c
  ]

  -- An attempt's answer: an empty completion counts as an `ExternalServiceError`.
  abbrev pub judged : ProviderError ⊎ CompletionResult F → ProviderError ⊎ CompletionResult F
  judged (inl e) = inl e
  judged (inr result) =
      if strip result.text == ""
      then inl (unavailable "Provider returned an empty completion")
      else inr result

  abbrev pub degraded_to : R → Option String → CompletionResult F
  degraded_to request error = record (g.fallback request) {
    cached = false;
    degraded = true;
    error = error;
  }

  -- `_call_with_retry` after its loop.
  unfoldable pub give_up : R → Option String → GatewayError ⊎ CompletionResult F
  give_up request last_error =
      if g.settings.fail_open_to_mock
      then inr (degraded_to request last_error)
      else inl (provider_failed last_error)

  -- The loop of `_call_with_retry`, with so many attempts left.
  unfoldable pub attempt :
      R → Bool → ℕ → Option String → W → (GatewayError ⊎ CompletionResult F) × W
  attempt request streams zero last_error w = (give_up request last_error, w)
  attempt request streams (suc left) last_error w =
      let (answer, w') = g.primary request streams w in
      elim (judged answer) [
        | inr result ↦ (inr result, w')
        | inl e ↦ elim e [
          | unavailable text ↦ attempt request false left (some text) w'
          | unexpected text ↦ (inl (propagated text), w')
        ]
      ]

  -- `_call_with_retry`
  unfoldable pub call_with_retry : R → Bool → W → (GatewayError ⊎ CompletionResult F) × W
  call_with_retry request streams w = attempt request streams (max 1 g.settings.max_retries) none w

  abbrev pub no_usage : Tally F
  no_usage = record { prompt_tokens = 0; completion_tokens = 0; cost_usd = g.money.zero; calls = 0 }

  abbrev pub tally_add : Usage F → Tally F → Tally F
  tally_add u t = record {
    prompt_tokens = t.prompt_tokens + u.prompt_tokens;
    completion_tokens = t.completion_tokens + u.completion_tokens;
    cost_usd = g.money.add t.cost_usd u.cost_usd;
    calls = t.calls + 1;
  }

  -- `_tally_usage`
  unfoldable pub tally_usage :
      Option String → CompletionResult F → Dict String (Tally F) → Dict String (Tally F)
  tally_usage none result tallies = tallies
  tally_usage (some run_id) result tallies =
      if run_id == ""
      then tallies
      else put run_id (tally_add result.usage (get_or run_id no_usage tallies)) tallies

  -- `DatabaseSpendLedger.record`
  unfoldable pub spend : Call R → CompletionResult F → List (SpendRecord F) → List (SpendRecord F)
  spend call result rows =
      if result.cached
      then rows
      else rows
        ++ (record {
          run_id = call.run_id;
          agent = call.agent;
          usage = result.usage;
          degraded = result.degraded;
          created_at = call.now;
        })
          ∷ []

  -- `complete` once the provider has answered.
  unfoldable pub settle_call :
      Call R
      → Hub F C W
      → (GatewayError ⊎ CompletionResult F) × W
      → (GatewayError ⊎ CompletionResult F) × Hub F C W
  settle_call call h (inl e, w) = (inl e, record h { world = w })
  settle_call call h (inr result, w) =
      let stored = record h { world = w; cache = write_cache call.cache_key result h.cache } in
      if not call.ledger_up then (inl ledger_failed, stored) else (
        inr result,
        record stored {
          rows = spend call result h.rows;
          usage_by_run = tally_usage call.run_id result h.usage_by_run;
        },
      )

  -- `complete` once the budget allows it.
  unfoldable pub complete_within :
      Call R
      → Hub F C W
      → Option (CompletionResult F)
      → (GatewayError ⊎ CompletionResult F) × Hub F C W
  complete_within call h (some hit) = (
    inr hit,
    record h {
      shown =
          if g.settings.stream && call.has_consumer && not (hit.text == "")
          then h.shown ++ hit.text ∷ []
          else h.shown;
    },
  )
  complete_within call h none =
      settle_call call h
        (call_with_retry call.request (g.settings.stream && call.has_consumer) h.world)

  unfoldable pub complete_after :
      Call R
      → Hub F C W
      → Option GatewayError × Bool
      → (GatewayError ⊎ CompletionResult F) × Hub F C W
  complete_after call h (some e, exceeded) = (inl e, record h { exceeded = exceeded })
  complete_after call h (none, exceeded) =
      complete_within call (record h { exceeded = exceeded }) (read_cache call.cache_key h.cache)

  -- `complete`
  unfoldable pub complete : Call R → Hub F C W → (GatewayError ⊎ CompletionResult F) × Hub F C W
  complete call h = complete_after call h (enforce_budget call h)

  -- Calls one after the other.
  unfoldable pub complete_all :
      List (Call R) → Hub F C W → List (GatewayError ⊎ CompletionResult F) × Hub F C W
  complete_all [] h = ([], h)
  complete_all (call ∷ calls) h =
      let (answer, h') = complete call h in
      let (answers, h'') = complete_all calls h' in (answer ∷ answers, h'')

  -- `usage`
  unfoldable pub usage : String → Hub F C W → Tally F
  usage run_id h = get_or run_id no_usage h.usage_by_run
