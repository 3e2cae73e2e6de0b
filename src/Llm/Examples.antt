-- ===== src/Llm/Examples.antt =====
-- The theorems on the gateway with a provider that is down once, and amounts in cents.
use multi_agent_ad_optimizer.Prelude.{
  ℕ, zero, suc, ◌+◌, max, String, Bool, true, false, none, some, [], ◌∷◌, ◌⊎◌, inl, inr, leb, ◌≡◌,
  refl, ap, arith, ◌==◌, string_eq,
}
use multi_agent_ad_optimizer.Prelude.Dict.{get}
use multi_agent_ad_optimizer.Llm.Gateway.{usage, complete, complete_all, month_to_date, spent_of}
use multi_agent_ad_optimizer.Llm.Records.{
  CompletionResult, ProviderError, unavailable, budget_exceeded, Call, Hub, Parts,
}
use multi_agent_ad_optimizer.Llm.Attempts.{IsTame, IsAnswered, Reached, complete-answers}
use multi_agent_ad_optimizer.Llm.Capped.{complete_all-capped}
use multi_agent_ad_optimizer.Llm.Spending.{IsUncached, Agrees, tallied, complete_all-Agrees}

abbrev hello : CompletionResult ℕ
hello = record {
  text = "hello";
  usage = record { prompt_tokens = 12; completion_tokens = 3; cost_usd = 40 };
  provider = "openai";
  model = "small";
  latency_ms = 80;
  cached = false;
  degraded = false;
  error = none;
}

-- The first request finds the provider down.
abbrev provider : String → Bool → ℕ → (ProviderError ⊎ CompletionResult ℕ) × ℕ
provider request streams zero = (inl (unavailable "down"), 1)
provider request streams (suc n) = (inr hello, suc (suc n))

abbrev parts : ℕ → Parts ℕ String Unit ℕ
parts budget = record {
  money = record { zero = 0; add = λ a b. a + b; leb = leb };
  settings = record {
    monthly_budget_usd = budget;
    max_retries = 2;
    fail_open_to_mock = true;
    cache_enabled = false;
    stream = false;
  };
  primary = provider;
  fallback = λ request. hello;
  cache = none;
  month_start = λ now. 0;
}

abbrev first_call : Call String
first_call = record {
  request = "write a headline";
  cache_key = "k";
  run_id = some "run1";
  agent = "creative";
  has_consumer = false;
  now = 5;
  ledger_up = true;
}

abbrev hub : Hub ℕ Unit ℕ
hub = record { exceeded = false; usage_by_run = []; rows = []; cache = tt; world = 0; shown = [] }

-- A hub whose ledger has spent the cap.
abbrev spent_hub : Hub ℕ Unit ℕ
spent_hub = record hub {
  rows =
      (record {
        run_id = some "run0";
        agent = "creative";
        usage = hello.usage;
        degraded = false;
        created_at = 2;
      })
      ∷ [];
}

provider-tame : (budget : ℕ) → IsTame (parts budget)
provider-tame budget request streams zero text = λ e. ground (arith, e)
provider-tame budget request streams (suc n) text = λ e. ground (arith, e)

provider-uncached : (budget : ℕ) → IsUncached (parts budget)
provider-uncached budget request streams zero result = λ e. ground (arith, e)
provider-uncached budget request streams (suc n) result = λ e. ground (arith, e)

complete-answers_example :
    IsAnswered (parts 0) (complete (parts 0) first_call hub).0
    × Reached (parts 0) (max 1 2) 0 (complete (parts 0) first_call hub).1.world
complete-answers_example = complete-answers (parts 0) first_call hub (provider-tame 0) refl refl

complete_all-capped_example :
    complete_all (parts 30) (first_call ∷ (record first_call { now = 900 }) ∷ []) spent_hub
    ≡ (inl budget_exceeded ∷ inl budget_exceeded ∷ [], record spent_hub { exceeded = true })
unfolding month_to_date spent_of
complete_all-capped_example =
    complete_all-capped (parts 30) first_call ((record first_call { now = 900 }) ∷ []) spent_hub
      refl refl refl

complete_all-Agrees_example :
    Agrees (parts 0) "run1" (complete_all (parts 0) (first_call ∷ first_call ∷ []) hub).1
unfolding tallied usage get
complete_all-Agrees_example =
    complete_all-Agrees (parts 0) "run1" (first_call ∷ first_call ∷ []) hub (provider-uncached 0)
      (λ e. ground (arith, ap (λ s. s == "") e)) refl
