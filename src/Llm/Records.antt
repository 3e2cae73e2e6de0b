-- ===== src/Llm/Records.antt =====
-- What llm/gateway.py and llm/ledger.py handle: the results of llm/base.py, the rows of the ledger, the
-- tallies, and what a gateway is built with. Money is abstract, as floats are.
use multi_agent_ad_optimizer.Prelude.{ℕ, String, Bool, Option, List, ◌⊎◌, string_eq}
use multi_agent_ad_optimizer.Prelude.Dict.{Dict}

pub record Usage (F : Type 0) : Type 0 where
  pub prompt_tokens : ℕ
  pub completion_tokens : ℕ
  pub cost_usd : F

pub record CompletionResult (F : Type 0) : Type 0 where
  pub text : String
  pub usage : Usage F
  pub provider : String
  pub model : String
  pub latency_ms : ℕ
  pub cached : Bool
  pub degraded : Bool
  pub error : Option String

-- What a provider raises: an `ExternalServiceError`, or anything else.
pub data ProviderError : Type 0 where
  unavailable unexpected : String → ProviderError

pub data GatewayError : Type 0 where
  budget_exceeded : GatewayError
  ledger_failed : GatewayError
  provider_failed : Option String → GatewayError
  propagated : String → GatewayError

pub record Money (F : Type 0) : Type 0 where
  pub zero : F
  pub add : F → F → F
  pub leb : F → F → Bool

pub record LlmSettings (F : Type 0) : Type 0 where
  pub monthly_budget_usd : F
  pub max_retries : ℕ
  pub fail_open_to_mock : Bool
  pub cache_enabled : Bool
  pub stream : Bool

-- A row of `llm_spend`.
pub record SpendRecord (F : Type 0) : Type 0 where
  pub run_id : Option String
  pub agent : String
  pub usage : Usage F
  pub degraded : Bool
  pub created_at : ℕ

pub record Tally (F : Type 0) : Type 0 where
  pub prompt_tokens : ℕ
  pub completion_tokens : ℕ
  pub cost_usd : F
  pub calls : ℕ

-- The parts of a result that the cache keeps.
pub record CachedPayload : Type 0 where
  pub text : String
  pub prompt_tokens : ℕ
  pub completion_tokens : ℕ
  pub provider : String
  pub model : String

pub record Cache (C : Type 0) : Type 0 where
  pub get_json : String → C → Option CachedPayload
  pub set_json : String → CachedPayload → C → C

-- The gateway with the ledger's table, the cache, and the world of the provider. `shown` are the
-- fragments that the gateway itself hands to a consumer.
pub record Hub (F C W : Type 0) : Type 0 where
  pub exceeded : Bool
  pub usage_by_run : Dict String (Tally F)
  pub rows : List (SpendRecord F)
  pub cache : C
  pub world : W
  pub shown : List String

-- One call of `complete`: its arguments, the instant, and whether the ledger's database answers.
pub record Call (R : Type 0) : Type 0 where
  pub request : R
  pub cache_key : String
  pub run_id : Option String
  pub agent : String
  pub has_consumer : Bool
  pub now : ℕ
  pub ledger_up : Bool

-- What the gateway is built with. `month_start` is the first instant of an instant's month.
pub record Parts (F R C W : Type 0) : Type 0 where
  pub money : Money F
  pub settings : LlmSettings F
  pub primary : R → Bool → W → (ProviderError ⊎ CompletionResult F) × W
  pub fallback : R → CompletionResult F
  pub cache : Option (Cache C)
  pub month_start : ℕ → ℕ
