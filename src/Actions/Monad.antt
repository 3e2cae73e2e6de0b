-- ===== src/Actions/Monad.antt =====
-- Methods of `ActionService`: they change the session and the world and may raise. What was changed
-- before an exception stays changed in the session; rolling it back is the caller's.
use multi_agent_ad_optimizer.Prelude.{
  ℕ, String, Bool, Option, some, List, ◌⊎◌, inl, inr, ◌∷◌, [], ◌++◌,
}
use multi_agent_ad_optimizer.Prelude.Dict.{Dict}
use multi_agent_ad_optimizer.Tools.Executor.{Executor, Timer}
use multi_agent_ad_optimizer.Domain.Enums.{ActionStatus}
use multi_agent_ad_optimizer.Actions.Records.{
  Amount, OptimizationAction, Campaign, Creative, Experiment, AuditEntry, ExecutionResult, Wire,
  ServiceError,
}

-- `counted` lists the increments of the counter of executed actions, `deferred` those that wait
-- for the commit. `creatives` lists the newest first.
pub record Service (F V W : Type 0) : Type 0 where
  pub actions : Dict String (OptimizationAction F)
  pub campaigns : Dict String (Campaign F)
  pub creatives : List Creative
  pub experiments : List Experiment
  pub audit : List AuditEntry
  pub counted : List (String × ActionStatus)
  pub deferred : List (String × ActionStatus)
  pub tools : Option (Executor (Wire F) V W)
  pub world : W

-- One network's client: each call answers with a result or the text of what it raised.
pub record AdsPlatformClient (F W : Type 0) : Type 0 where
  pub update_campaign_budget : String → F → W → (String ⊎ ExecutionResult) × W
  pub pause_campaign : String → String → W → (String ⊎ ExecutionResult) × W
  pub resume_campaign : String → String → W → (String ⊎ ExecutionResult) × W
  pub pause_creative : String → String → W → (String ⊎ ExecutionResult) × W
  pub resume_creative : String → String → W → (String ⊎ ExecutionResult) × W

-- What stands around a call: the settings, the clock, the adapter registry (`none` where it
-- raises) and the rendering of an exception.
pub record Env (F V W : Type 0) : Type 0 where
  pub amount : Amount F
  pub require_approval : Bool
  pub now : ℕ
  pub timer : Timer
  pub for_platform : String → Option (AdsPlatformClient F W)
  pub describe : ServiceError → String

pub data Outcome (A : Type 0) : Type 0 where
  ok : A → Outcome A
  err : ServiceError → Outcome A

abbrev pub M : Type 0 → Type 0 → Type 0 → Type 0 → Type 0
M F V W A = Service F V W → Outcome A × Service F V W

module _ {F V W : Type 0} where
  abbrev pub pure : {A : Type 0} → A → M F V W A
  pure a s = (ok a, s)

  abbrev pub raise : {A : Type 0} → ServiceError → M F V W A
  raise e s = (err e, s)

  abbrev pub gets : {A : Type 0} → (Service F V W → A) → M F V W A
  gets f s = (ok (f s), s)

  abbrev pub modify : (Service F V W → Service F V W) → M F V W Unit
  modify f s = (ok tt, f s)

  abbrev pub and_then : {A B : Type 0} → Outcome A → (A → M F V W B) → M F V W B
  and_then (ok a) f = f a
  and_then (err e) f = raise e

  infixl 5 ◌>>=◌ ◌>>◌
  abbrev pub ◌>>=◌ : {A B : Type 0} → M F V W A → (A → M F V W B) → M F V W B
  m >>= f = λ s. let (r, s') = m s in and_then r f s'

  abbrev pub ◌>>◌ : {A B : Type 0} → M F V W A → M F V W B → M F V W B
  m >> k = m >>= λ _. k

  -- A call of a network client.
  abbrev pub answered : (String ⊎ ExecutionResult) × W → M F V W (Option ExecutionResult)
  answered (inl text, world) s =
      (err (ServiceError.platform_error text), record s { world = world })
  answered (inr result, world) s = (ok (some result), record s { world = world })

  abbrev pub audited : AuditEntry → M F V W Unit
  audited entry = modify (λ s. record s { audit = s.audit ++ entry ∷ [] })
