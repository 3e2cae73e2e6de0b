-- ===== src/Tools/Spec.antt =====
-- backend/src/adoptimizer/tools/spec.py and registry.py: requests, tools, outcomes and results.
-- `J` is the type of JSON-shaped values (raw arguments and payloads), `V` that of validated
-- argument models, and `W` the outside world that a handler acts on.
use multi_agent_ad_optimizer.Prelude.{
  ℕ, String, Bool, true, false, ◌||◌, Option, none, some, List, [], ◌∷◌, ◌⊎◌, ◌≡◌, ◌↔◌, arith, Eq,
  nat_beq, elem, if◌then◌else◌, ◌==◌, string_eq,
}
use multi_agent_ad_optimizer.Prelude.Dict.{Dict, get, put}
use multi_agent_ad_optimizer.Domain.Enums.{AgentName, agent_name_eq}

pub data ToolOutcome : Type 0 where
  success dry_run replayed validation_failed : ToolOutcome
  permission_denied budget_exhausted disabled failed : ToolOutcome

abbrev pub tool_outcome_index : ToolOutcome → ℕ
tool_outcome_index ToolOutcome.success = 0
tool_outcome_index ToolOutcome.dry_run = 1
tool_outcome_index ToolOutcome.replayed = 2
tool_outcome_index ToolOutcome.validation_failed = 3
tool_outcome_index ToolOutcome.permission_denied = 4
tool_outcome_index ToolOutcome.budget_exhausted = 5
tool_outcome_index ToolOutcome.disabled = 6
tool_outcome_index ToolOutcome.failed = 7

abbrev pub tool_outcome_beq : ToolOutcome → ToolOutcome → Bool
tool_outcome_beq a b = nat_beq (tool_outcome_index a) (tool_outcome_index b)

pub tool_outcome_beq_iff : (a b : ToolOutcome) → (tool_outcome_beq a b ≡ true) ↔ (a ≡ b)
tool_outcome_beq_iff a b = ground arith

instance abbrev pub tool_outcome_eq : Eq ToolOutcome
tool_outcome_eq = record { equal = tool_outcome_beq; decides = tool_outcome_beq_iff }

-- Outcomes that mean "nothing went wrong".
abbrev pub benign_outcomes : List ToolOutcome
benign_outcomes = ToolOutcome.success ∷ ToolOutcome.dry_run ∷ ToolOutcome.replayed ∷ []

-- Outcomes where a guardrail said no.
abbrev pub refused_outcomes : List ToolOutcome
refused_outcomes =
    ToolOutcome.validation_failed ∷ ToolOutcome.permission_denied ∷ ToolOutcome.budget_exhausted
    ∷ ToolOutcome.disabled ∷ []

-- Refusals that mean the proposal itself cannot be carried out.
abbrev pub blocking_refusals : List ToolOutcome
blocking_refusals = ToolOutcome.validation_failed ∷ ToolOutcome.permission_denied ∷ []

pub record ToolRequest (J : Type 0) : Type 0 where
  pub tool : String
  pub arguments : J
  pub agent : Option AgentName
  pub run_id : String
  pub actor : String
  pub idempotency_key : String
  pub dry_run : Option Bool

abbrev pub is_some : {A : Type 0} → Option A → Bool
is_some none = false
is_some (some _) = true

-- `ToolRequest.from_agent`
abbrev pub from_agent : {J : Type 0} → ToolRequest J → Bool
from_agent r = is_some r.agent

-- What the pydantic model and the handler do is code outside this module: `parameters` answers
-- with the validated model or the text of the validation error, `handler` with a payload or the
-- type and the text of the exception that it raised.
pub record ToolSpec (J V W : Type 0) : Type 0 where
  pub name : String
  pub parameters : J → String ⊎ V
  pub handler : V → ToolRequest J → W → ((String × String) ⊎ J) × W
  pub read_only : Bool
  pub agents : List AgentName
  pub touches_platform : Bool

-- `ToolSpec.allows`: an empty allow-list means every agent, a filled one is a whitelist.
unfoldable pub allows : {J V W : Type 0} → ToolSpec J V W → Option AgentName → Bool
allows spec none = true
allows spec (some agent) = elim spec.agents [
  | [] ↦ true
  | first ∷ others ↦ elem agent (first ∷ others)
]

-- The parts of a message that the executor writes.
pub data ToolError : Type 0 where
  layer_disabled : ToolError
  unknown_tool : String → ToolError
  may_not_call : Option AgentName → String → ToolError
  reached_budget : String → ℕ → ToolError
  invalid_arguments : String → ToolError
  raised : String → String → ToolError

pub data DryRunReason : Type 0 where
  agent_preflight : Option AgentName → DryRunReason
  caller_requested paper_trading : DryRunReason

pub data ToolData (J : Type 0) : Type 0 where
  empty : ToolData J
  payload : J → ToolData J
  rehearsal : (would_call : String) (arguments : J) (reason : DryRunReason) → ToolData J

pub record ToolResult (J V W : Type 0) : Type 0 where
  pub request : ToolRequest J
  pub outcome : ToolOutcome
  pub spec : Option (ToolSpec J V W)
  pub content : ToolData J
  pub error : Option ToolError
  pub duration_ms : ℕ

-- `ToolResult.ok`, `.dry_run`, `.refused` and `.blocking`, which read the outcome alone.
unfoldable pub ok : ToolOutcome → Bool
ok outcome = elem outcome benign_outcomes

unfoldable pub is_dry_run : ToolOutcome → Bool
is_dry_run outcome = outcome == ToolOutcome.dry_run

unfoldable pub refused : ToolOutcome → Bool
refused outcome = elem outcome refused_outcomes

unfoldable pub blocking : ToolOutcome → Bool
blocking outcome = elem outcome blocking_refusals || outcome == ToolOutcome.failed

-- `ToolRegistry.register`: `none` is the `ValueError` for a name that is taken.
module _ {J V W : Type 0} where
  unfoldable pub register :
      Dict String (ToolSpec J V W) → ToolSpec J V W → Option (Dict String (ToolSpec J V W))
  register specs spec =
      if is_some (get spec.name specs) then none else some (put spec.name spec specs)
