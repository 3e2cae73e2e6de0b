-- ===== src/Actions/Records.antt =====
-- The rows that services/actions.py reads and writes (infra/db/models.py), what it sends to the
-- tools, and what the ad networks answer (infra/ads/base.py). `F` is the type of floats.
-- The details of a result and the constants of an experiment, which nothing here reads, are left out.
use multi_agent_ad_optimizer.Prelude.{
  ℕ, String, Bool, Option, none, some, List, [], ◌∷◌, ◌==◌, string_eq, if◌then◌else◌,
}
use multi_agent_ad_optimizer.Domain.Enums.{
  Platform, platform_value, CampaignStatus, CreativeStatus, ActionType, action_type_value,
  ActionStatus,
}

-- Python's `float`, as far as this service uses it. `parse` is `float(text)`.
pub record Amount (F : Type 0) : Type 0 where
  pub parse : String → Option F
  pub round_2 : F → F
  pub round_4 : F → F
  pub not_positive : F → Bool
  pub lt : F → F → Bool

pub record OptimizationAction (F : Type 0) : Type 0 where
  pub id : String
  pub run_id : Option String
  pub campaign_id : String
  pub creative_id : Option String
  pub action_type : String
  pub status : ActionStatus
  pub after_value : String
  pub reason : String
  pub confidence : F
  pub approved_by : Option String
  pub approved_at : Option ℕ
  pub executed_at : Option ℕ
  pub external_reference : Option String
  pub error_message : Option String

pub record Campaign (F : Type 0) : Type 0 where
  pub id : String
  pub external_id : Option String
  pub platform : String
  pub status : CampaignStatus
  pub daily_budget : F
  pub current_bid_cpm : F

pub record Creative : Type 0 where
  pub id : String
  pub campaign_id : String
  pub status : CreativeStatus
  pub ab_group : String

pub record Experiment : Type 0 where
  pub campaign_id : String
  pub hypothesis : String
  pub control_creative_id : Option String
  pub variant_creative_id : Option String
  pub created_by_run_id : Option String

pub data AuditAction : Type 0 where
  approved : (overruled_critic : Bool) → AuditAction
  rejected : (reason : String) → AuditAction
  executed : (dry_run : Option Bool) → AuditAction
  failed : (error : Option String) → AuditAction

pub record AuditEntry : Type 0 where
  pub action : AuditAction
  pub resource_id : String
  pub actor : String

pub record ExecutionResult : Type 0 where
  pub success : Bool
  pub platform : Platform
  pub operation : String
  pub external_reference : Option String
  pub error : Option String
  pub dry_run : Bool

-- The adapter payload of a tool, with the keys that may be missing.
pub record AdapterPayload : Type 0 where
  pub success : Option Bool
  pub operation : Option String
  pub external_reference : Option String
  pub error : Option String
  pub dry_run : Option Bool

-- The JSON objects that this service and the tools exchange.
pub data Wire (F : Type 0) : Type 0 where
  call_arguments :
      (platform : Platform) (target : String) (budget : Option F) (reason : String) → Wire F
  adapter_answer : AdapterPayload → Wire F

pub data ServiceError : Type 0 where
  permission_denied not_found approval_required unknown_type validation_failure external_service :
      ServiceError
  conflict : ActionStatus → ServiceError
  unusable_value : String → ServiceError
  platform_error : String → ServiceError

-- A truthy text: present and not empty.
abbrev pub present : Option String → Option String
present none = none
present (some s) = if s == "" then none else some s

abbrev pub find_type : String → List ActionType → Option ActionType
find_type s [] = none
find_type s (t ∷ ts) = if action_type_value t == s then some t else find_type s ts

-- `ActionType(text)`, where `none` is the `ValueError`.
unfoldable pub action_type_of : String → Option ActionType
action_type_of s = find_type s (
    ActionType.pause_creative ∷ ActionType.resume_creative ∷ ActionType.adjust_budget
    ∷ ActionType.adjust_bid ∷ ActionType.pause_campaign ∷ ActionType.resume_campaign
    ∷ ActionType.refresh_creative ∷ ActionType.start_ab_test ∷ ActionType.stop_ab_test
    ∷ ActionType.expand_audience ∷ [])

abbrev pub find_platform : String → List Platform → Option Platform
find_platform s [] = none
find_platform s (p ∷ ps) = if platform_value p == s then some p else find_platform s ps

-- `_platform_of`
unfoldable pub platform_of : {F : Type 0} → Option (Campaign F) → Option Platform
platform_of none = none
platform_of (some campaign) = elim (present campaign.external_id) [
  | none ↦ none
  | some _ ↦
      find_platform campaign.platform
        (Platform.google ∷ Platform.meta ∷ Platform.tiktok ∷ Platform.mock ∷ [])
]
