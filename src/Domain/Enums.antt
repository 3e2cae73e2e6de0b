-- ===== src/Domain/Enums.antt =====
-- backend/src/adoptimizer/domain/enums.py: agents, runs and actions. `StrEnum` members compare
-- equal exactly when they are the same member.
use Prim.Native.Nat.{ℕ}
use multi_agent_ad_optimizer.Prelude.{String, Bool, true, false, ◌≡◌, ◌↔◌, arith, Eq, nat_beq}

pub data AgentName : Type 0 where
  monitor audience creative bidding optimize critic : AgentName

abbrev pub agent_name_index : AgentName → ℕ
agent_name_index AgentName.monitor = 0
agent_name_index AgentName.audience = 1
agent_name_index AgentName.creative = 2
agent_name_index AgentName.bidding = 3
agent_name_index AgentName.optimize = 4
agent_name_index AgentName.critic = 5

abbrev pub agent_name_beq : AgentName → AgentName → Bool
agent_name_beq a b = nat_beq (agent_name_index a) (agent_name_index b)

pub agent_name_beq_iff : (a b : AgentName) → (agent_name_beq a b ≡ true) ↔ (a ≡ b)
agent_name_beq_iff a b = ground arith

instance abbrev pub agent_name_eq : Eq AgentName
agent_name_eq = record { equal = agent_name_beq; decides = agent_name_beq_iff }

-- `AgentName.value`
abbrev pub agent_name_value : AgentName → String
agent_name_value AgentName.monitor = "monitor"
agent_name_value AgentName.audience = "audience"
agent_name_value AgentName.creative = "creative"
agent_name_value AgentName.bidding = "bidding"
agent_name_value AgentName.optimize = "optimize"
agent_name_value AgentName.critic = "critic"

pub data Platform : Type 0 where
  google meta tiktok mock : Platform

abbrev pub platform_index : Platform → ℕ
platform_index Platform.google = 0
platform_index Platform.meta = 1
platform_index Platform.tiktok = 2
platform_index Platform.mock = 3

abbrev pub platform_beq : Platform → Platform → Bool
platform_beq a b = nat_beq (platform_index a) (platform_index b)

pub platform_beq_iff : (a b : Platform) → (platform_beq a b ≡ true) ↔ (a ≡ b)
platform_beq_iff a b = ground arith

instance abbrev pub platform_eq : Eq Platform
platform_eq = record { equal = platform_beq; decides = platform_beq_iff }

-- `Platform.value`
abbrev pub platform_value : Platform → String
platform_value Platform.google = "google"
platform_value Platform.meta = "meta"
platform_value Platform.tiktok = "tiktok"
platform_value Platform.mock = "mock"

pub data CampaignStatus : Type 0 where
  active paused completed archived : CampaignStatus

abbrev pub campaign_status_index : CampaignStatus → ℕ
campaign_status_index CampaignStatus.active = 0
campaign_status_index CampaignStatus.paused = 1
campaign_status_index CampaignStatus.completed = 2
campaign_status_index CampaignStatus.archived = 3

abbrev pub campaign_status_beq : CampaignStatus → CampaignStatus → Bool
campaign_status_beq a b = nat_beq (campaign_status_index a) (campaign_status_index b)

pub campaign_status_beq_iff : (a b : CampaignStatus) → (campaign_status_beq a b ≡ true) ↔ (a ≡ b)
campaign_status_beq_iff a b = ground arith

instance abbrev pub campaign_status_eq : Eq CampaignStatus
campaign_status_eq = record { equal = campaign_status_beq; decides = campaign_status_beq_iff }

pub data CreativeStatus : Type 0 where
  draft active paused rejected : CreativeStatus

abbrev pub creative_status_index : CreativeStatus → ℕ
creative_status_index CreativeStatus.draft = 0
creative_status_index CreativeStatus.active = 1
creative_status_index CreativeStatus.paused = 2
creative_status_index CreativeStatus.rejected = 3

abbrev pub creative_status_beq : CreativeStatus → CreativeStatus → Bool
creative_status_beq a b = nat_beq (creative_status_index a) (creative_status_index b)

pub creative_status_beq_iff : (a b : CreativeStatus) → (creative_status_beq a b ≡ true) ↔ (a ≡ b)
creative_status_beq_iff a b = ground arith

instance abbrev pub creative_status_eq : Eq CreativeStatus
creative_status_eq = record { equal = creative_status_beq; decides = creative_status_beq_iff }

pub data RunStatus : Type 0 where
  pending running succeeded failed cancelled : RunStatus

abbrev pub run_status_index : RunStatus → ℕ
run_status_index RunStatus.pending = 0
run_status_index RunStatus.running = 1
run_status_index RunStatus.succeeded = 2
run_status_index RunStatus.failed = 3
run_status_index RunStatus.cancelled = 4

abbrev pub run_status_beq : RunStatus → RunStatus → Bool
run_status_beq a b = nat_beq (run_status_index a) (run_status_index b)

pub run_status_beq_iff : (a b : RunStatus) → (run_status_beq a b ≡ true) ↔ (a ≡ b)
run_status_beq_iff a b = ground arith

instance abbrev pub run_status_eq : Eq RunStatus
run_status_eq = record { equal = run_status_beq; decides = run_status_beq_iff }

pub data ActionType : Type 0 where
  pause_creative resume_creative adjust_budget adjust_bid pause_campaign : ActionType
  resume_campaign refresh_creative start_ab_test stop_ab_test expand_audience : ActionType

abbrev pub action_type_index : ActionType → ℕ
action_type_index ActionType.pause_creative = 0
action_type_index ActionType.resume_creative = 1
action_type_index ActionType.adjust_budget = 2
action_type_index ActionType.adjust_bid = 3
action_type_index ActionType.pause_campaign = 4
action_type_index ActionType.resume_campaign = 5
action_type_index ActionType.refresh_creative = 6
action_type_index ActionType.start_ab_test = 7
action_type_index ActionType.stop_ab_test = 8
action_type_index ActionType.expand_audience = 9

abbrev pub action_type_beq : ActionType → ActionType → Bool
action_type_beq a b = nat_beq (action_type_index a) (action_type_index b)

pub action_type_beq_iff : (a b : ActionType) → (action_type_beq a b ≡ true) ↔ (a ≡ b)
action_type_beq_iff a b = ground arith

instance abbrev pub action_type_eq : Eq ActionType
action_type_eq = record { equal = action_type_beq; decides = action_type_beq_iff }

-- `ActionType.value`
abbrev pub action_type_value : ActionType → String
action_type_value ActionType.pause_creative = "pause_creative"
action_type_value ActionType.resume_creative = "resume_creative"
action_type_value ActionType.adjust_budget = "adjust_budget"
action_type_value ActionType.adjust_bid = "adjust_bid"
action_type_value ActionType.pause_campaign = "pause_campaign"
action_type_value ActionType.resume_campaign = "resume_campaign"
action_type_value ActionType.refresh_creative = "refresh_creative"
action_type_value ActionType.start_ab_test = "start_ab_test"
action_type_value ActionType.stop_ab_test = "stop_ab_test"
action_type_value ActionType.expand_audience = "expand_audience"

pub data ActionStatus : Type 0 where
  proposed approved rejected executed failed skipped suppressed : ActionStatus

abbrev pub action_status_index : ActionStatus → ℕ
action_status_index ActionStatus.proposed = 0
action_status_index ActionStatus.approved = 1
action_status_index ActionStatus.rejected = 2
action_status_index ActionStatus.executed = 3
action_status_index ActionStatus.failed = 4
action_status_index ActionStatus.skipped = 5
action_status_index ActionStatus.suppressed = 6

abbrev pub action_status_beq : ActionStatus → ActionStatus → Bool
action_status_beq a b = nat_beq (action_status_index a) (action_status_index b)

pub action_status_beq_iff : (a b : ActionStatus) → (action_status_beq a b ≡ true) ↔ (a ≡ b)
action_status_beq_iff a b = ground arith

instance abbrev pub action_status_eq : Eq ActionStatus
action_status_eq = record { equal = action_status_beq; decides = action_status_beq_iff }

-- `ActionStatus.value`
abbrev pub action_status_value : ActionStatus → String
action_status_value ActionStatus.proposed = "proposed"
action_status_value ActionStatus.approved = "approved"
action_status_value ActionStatus.rejected = "rejected"
action_status_value ActionStatus.executed = "executed"
action_status_value ActionStatus.failed = "failed"
action_status_value ActionStatus.skipped = "skipped"
action_status_value ActionStatus.suppressed = "suppressed"

-- `RunStatus.is_terminal`
unfoldable pub is_terminal : RunStatus → Bool
is_terminal RunStatus.pending = false
is_terminal RunStatus.running = false
is_terminal _ = true
