-- ===== src/Domain/Access.antt =====
-- backend/src/adoptimizer/domain/enums.py: roles and permissions.
use Prim.Native.Nat.{ℕ}
use multi_agent_ad_optimizer.Prelude.{String, Bool, true, ◌≡◌, ◌↔◌, arith, Eq, nat_beq}

pub data Role : Type 0 where
  admin optimizer analyst viewer ingestor : Role

abbrev pub role_index : Role → ℕ
role_index Role.admin = 0
role_index Role.optimizer = 1
role_index Role.analyst = 2
role_index Role.viewer = 3
role_index Role.ingestor = 4

abbrev pub role_beq : Role → Role → Bool
role_beq a b = nat_beq (role_index a) (role_index b)

pub role_beq_iff : (a b : Role) → (role_beq a b ≡ true) ↔ (a ≡ b)
role_beq_iff a b = ground arith

instance abbrev pub role_eq : Eq Role
role_eq = record { equal = role_beq; decides = role_beq_iff }

-- `Role.value`
abbrev pub role_value : Role → String
role_value Role.admin = "admin"
role_value Role.optimizer = "optimizer"
role_value Role.analyst = "analyst"
role_value Role.viewer = "viewer"
role_value Role.ingestor = "ingestor"

pub data Permission : Type 0 where
  campaign_read campaign_write run_read run_trigger action_approve action_execute alert_read :
      Permission
  alert_ack creative_write metrics_read metrics_write user_manage audit_read system_read :
      Permission

abbrev pub permission_index : Permission → ℕ
permission_index Permission.campaign_read = 0
permission_index Permission.campaign_write = 1
permission_index Permission.run_read = 2
permission_index Permission.run_trigger = 3
permission_index Permission.action_approve = 4
permission_index Permission.action_execute = 5
permission_index Permission.alert_read = 6
permission_index Permission.alert_ack = 7
permission_index Permission.creative_write = 8
permission_index Permission.metrics_read = 9
permission_index Permission.metrics_write = 10
permission_index Permission.user_manage = 11
permission_index Permission.audit_read = 12
permission_index Permission.system_read = 13

abbrev pub permission_beq : Permission → Permission → Bool
permission_beq a b = nat_beq (permission_index a) (permission_index b)

pub permission_beq_iff : (a b : Permission) → (permission_beq a b ≡ true) ↔ (a ≡ b)
permission_beq_iff a b = ground arith

instance abbrev pub permission_eq : Eq Permission
permission_eq = record { equal = permission_beq; decides = permission_beq_iff }

-- `Permission.value`
abbrev pub permission_value : Permission → String
permission_value Permission.campaign_read = "campaign:read"
permission_value Permission.campaign_write = "campaign:write"
permission_value Permission.run_read = "run:read"
permission_value Permission.run_trigger = "run:trigger"
permission_value Permission.action_approve = "action:approve"
permission_value Permission.action_execute = "action:execute"
permission_value Permission.alert_read = "alert:read"
permission_value Permission.alert_ack = "alert:ack"
permission_value Permission.creative_write = "creative:write"
permission_value Permission.metrics_read = "metrics:read"
permission_value Permission.metrics_write = "metrics:write"
permission_value Permission.user_manage = "user:manage"
permission_value Permission.audit_read = "audit:read"
permission_value Permission.system_read = "system:read"
