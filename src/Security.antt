-- ===== src/Security.antt =====
-- backend/src/adoptimizer/core/security.py: the role-based access matrix.
pub mod Separation
pub mod Tokens
use multi_agent_ad_optimizer.Prelude.{
  String, Bool, false, Option, none, some, List, [], ◌∷◌, elem, if◌then◌else◌, ◌==◌, string_eq,
}
use multi_agent_ad_optimizer.Domain.Access.{
  Role, Permission, permission_eq, role_value, permission_value,
}

abbrev pub all_permissions : List Permission
all_permissions =
    Permission.campaign_read ∷ Permission.campaign_write ∷ Permission.run_read
    ∷ Permission.run_trigger ∷ Permission.action_approve ∷ Permission.action_execute
    ∷ Permission.alert_read ∷ Permission.alert_ack ∷ Permission.creative_write
    ∷ Permission.metrics_read ∷ Permission.metrics_write ∷ Permission.user_manage
    ∷ Permission.audit_read ∷ Permission.system_read ∷ []

-- `_ROLE_PERMISSIONS`
unfoldable pub permissions_for : Role → List Permission
permissions_for Role.admin = all_permissions
permissions_for Role.optimizer =
    Permission.campaign_read ∷ Permission.campaign_write ∷ Permission.run_read
    ∷ Permission.run_trigger ∷ Permission.action_approve ∷ Permission.action_execute
    ∷ Permission.alert_read ∷ Permission.alert_ack ∷ Permission.creative_write
    ∷ Permission.metrics_read ∷ Permission.system_read ∷ []
permissions_for Role.analyst =
    Permission.campaign_read ∷ Permission.run_read ∷ Permission.alert_read ∷ Permission.alert_ack
    ∷ Permission.metrics_read ∷ Permission.system_read ∷ []
permissions_for Role.viewer =
    Permission.campaign_read ∷ Permission.run_read ∷ Permission.alert_read ∷ Permission.metrics_read
    ∷ []
permissions_for Role.ingestor = Permission.metrics_read ∷ Permission.metrics_write ∷ []

-- `role_has_permission` and `TokenClaims.has_permission`
unfoldable pub role_has_permission : Role → Permission → Bool
unfolding permissions_for
role_has_permission role permission = elem permission (permissions_for role)

-- The parts of `TokenClaims` that the services read.
pub record TokenClaims : Type 0 where
  pub subject : String
  pub email : String
  pub role : Role
  pub session_id : String
