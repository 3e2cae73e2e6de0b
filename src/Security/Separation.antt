-- ===== src/Security/Separation.antt =====
-- Who can do what, over the whole matrix.
use multi_agent_ad_optimizer.Prelude.{true, false, ◌||◌, ◌≡◌, ◌≢◌, refl, ◌==◌, arith}
use multi_agent_ad_optimizer.Domain.Access.{Role, role_eq, Permission}
use multi_agent_ad_optimizer.Security.{role_has_permission}

-- Approving and executing go together, and exactly admins and optimizers can do them.
pub role_can_move_money :
    (role : Role)
    → (role_has_permission role Permission.action_approve
        ≡ (role == Role.admin || role == Role.optimizer))
      × (role_has_permission role Permission.action_execute
          ≡ role_has_permission role Permission.action_approve)
unfolding role_has_permission
role_can_move_money Role.admin = (refl, refl)
role_can_move_money Role.optimizer = (refl, refl)
role_can_move_money Role.analyst = (refl, refl)
role_can_move_money Role.viewer = (refl, refl)
role_can_move_money Role.ingestor = (refl, refl)

-- Whoever can write metrics and can also approve or execute actions is an admin.
pub metrics_writer_cannot_approve :
    (role : Role)
    → role_has_permission role Permission.metrics_write ≡ true
    → role ≢ Role.admin
    → (role_has_permission role Permission.action_approve ≡ false)
      × (role_has_permission role Permission.action_execute ≡ false)
unfolding role_has_permission
metrics_writer_cannot_approve Role.admin writes other = absurd (other refl)
metrics_writer_cannot_approve Role.ingestor writes other = (refl, refl)
metrics_writer_cannot_approve _ writes other = cc

-- The order of the roles that people hold: viewer, analyst, optimizer, admin.
abbrev pub next_role : Role → Role
next_role Role.viewer = Role.analyst
next_role Role.analyst = Role.optimizer
next_role _ = Role.admin

-- Along the ladder of roles, and from the ingestor to the admin, no permission is lost.
pub permissions_grow :
    (role : Role) (permission : Permission)
    → role_has_permission role permission ≡ true
    → role_has_permission (next_role role) permission ≡ true
unfolding role_has_permission
permissions_grow role permission h = ground arith
