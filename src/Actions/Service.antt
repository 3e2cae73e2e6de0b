-- ===== src/Actions/Service.antt =====
-- `approve`, `reject`, `execute` and `bulk_approve` of services/actions.py.
use multi_agent_ad_optimizer.Prelude.{
  String, Bool, true, false, not, ◌&&◌, Option, none, some, List, [], ◌∷◌, ◌++◌, elem, ◌==◌,
  string_eq, if◌then◌else◌,
}
use mathlib.Core.Option
use multi_agent_ad_optimizer.Prelude.Dict.{get, put}
use multi_agent_ad_optimizer.Prelude.Text.{concat, clip}
use multi_agent_ad_optimizer.Domain.Access.{Permission}
use multi_agent_ad_optimizer.Domain.Enums.{ActionStatus, action_status_eq}
use multi_agent_ad_optimizer.Security.{role_has_permission, TokenClaims}
use multi_agent_ad_optimizer.Actions.Records.{
  OptimizationAction, AuditAction, AuditEntry, approved, rejected, executed, failed,
  ExecutionResult, ServiceError,
}
use multi_agent_ad_optimizer.Actions.Monad.{
  Env, Outcome, ok, err, M, pure, raise, gets, modify, ◌>>=◌, ◌>>◌, audited,
}
use multi_agent_ad_optimizer.Actions.Apply.{apply}

pub data Skip : Type 0 where
  missing low_confidence : Skip
  not_proposed : ActionStatus → Skip

pub record BulkResult : Type 0 where
  pub approved_ids : List String
  pub skipped : List (String × Skip)

module _ {F V W : Type 0} where
  -- `require_permission`
  abbrev pub require_permission : Permission → TokenClaims → M F V W Unit
  require_permission permission claims =
      if role_has_permission claims.role permission
      then pure tt
      else raise ServiceError.permission_denied

  -- `get_or_raise`
  abbrev pub get_or_raise : String → M F V W (OptimizationAction F)
  get_or_raise id s = elim (get id s.actions) [
    | none ↦ raise ServiceError.not_found s
    | some action ↦ pure action s
  ]

  abbrev pub save : OptimizationAction F → M F V W Unit
  save action = modify (λ s. record s { actions = put action.id action s.actions })

  abbrev pub refuse_unless : Bool → ServiceError → M F V W Unit
  refuse_unless true e = pure tt
  refuse_unless false e = raise e

module _ {F : Type 0} where
  abbrev pub entry : AuditAction → OptimizationAction F → TokenClaims → AuditEntry
  entry what action claims = record {
    action = what;
    resource_id = action.id;
    actor = claims.subject;
  }

module _ {F V W : Type 0} (env : Env F V W) (claims : TokenClaims) where
  abbrev pub signed : ActionStatus → OptimizationAction F → OptimizationAction F
  signed status action = record action {
    status = status;
    approved_by = some claims.subject;
    approved_at = some env.now;
  }

  unfoldable pub approve : String → M F V W (OptimizationAction F)
  approve id = do
    require_permission Permission.action_approve claims
    action ← get_or_raise id
    refuse_unless (elem action.status (ActionStatus.proposed ∷ ActionStatus.suppressed ∷ []))
        (ServiceError.conflict action.status)
    save (signed ActionStatus.approved action)
    audited (entry (approved (action.status == ActionStatus.suppressed)) action claims)
    pure (signed ActionStatus.approved action)

  abbrev pub with_rejection : String → OptimizationAction F → OptimizationAction F
  with_rejection reason action = if reason == "" then action else record action {
    reason = concat (action.reason ∷ " | Rejected: " ∷ clip 400 reason ∷ []);
  }

  unfoldable pub reject : String → String → M F V W (OptimizationAction F)
  unfolding clip
  reject id reason = do
    require_permission Permission.action_approve claims
    action ← get_or_raise id
    refuse_unless
        (elem action.status
          (ActionStatus.proposed ∷ ActionStatus.approved ∷ ActionStatus.suppressed ∷ []))
        (ServiceError.conflict action.status)
    save (with_rejection reason (signed ActionStatus.rejected action))
    audited (entry (rejected reason) action claims)
    pure (with_rejection reason (signed ActionStatus.rejected action))

  -- The checks of `execute` on the status of a row.
  unfoldable pub may_execute : OptimizationAction F → M F V W Unit
  may_execute action = do
    refuse_unless (not (elem action.status (ActionStatus.executed ∷ ActionStatus.rejected ∷ [])))
        (ServiceError.conflict action.status)
    refuse_unless (not (env.require_approval && not (action.status == ActionStatus.approved)))
        ServiceError.approval_required

  -- Where no approval is required, executing a proposal approves it.
  unfoldable pub admitted : OptimizationAction F → OptimizationAction F
  admitted action =
      if not env.require_approval && action.status == ActionStatus.proposed
      then signed ActionStatus.approved action
      else action

  abbrev pub done : OptimizationAction F → Option ExecutionResult → OptimizationAction F
  done action result = record action {
    status = ActionStatus.executed;
    executed_at = some env.now;
    external_reference = elim result [
      | none ↦ action.external_reference
      | some r ↦ r.external_reference
    ];
  }

  abbrev pub broken : OptimizationAction F → ServiceError → OptimizationAction F
  broken action e = record action {
    status = ActionStatus.failed;
    error_message = some (clip 2000 (env.describe e));
  }

  -- What follows `_apply` in `execute`: the `try` block's end, or its handler, which raises again.
  unfoldable pub settle :
      OptimizationAction F
      → Outcome (Option ExecutionResult)
      → M F V W (OptimizationAction F × Option ExecutionResult)
  unfolding clip
  settle action (ok result) = do
    save (done action result)
    modify (λ s. record s {
      deferred = s.deferred ++ (action.action_type, ActionStatus.executed) ∷ [];
    })
    audited (entry (executed (Option.map (λ r. r.dry_run) result)) action claims)
    pure (done action result, result)
  settle action (err e) = do
    save (broken action e)
    modify (λ s. record s { counted = s.counted ++ (action.action_type, ActionStatus.failed) ∷ [] })
    audited (entry (failed (some (clip 2000 (env.describe e)))) action claims)
    raise e

  unfoldable pub carry_out :
      OptimizationAction F → M F V W (OptimizationAction F × Option ExecutionResult)
  carry_out action s =
      let (outcome, s') = apply env action (get action.campaign_id s.campaigns) s in
      settle action outcome s'

  unfoldable pub execute : String → M F V W (OptimizationAction F × Option ExecutionResult)
  unfolding may_execute admitted
  execute id = do
    require_permission Permission.action_execute claims
    action ← get_or_raise id
    may_execute action
    save (admitted action)
    carry_out (admitted action)

  -- Whether `bulk_approve` passes a row over.
  unfoldable pub skip_reason : F → Option (OptimizationAction F) → Option Skip
  skip_reason min_confidence none = some missing
  skip_reason min_confidence (some action) =
      if not (action.status == ActionStatus.proposed)
      then some (not_proposed action.status)
      else if env.amount.lt action.confidence min_confidence
      then some low_confidence
      else none

  -- One round of the loop of `bulk_approve`, for what `skip_reason` said.
  unfoldable pub bulk_round : BulkResult → String → Option Skip → M F V W BulkResult
  bulk_round so_far id (some why) =
      pure (record so_far { skipped = so_far.skipped ++ (id, why) ∷ [] })
  bulk_round so_far id none = do
    approve id
    pure (record so_far { approved_ids = so_far.approved_ids ++ id ∷ [] })

  unfoldable pub bulk_from : F → BulkResult → List String → M F V W BulkResult
  bulk_from min_confidence so_far [] = pure so_far
  bulk_from min_confidence so_far (id ∷ ids) = do
    action ← gets (λ s. get id s.actions)
    so_far ← bulk_round so_far id (skip_reason min_confidence action)
    bulk_from min_confidence so_far ids

  unfoldable pub bulk_approve : F → List String → M F V W BulkResult
  unfolding bulk_from bulk_round skip_reason
  bulk_approve min_confidence ids =
      bulk_from min_confidence (record { approved_ids = []; skipped = [] }) ids
