-- ===== src/Actions/Gate.antt =====
-- The human gate: what each method of `ActionService` requires, and what it changes.
use multi_agent_ad_optimizer.Prelude.{
  String, true, false, not, ◌&&◌, Option, some, List, [], ◌∷◌, ◌++◌, ◌≡◌, ◌⊎◌, inl, inr, refl, ap,
  arith, elem, ◌==◌, string_eq, Bool-cases, Option-cases,
}
use multi_agent_ad_optimizer.Prelude.Dict.{get, put}
use multi_agent_ad_optimizer.Prelude.Text.{clip}
use mathlib.Core.Option
use multi_agent_ad_optimizer.Domain.Access.{Permission}
use multi_agent_ad_optimizer.Domain.Enums.{ActionStatus, action_status_eq}
use multi_agent_ad_optimizer.Security.{role_has_permission, TokenClaims}
use multi_agent_ad_optimizer.Actions.Records.{
  OptimizationAction, ExecutionResult, AuditEntry, ServiceError, approved, rejected, executed,
  failed,
}
use multi_agent_ad_optimizer.Actions.Monad.{Service, Env, Outcome, ok, err}
use multi_agent_ad_optimizer.Actions.Frame.{SameRows, apply-SameRows}
use multi_agent_ad_optimizer.Actions.Service.{
  entry, signed, approve, with_rejection, reject, admitted, may_execute, done, broken, settle,
  carry_out, execute,
}

append_both : {xs ys : List AuditEntry} (e : AuditEntry) → xs ≡ ys → xs ++ e ∷ [] ≡ ys ++ e ∷ []
append_both e same = ap (λ zs. zs ++ e ∷ []) same

module _ {F V W : Type 0} (env : Env F V W) (claims : TokenClaims) where
  -- A method raised and changed nothing at all.
  abbrev pub Refuses : {A : Type 0} → Service F V W → Outcome A × Service F V W → Type 0
  Refuses s r = (r.1 ≡ s) × ((e : ServiceError) × (r.0 ≡ err e))

  -- One row was replaced, and the trail has one more entry.
  pub record Writes (s t : Service F V W) (row : OptimizationAction F) (e : AuditEntry)
      : Type 0 where
    pub actions : t.actions ≡ put row.id row s.actions
    pub audit : t.audit ≡ s.audit ++ e ∷ []

  pub record Approves (id : String) (s : Service F V W)
      (r : Outcome (OptimizationAction F) × Service F V W) : Type 0 where
    pub before : OptimizationAction F
    pub permitted : role_has_permission claims.role Permission.action_approve ≡ true
    pub found : get id s.actions ≡ some before
    pub open_status :
        (before.status ≡ ActionStatus.proposed) ⊎ (before.status ≡ ActionStatus.suppressed)
    pub answer : r.0 ≡ ok (signed env claims ActionStatus.approved before)
    pub writes :
        Writes s r.1
          (signed env claims ActionStatus.approved before)
          (entry (approved (before.status == ActionStatus.suppressed)) before claims)
    pub world : r.1.world ≡ s.world

  -- Approving either signs the row and records it, overruling the critic in the open where it
  -- does, or raises and changes nothing.
  pub approve_cases :
      (id : String) (s : Service F V W)
      → Approves id s (approve env claims id s) ⊎ Refuses s (approve env claims id s)
  unfolding approve get
  approve_cases id s =
      elim (Bool-cases (role_has_permission claims.role Permission.action_approve)) [
        | inr denied ↦ rw (denied, approve) (inr (refl, (_, refl)))
        | inl permitted ↦ elim (Option-cases (get id s.actions)) [
          | inl absent ↦ rw (permitted, absent, approve) (inr (refl, (_, refl)))
          | inr (action, found) ↦
              elim (Bool-cases
                (elem action.status (ActionStatus.proposed ∷ ActionStatus.suppressed ∷ []))) [
                  | inr closed ↦ rw (permitted, found, closed, approve) (inr (refl, (_, refl)))
                  | inl opened ↦
                      rw (permitted, found, opened, approve)
                        (inl (record {
                          before = action;
                          permitted = permitted;
                          found = found;
                          open_status = ground arith;
                          answer = refl;
                          writes = record { actions = refl; audit = refl };
                          world = refl;
                        }))
                ]
        ]
      ]

  pub record Rejects (id reason : String) (s : Service F V W)
      (r : Outcome (OptimizationAction F) × Service F V W) : Type 0 where
    pub before : OptimizationAction F
    pub permitted : role_has_permission claims.role Permission.action_approve ≡ true
    pub found : get id s.actions ≡ some before
    pub open_status :
        (before.status ≡ ActionStatus.proposed)
        ⊎ ((before.status ≡ ActionStatus.approved) ⊎ (before.status ≡ ActionStatus.suppressed))
    pub answer :
        r.0 ≡ ok (with_rejection env claims reason (signed env claims ActionStatus.rejected before))
    pub writes :
        Writes s r.1
          (with_rejection env claims reason (signed env claims ActionStatus.rejected before))
          (entry (rejected reason) before claims)
    pub world : r.1.world ≡ s.world

  -- Rejecting either closes an open row and records it, or raises and changes nothing.
  pub reject_cases :
      (id reason : String) (s : Service F V W)
      → Rejects id reason s (reject env claims id reason s)
        ⊎ Refuses s (reject env claims id reason s)
  unfolding reject get
  reject_cases id reason s =
      elim (Bool-cases (role_has_permission claims.role Permission.action_approve)) [
        | inr denied ↦ rw (denied, reject) (inr (refl, (_, refl)))
        | inl permitted ↦ elim (Option-cases (get id s.actions)) [
          | inl absent ↦ rw (permitted, absent, reject) (inr (refl, (_, refl)))
          | inr (action, found) ↦
              elim (Bool-cases (
                elem action.status
                  (ActionStatus.proposed ∷ ActionStatus.approved ∷ ActionStatus.suppressed ∷ []))) [
                    | inr closed ↦ rw (permitted, found, closed, reject) (inr (refl, (_, refl)))
                    | inl opened ↦
                        rw (permitted, found, opened, reject)
                          (inl (record {
                            before = action;
                            permitted = permitted;
                            found = found;
                            open_status = ground arith;
                            answer = refl;
                            writes = record { actions = refl; audit = refl };
                            world = refl;
                          }))
                  ]
        ]
      ]

  -- What carrying out an admitted row leaves: the row is done or failed, with its one entry.
  pub data Settled (row : OptimizationAction F) (s : Service F V W)
      : Outcome (OptimizationAction F × Option ExecutionResult) × Service F V W → Type 0 where
    landed :
        (result : Option ExecutionResult) (t : Service F V W)
        → Writes s t
            (done env claims row result)
            (entry (executed (Option.map (λ r. r.dry_run) result)) row claims)
        → Settled row s (ok (done env claims row result, result), t)
    crashed :
        (e : ServiceError) (t : Service F V W)
        → Writes s t
            (broken env claims row e)
            (entry (failed (some (clip 2000 (env.describe e)))) row claims)
        → Settled row s (err e, t)

  settle-Settled :
      (row : OptimizationAction F) (o : Outcome (Option ExecutionResult)) (s t : Service F V W)
      → SameRows s t
      → Settled row s (settle env claims row o t)
  unfolding settle
  settle-Settled row (ok result) s t same =
      landed result _
        (record { actions = ap (put row.id _) same.actions; audit = append_both _ same.audit })
  settle-Settled row (err e) s t same =
      crashed e _
        (record { actions = ap (put row.id _) same.actions; audit = append_both _ same.audit })

  -- Whatever the network does, carrying out a row settles it: done with the entry that says so, or
  -- failed with the entry that says so and the exception raised.
  pub carry_out-Settled :
      (row : OptimizationAction F) (s : Service F V W) → Settled row s (carry_out env claims row s)
  unfolding carry_out
  carry_out-Settled row s =
      settle-Settled row _ s _ (apply-SameRows env row (get row.campaign_id s.campaigns) s)

  abbrev pub with_row : OptimizationAction F → Service F V W → Service F V W
  with_row row s = record s { actions = put row.id row s.actions }

  -- What `execute` found and did when it did not refuse.
  pub record Executes (id : String) (s : Service F V W)
      (r : Outcome (OptimizationAction F × Option ExecutionResult) × Service F V W) : Type 0 where
    pub before : OptimizationAction F
    pub permitted : role_has_permission claims.role Permission.action_execute ≡ true
    pub found : get id s.actions ≡ some before
    pub unsettled : elem before.status (ActionStatus.executed ∷ ActionStatus.rejected ∷ []) ≡ false
    pub vouched : (env.require_approval ≡ false) ⊎ (before.status ≡ ActionStatus.approved)
    pub settled : Settled (admitted env claims before) (with_row (admitted env claims before) s) r

  -- Executing an action either settles its row, which was neither executed nor rejected and which
  -- was approved where the deployment asks for it, or raises before anything changed, the
  -- network included.
  pub execute_cases :
      (id : String) (s : Service F V W)
      → Executes id s (execute env claims id s) ⊎ Refuses s (execute env claims id s)
  unfolding execute get may_execute
  execute_cases id s =
      elim (Bool-cases (role_has_permission claims.role Permission.action_execute)) [
        | inr denied ↦ rw (denied, execute) (inr (refl, (_, refl)))
        | inl permitted ↦ elim (Option-cases (get id s.actions)) [
          | inl absent ↦ rw (permitted, absent, execute) (inr (refl, (_, refl)))
          | inr (action, found) ↦
              elim (Bool-cases
                (elem action.status (ActionStatus.executed ∷ ActionStatus.rejected ∷ []))) [
                  | inl closed ↦ rw (permitted, found, closed, execute) (inr (refl, (_, refl)))
                  | inr unsettled ↦
                      elim (Bool-cases
                        (env.require_approval && not (action.status == ActionStatus.approved))) [
                          | inl gated ↦
                              rw (permitted, found, unsettled, gated, execute)
                                (inr (refl, (_, refl)))
                          | inr free ↦
                              rw (permitted, found, unsettled, free, execute)
                                (inl (record {
                                  before = action;
                                  permitted = permitted;
                                  found = found;
                                  unsettled = unsettled;
                                  vouched = ground arith;
                                  settled = carry_out-Settled (admitted env claims action) _;
                                }))
                        ]
                ]
        ]
      ]
