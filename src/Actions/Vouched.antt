-- ===== src/Actions/Vouched.antt =====
-- The approvals behind the rows of services/actions.py, over any calls of its methods.
use multi_agent_ad_optimizer.Prelude.{
  String, true, false, Option, none, some, List, [], ◌∷◌, ◌++◌, ◌≡◌, ◌⊎◌, inl, inr, refl, arith,
  subst, sym, string_eq,
}
use multi_agent_ad_optimizer.Domain.Enums.{ActionStatus, action_status_eq}
use multi_agent_ad_optimizer.Security.{TokenClaims}
use multi_agent_ad_optimizer.Actions.Records.{OptimizationAction, ExecutionResult, AuditEntry}
use multi_agent_ad_optimizer.Actions.Monad.{Service, Env, Outcome, ok, err, M, and_then}
use multi_agent_ad_optimizer.Actions.Service.{
  approve, signed, with_rejection, reject, admitted, execute, BulkResult, Skip, bulk_round,
  bulk_from, bulk_approve,
}
use multi_agent_ad_optimizer.Actions.Gate.{
  approve_cases, reject_cases, execute_cases, Writes, with_row, Settled, landed, crashed,
}
use multi_agent_ad_optimizer.Actions.Trail.{
  is_past_gate, is_vouched, is_vouched-append, is_vouched-approved, RowVouched, AllVouched,
  AllVouched-append, AllVouched-get, AllVouched-put,
}

module _ {F V W : Type 0} where
  abbrev pub IsVouched : Service F V W → Type 0
  IsVouched s = AllVouched s.audit s.actions

module _ {F V W : Type 0} (env : Env F V W) (claims : TokenClaims) where
  Writes-IsVouched :
      (s t : Service F V W) (row : OptimizationAction F) (e : AuditEntry)
      → IsVouched s
      → Writes env claims s t row e
      → (is_past_gate row.status ≡ false) ⊎ (is_vouched row.id (s.audit ++ e ∷ []) ≡ true)
      → IsVouched t
  Writes-IsVouched s t row e was w gate =
      subst (λ xs. AllVouched xs t.actions) (sym w.audit)
        (subst (AllVouched (s.audit ++ e ∷ [])) (sym w.actions) (
          AllVouched-put (s.audit ++ e ∷ []) row.id row s.actions
            (AllVouched-append s.audit e s.actions was) (record { key = refl; gate = gate })))

  approve-IsVouched :
      (id : String) (s : Service F V W) → IsVouched s → IsVouched (approve env claims id s).1
  approve-IsVouched id s was = elim (approve_cases env claims id s) [
    | inr refuses ↦ subst IsVouched (sym refuses.0) was
    | inl done ↦
        Writes-IsVouched s _ _ _ was done.writes
          (inr (is_vouched-approved done.before.id s.audit _ refl refl))
  ]

  with_rejection-closed :
      (reason : String) (row : OptimizationAction F)
      → is_past_gate
          (with_rejection env claims reason (signed env claims ActionStatus.rejected row)).status
        ≡ false
  with_rejection-closed reason row = ground arith

  reject-IsVouched :
      (id reason : String) (s : Service F V W)
      → IsVouched s
      → IsVouched (reject env claims id reason s).1
  reject-IsVouched id reason s was = elim (reject_cases env claims id reason s) [
    | inr refuses ↦ subst IsVouched (sym refuses.0) was
    | inl done ↦
        Writes-IsVouched s _ _ _ was done.writes (inl (with_rejection-closed reason done.before))
  ]

  Settled-IsVouched :
      (row : OptimizationAction F) (s : Service F V W)
      (r : Outcome (OptimizationAction F × Option ExecutionResult) × Service F V W)
      → IsVouched s
      → is_vouched row.id s.audit ≡ true
      → Settled env claims row s r
      → IsVouched r.1
  Settled-IsVouched row s r was vouched (landed result t w) =
      Writes-IsVouched s t _ _ was w (inr (is_vouched-append row.id s.audit _ vouched))
  Settled-IsVouched row s r was vouched (crashed e t w) =
      Writes-IsVouched s t _ _ was w (inr (is_vouched-append row.id s.audit _ vouched))

  admitted-gated :
      (row : OptimizationAction F) → env.require_approval ≡ true → admitted env claims row ≡ row
  unfolding admitted
  admitted-gated row gated = rw (gated, admitted) refl

  vouched_of :
      (row : OptimizationAction F) (id : String) (trail : List AuditEntry)
      → env.require_approval ≡ true
      → (env.require_approval ≡ false) ⊎ (row.status ≡ ActionStatus.approved)
      → RowVouched trail (id, row)
      → is_vouched row.id trail ≡ true
  vouched_of row id trail gated ready v = ground (arith, v.gate, v.key)

  execute-IsVouched :
      (id : String) (s : Service F V W)
      → env.require_approval ≡ true
      → IsVouched s
      → IsVouched (execute env claims id s).1
  execute-IsVouched id s gated was = elim (execute_cases env claims id s) [
    | inr refuses ↦ subst IsVouched (sym refuses.0) was
    | inl did ↦
        let vouched : is_vouched did.before.id s.audit ≡ true =
          vouched_of did.before id s.audit gated did.vouched
            (AllVouched-get s.audit id did.before s.actions was did.found) in
        Settled-IsVouched did.before (with_row env claims did.before s) _
          (AllVouched-put s.audit did.before.id did.before s.actions was
            (record { key = refl; gate = inr vouched }))
          vouched
          (subst
            (λ row. Settled env claims row (with_row env claims row s) (execute env claims id s))
            (admitted-gated did.before gated) did.settled)
  ]

  and_then-IsVouched :
      {A B : Type 0} (r : Outcome A × Service F V W) (k : A → M F V W B)
      → IsVouched r.1
      → ((a : A) (t : Service F V W) → IsVouched t → IsVouched (k a t).1)
      → IsVouched (and_then r.0 k r.1).1
  and_then-IsVouched (ok a, t) k now keeps = keeps a t now
  and_then-IsVouched (err e, t) k now keeps = now

  bulk_round-IsVouched :
      (so_far : BulkResult) (id : String) (skip : Option Skip) (s : Service F V W)
      → IsVouched s
      → IsVouched (bulk_round env claims so_far id skip s).1
  unfolding bulk_round
  bulk_round-IsVouched so_far id (some why) s was = was
  bulk_round-IsVouched so_far id none s was =
      and_then-IsVouched (approve env claims id s) _ (approve-IsVouched id s was) (λ _ t now. now)

  bulk_from-IsVouched :
      (min_confidence : F) (so_far : BulkResult) (ids : List String) (s : Service F V W)
      → IsVouched s
      → IsVouched (bulk_from env claims min_confidence so_far ids s).1
  unfolding bulk_from
  bulk_from-IsVouched m so_far [] s was = was
  bulk_from-IsVouched m so_far (id ∷ ids) s was =
      and_then-IsVouched (bulk_round env claims so_far id _ s) _
        (bulk_round-IsVouched so_far id _ s was)
        (λ now_done t now. bulk_from-IsVouched m now_done ids t now)

  bulk_approve-IsVouched :
      (min_confidence : F) (ids : List String) (s : Service F V W)
      → IsVouched s
      → IsVouched (bulk_approve env claims min_confidence ids s).1
  unfolding bulk_approve
  bulk_approve-IsVouched m ids s was = bulk_from-IsVouched m _ ids s was

module _ {F V W : Type 0} (env : Env F V W) where
  -- Any methods of the service called one after another, whoever calls them.
  pub data Moves (s : Service F V W) : Service F V W → Type 0 where
    still : Moves s s
    approving :
        (claims : TokenClaims) (id : String) (t : Service F V W)
        → Moves s t
        → Moves s (approve env claims id t).1
    rejecting :
        (claims : TokenClaims) (id reason : String) (t : Service F V W)
        → Moves s t
        → Moves s (reject env claims id reason t).1
    executing :
        (claims : TokenClaims) (id : String) (t : Service F V W)
        → Moves s t
        → Moves s (execute env claims id t).1
    bulk_approving :
        (claims : TokenClaims) (min_confidence : F) (ids : List String) (t : Service F V W)
        → Moves s t
        → Moves s (bulk_approve env claims min_confidence ids t).1

  -- Where the deployment requires approval, then whatever methods are called in whatever order by
  -- whomever, raising or not: if every row past the gate had its approval on the trail before, every
  -- row past the gate has its approval on the trail after, and every row stands under its own id.
  pub Moves-IsVouched :
      (s t : Service F V W) → env.require_approval ≡ true → IsVouched s → Moves s t → IsVouched t
  Moves-IsVouched s t gated was still = was
  Moves-IsVouched s _ gated was (approving claims id t moves) =
      approve-IsVouched env claims id t (Moves-IsVouched s t gated was moves)
  Moves-IsVouched s _ gated was (rejecting claims id reason t moves) =
      reject-IsVouched env claims id reason t (Moves-IsVouched s t gated was moves)
  Moves-IsVouched s _ gated was (executing claims id t moves) =
      execute-IsVouched env claims id t gated (Moves-IsVouched s t gated was moves)
  Moves-IsVouched s _ gated was (bulk_approving claims m ids t moves) =
      bulk_approve-IsVouched env claims m ids t (Moves-IsVouched s t gated was moves)
