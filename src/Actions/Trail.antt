-- ===== src/Actions/Trail.antt =====
-- Approvals on the audit trail of services/actions.py, and the rows that they vouch for.
use multi_agent_ad_optimizer.Prelude.{
  String, Bool, true, false, ◌&&◌, some, List, [], ◌∷◌, ◌++◌, ◌≡◌, ◌⊎◌, inl, inr, ap, arith, subst,
  sym, elem, ◌==◌, string_eq, Bool-cases, any, any-append, All, ==_sound, ==_refl,
}
use multi_agent_ad_optimizer.Prelude.Dict.{Dict, get, put}
use multi_agent_ad_optimizer.Domain.Enums.{ActionStatus, action_status_eq}
use multi_agent_ad_optimizer.Actions.Records.{OptimizationAction, AuditAction, AuditEntry, approved}

abbrev pub is_approval : AuditAction → Bool
is_approval (approved _) = true
is_approval _ = false

-- Statuses that only an approved action takes.
abbrev pub is_past_gate : ActionStatus → Bool
is_past_gate status =
    elem status (ActionStatus.approved ∷ ActionStatus.executed ∷ ActionStatus.failed ∷ [])

unfoldable pub is_vouched : String → List AuditEntry → Bool
is_vouched id trail = any (λ e. is_approval e.action && e.resource_id == id) trail

pub is_vouched-append :
    (id : String) (trail : List AuditEntry) (e : AuditEntry)
    → is_vouched id trail ≡ true
    → is_vouched id (trail ++ e ∷ []) ≡ true
unfolding is_vouched
is_vouched-append id trail e was =
    ground (arith, any-append (λ x. is_approval x.action && x.resource_id == id) trail (e ∷ []))

pub is_vouched-approved :
    (id : String) (trail : List AuditEntry) (e : AuditEntry)
    → is_approval e.action ≡ true
    → e.resource_id ≡ id
    → is_vouched id (trail ++ e ∷ []) ≡ true
unfolding is_vouched
is_vouched-approved id trail e says names = ground (
  arith,
  any-append (λ x. is_approval x.action && x.resource_id == id) trail (e ∷ []),
  ap (λ x. x == id) names,
  ==_refl id,
)

module _ {F : Type 0} where
  -- The row stands under its own id, and if it is past the gate its approval is on the trail.
  pub record RowVouched (trail : List AuditEntry) (place : String × OptimizationAction F)
      : Type 0 where
    pub key : place.1.id ≡ place.0
    pub gate : (is_past_gate place.1.status ≡ false) ⊎ (is_vouched place.0 trail ≡ true)

  abbrev pub AllVouched : List AuditEntry → Dict String (OptimizationAction F) → Type 0
  AllVouched trail rows = All (RowVouched trail) rows

  RowVouched-append :
      (trail : List AuditEntry) (e : AuditEntry) (place : String × OptimizationAction F)
      → RowVouched trail place
      → RowVouched (trail ++ e ∷ []) place
  RowVouched-append trail e place was = record {
    key = was.key;
    gate = elim was.gate [
      | inl before ↦ inl before
      | inr vouched ↦ inr (is_vouched-append place.0 trail e vouched)
    ];
  }

  pub AllVouched-append :
      (trail : List AuditEntry) (e : AuditEntry) (rows : Dict String (OptimizationAction F))
      → AllVouched trail rows
      → AllVouched (trail ++ e ∷ []) rows
  AllVouched-append trail e [] all = tt
  AllVouched-append trail e (place ∷ rows) (one, rest) =
      (RowVouched-append trail e place one, AllVouched-append trail e rows rest)

  pub AllVouched-get :
      (trail : List AuditEntry) (id : String) (row : OptimizationAction F)
      (rows : Dict String (OptimizationAction F))
      → AllVouched trail rows
      → get id rows ≡ some row
      → RowVouched trail (id, row)
  unfolding get
  AllVouched-get trail id row [] all found = ground arith
  AllVouched-get trail id row ((j, r) ∷ rows) (one, rest) found = elim (Bool-cases (j == id)) [
    | inl same ↦
        subst (λ k. RowVouched trail (k, row)) (==_sound j id same)
          (subst (λ o. RowVouched trail (j, o)) (ground arith) one)
    | inr other ↦ AllVouched-get trail id row rows rest (ground arith)
  ]

  pub AllVouched-put :
      (trail : List AuditEntry) (id : String) (row : OptimizationAction F)
      (rows : Dict String (OptimizationAction F))
      → AllVouched trail rows
      → RowVouched trail (id, row)
      → AllVouched trail (put id row rows)
  unfolding put
  AllVouched-put trail id row [] all new = (new, tt)
  AllVouched-put trail id row ((j, r) ∷ rows) (one, rest) new = elim (Bool-cases (j == id)) [
    | inl same ↦
        rw (same, put) (subst (λ k. RowVouched trail (k, row)) (sym (==_sound j id same)) new, rest)
    | inr other ↦ rw (other, put) (one, AllVouched-put trail id row rows rest new)
  ]
