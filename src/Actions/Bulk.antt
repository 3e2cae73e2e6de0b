-- ===== src/Actions/Bulk.antt =====
-- What `bulk_approve` of services/actions.py answers, and what it leaves.
use multi_agent_ad_optimizer.Prelude.{
  ℕ, ◌+◌, String, true, false, Option, none, some, List, [], ◌∷◌, ◌++◌, ◌⊎◌, inl, inr, ◌≡◌, refl,
  sym, ap, ◌∙◌, subst, arith, elem, map, In, ◌==◌, ==_sound, string_eq, if◌then◌else◌, Bool-cases,
  Option-cases,
}
use multi_agent_ad_optimizer.Prelude.Lists.{append_assoc, append_nil}
use multi_agent_ad_optimizer.Prelude.Dict.{get, put, get-put}
use multi_agent_ad_optimizer.Domain.Access.{Permission}
use multi_agent_ad_optimizer.Domain.Enums.{ActionStatus, action_status_eq}
use multi_agent_ad_optimizer.Security.{role_has_permission, TokenClaims}
use multi_agent_ad_optimizer.Actions.Records.{OptimizationAction, AuditEntry, approved}
use multi_agent_ad_optimizer.Actions.Monad.{Service, Env, Outcome, ok, err}
use multi_agent_ad_optimizer.Actions.Service.{
  entry, approve, signed, Skip, not_proposed, BulkResult, skip_reason, bulk_round, bulk_from,
  bulk_approve,
}

-- How often an id is listed.
unfoldable pub times : String → List String → ℕ
times j [] = 0
times j (id ∷ rest) = (if id == j then 1 else 0) + times j rest

abbrev pub names : List (String × Skip) → List String
names skips = map (λ e. e.0) skips

module _ {F V W : Type 0} (env : Env F V W) (claims : TokenClaims) where
  -- A row as approving it leaves it.
  abbrev pub signed_row : Option (OptimizationAction F) → Option (OptimizationAction F)
  signed_row none = none
  signed_row (some action) = some (signed env claims ActionStatus.approved action)

  -- A proposal that reaches the confidence asked for.
  abbrev pub IsFit : F → Option (OptimizationAction F) → Type 0
  IsFit m none = ⊥
  IsFit m (some action) =
      (action.status ≡ ActionStatus.proposed) × (env.amount.lt action.confidence m ≡ false)

  -- The entry of an approval that overrules nobody.
  abbrev pub approval_of : String → AuditEntry
  approval_of id = record { action = approved false; resource_id = id; actor = claims.subject }

  -- The store gives the row of an id.
  abbrev pub IsNamed : Service F V W → Type 0
  IsNamed s =
      (j : String) (action : OptimizationAction F) → get j s.actions ≡ some action → action.id ≡ j

  -- What bulk approval of some ids makes of a session, for the ids it says it approved and those it
  -- says it passed over.
  pub record Settles (m : F) (asked : List String) (s : Service F V W) (ids : List String)
      (skips : List (String × Skip)) (t : Service F V W) : Type 0 where
    pub answers : (j : String) → times j asked ≡ times j ids + times j (names skips)
    pub fit : (j : String) → elem j ids ≡ true → IsFit m (get j s.actions)
    pub rows :
        (j : String)
        → get j t.actions ≡ (if elem j ids then signed_row (get j s.actions) else get j s.actions)
    pub reasons :
        (e : String × Skip)
        → In e skips
        → (skip_reason env claims m (get e.0 s.actions) ≡ some e.1)
          ⊎ ((elem e.0 ids ≡ true) × (e.1 ≡ not_proposed ActionStatus.approved))
    pub audit : t.audit ≡ s.audit ++ map approval_of ids
    pub world : t.world ≡ s.world

  -- The outcome is no exception, and settles every id.
  abbrev pub Answers : F → List String → Service F V W → Outcome BulkResult × Service F V W → Type 0
  Answers m asked s (ok result, t) = Settles m asked s result.approved_ids result.skipped t
  Answers m asked s (err e, t) = ⊥

  skip_reason-none :
      (m : F) (row : Option (OptimizationAction F))
      → skip_reason env claims m row ≡ none
      → (action : OptimizationAction F) × (row ≡ some action) × IsFit m (some action)
  unfolding skip_reason
  skip_reason-none m none passes = ground arith
  skip_reason-none m (some action) passes = (action, refl, (ground arith, ground arith))

  skip_reason-signed :
      (m : F) (action : OptimizationAction F)
      → skip_reason env claims m (some (signed env claims ActionStatus.approved action))
        ≡ some (not_proposed ActionStatus.approved)
  unfolding skip_reason
  skip_reason-signed m action = refl

  -- The session after the approval of a proposal.
  abbrev after : OptimizationAction F → Service F V W → Service F V W
  after action s = record s {
    actions = put action.id (signed env claims ActionStatus.approved action) s.actions;
    audit = s.audit ++ entry (approved false) action claims ∷ [];
  }

  approve-proposed :
      (id : String) (s : Service F V W) (action : OptimizationAction F)
      → role_has_permission claims.role Permission.action_approve ≡ true
      → get id s.actions ≡ some action
      → action.status ≡ ActionStatus.proposed
      → approve env claims id s
        ≡ (ok (signed env claims ActionStatus.approved action), after action s)
  unfolding approve get
  approve-proposed id s action permitted found proposed =
      rw (permitted, found, proposed, approve) refl

  get-after :
      (id : String) (s : Service F V W) (action : OptimizationAction F)
      → action.id ≡ id
      → (j : String)
      → get j (after action s).actions ≡ (
          if id == j
          then some (signed env claims ActionStatus.approved action)
          else get j s.actions)
  get-after id s action named j =
      subst
        (λ k. get j (put k (signed env claims ActionStatus.approved action) s.actions) ≡ (
          if id == j
          then some (signed env claims ActionStatus.approved action)
          else get j s.actions))
        (sym named) (get-put id j (signed env claims ActionStatus.approved action) s.actions)

  module _ (m : F) (id : String) (rest : List String) (s : Service F V W) where
    Settles-skips :
        (why : Skip) (ids : List String) (skips : List (String × Skip)) (t : Service F V W)
        → skip_reason env claims m (get id s.actions) ≡ some why
        → Settles m rest s ids skips t
        → Settles m (id ∷ rest) s ids ((id, why) ∷ skips) t
    unfolding times
    Settles-skips why ids skips t skipped later = record {
      answers = λ j. omega (arith, later.answers j);
      fit = later.fit;
      rows = later.rows;
      reasons = λ e m'. told e m';
      audit = later.audit;
      world = later.world;
    }
      where
        told :
            (e : String × Skip)
            → In e ((id, why) ∷ skips)
            → (skip_reason env claims m (get e.0 s.actions) ≡ some e.1)
              ⊎ ((elem e.0 ids ≡ true) × (e.1 ≡ not_proposed ActionStatus.approved))
        told e (inl same) = inl (
            subst (λ d. skip_reason env claims m (get d.0 s.actions) ≡ some d.1) (sym same) skipped)
        told e (inr member) = later.reasons e member

    module _ (action : OptimizationAction F) (found : get id s.actions ≡ some action)
        (named : action.id ≡ id) where
      -- The head of the ids is not approved a second time.
      unsigned :
          (ids : List String) (skips : List (String × Skip)) (t : Service F V W) (j : String)
          → Settles m rest (after action s) ids skips t
          → (id == j) ≡ true
          → elem j ids ≡ false
      unsigned ids skips t j later same = elim (Bool-cases (elem j ids)) [
        | inr absent ↦ absent
        | inl again ↦
            let fit : IsFit m (some (signed env claims ActionStatus.approved action)) =
              subst (IsFit m)
                (get-after id s action named j
                  ∙ ap
                      (λ b.
                        if b
                        then some (signed env claims ActionStatus.approved action)
                        else get j s.actions)
                      same)
                (later.fit j again) in
            absurd (ground (arith, fit.0))
      ]

      Settles-approves :
          (ids : List String) (skips : List (String × Skip)) (t : Service F V W)
          → IsFit m (some action)
          → Settles m rest (after action s) ids skips t
          → Settles m (id ∷ rest) s (id ∷ ids) skips t
      unfolding times
      Settles-approves ids skips t is_fit later = record {
        answers = λ j. omega (arith, later.answers j);
        fit = λ j listed. elim (Bool-cases (id == j)) [
          | inl same ↦
              subst (λ k. IsFit m (get k s.actions)) (==_sound id j same)
                (subst (IsFit m) (sym found) is_fit)
          | inr apart ↦
              let there : elem j ids ≡ true = ground (arith, listed, apart) in
              subst (IsFit m)
                (get-after id s action named j
                  ∙ ap
                      (λ b.
                        if b
                        then some (signed env claims ActionStatus.approved action)
                        else get j s.actions)
                      apart)
                (later.fit j there)
        ];
        rows = λ j. elim (Bool-cases (id == j)) [
          | inl same ↦
              let here : get j s.actions ≡ some action =
                subst (λ k. get k s.actions ≡ some action) (==_sound id j same) found in
              rw
                (
                  later.rows j,
                  unsigned ids skips t j later same,
                  get-after id s action named j,
                  same,
                  here,
                )
                refl
          | inr apart ↦ rw (later.rows j, get-after id s action named j, apart) refl
        ];
        reasons = λ e member. elim (Bool-cases (id == e.0)) [
          | inl same ↦ inr (rw same refl, again e same (later.reasons e member))
          | inr apart ↦ elim (later.reasons e member) [
            | inl told ↦ inl (rw (get-after id s action named e.0, apart) at told)
            | inr (listed, why) ↦ inr (rw (apart, listed) refl, why)
          ]
        ];
        audit =
            later.audit
            ∙ append_assoc s.audit (entry (approved false) action claims ∷ []) (map approval_of ids)
            ∙ ap (λ k. s.audit ++ approval_of k ∷ map approval_of ids) named;
        world = later.world;
      }
        where
          again :
              (e : String × Skip)
              → (id == e.0) ≡ true
              → (skip_reason env claims m (get e.0 (after action s).actions) ≡ some e.1)
                ⊎ ((elem e.0 ids ≡ true) × (e.1 ≡ not_proposed ActionStatus.approved))
              → e.1 ≡ not_proposed ActionStatus.approved
          again e same (inr (listed, why)) = why
          again e same (inl told) =
              let why : some (not_proposed ActionStatus.approved) ≡ some e.1 =
                rw (get-after id s action named e.0, same, skip_reason-signed m action) at told in
              ground (arith, why)

  IsNamed-after :
      (id : String) (s : Service F V W) (action : OptimizationAction F)
      → get id s.actions ≡ some action
      → IsNamed s
      → IsNamed (after action s)
  IsNamed-after id s action found named j row there = elim (Bool-cases (id == j)) [
    | inl same ↦
        let written : some (signed env claims ActionStatus.approved action) ≡ some row =
          rw (get-after id s action (named id action found) j, same) at there in
        let keeps : row.id ≡ action.id =
          sym (ap (λ o. elim o [ none ↦ action.id | some r ↦ r.id ]) written) in
        keeps ∙ named id action found ∙ ==_sound id j same
    | inr apart ↦ named j row (rw (get-after id s action (named id action found) j, apart) at there)
  ]

  abbrev answered_with :
      List String → List (String × Skip) → Service F V W → Outcome BulkResult × Service F V W
  answered_with ids skips t = (ok (record { approved_ids = ids; skipped = skips }), t)

  settled :
      {xs ys : List String} {us vs : List (String × Skip)} {t : Service F V W}
      → xs ≡ ys
      → us ≡ vs
      → answered_with xs us t ≡ answered_with ys vs t
  settled same also = rw (same, also) refl

  -- What the loop comes to from an answer so far.
  abbrev Goes : F → BulkResult → List String → Service F V W → Type 0
  Goes m so_far asked s =
      (ids : List String) × (skips : List (String × Skip)) × (t : Service F V W) × (bulk_from env
          claims m so_far asked s
        ≡ answered_with (so_far.approved_ids ++ ids) (so_far.skipped ++ skips) t)
      × Settles m asked s ids skips t

  bulk_from-Settles :
      (m : F) (asked : List String) (so_far : BulkResult) (s : Service F V W)
      → role_has_permission claims.role Permission.action_approve ≡ true
      → IsNamed s
      → Goes m so_far asked s
  unfolding bulk_from bulk_round times
  bulk_from-Settles m [] so_far s permitted named = (
    [],
    [],
    s,
    settled (sym (append_nil so_far.approved_ids)) (sym (append_nil so_far.skipped)),
    record {
      answers = λ j. refl;
      fit = λ j listed. absurd (ground (arith, listed));
      rows = λ j. refl;
      reasons = λ e member. absurd member;
      audit = sym (append_nil s.audit);
      world = refl;
    },
  )
  bulk_from-Settles m (id ∷ rest) so_far s permitted named =
      elim (Option-cases (skip_reason env claims m (get id s.actions))) [
        | inr (why, skipped) ↦
            let (ids, skips, t, done, later) =
              bulk_from-Settles m rest
                (record so_far { skipped = so_far.skipped ++ (id, why) ∷ [] }) s permitted named in
            (
              ids,
              (id, why) ∷ skips,
              t,
              rw (skipped, bulk_round)
                  (done ∙ settled refl (append_assoc so_far.skipped ((id, why) ∷ []) skips)),
              Settles-skips m id rest s why ids skips t skipped later,
            )
        | inl passes ↦
            let (action, found, is_fit) = skip_reason-none m (get id s.actions) passes in
            let (ids, skips, t, done, later) =
              bulk_from-Settles m rest
                (record so_far { approved_ids = so_far.approved_ids ++ id ∷ [] }) (after action s)
                permitted (IsNamed-after id s action found named) in
            (
              id ∷ ids,
              skips,
              t,
              rw (passes, bulk_round, approve-proposed id s action permitted found is_fit.0)
                  (done ∙ settled (append_assoc so_far.approved_ids (id ∷ []) ids) refl),
              Settles-approves m id rest s action found (named id action found) ids skips t is_fit
                  later,
            )
      ]

  -- For a caller with the right to approve, over a store that gives the row of an id, whatever ids are
  -- asked for, repeated and unknown ids included, bulk approval raises nothing, and each id is listed as
  -- often as it was asked for, approved or skipped. Every id it lists as approved was a proposal that
  -- reached the confidence asked for and is now signed as approved by the caller; every other row is as
  -- it was; every id it lists as skipped has the reason its row gave, or was approved by the same call;
  -- the audit trail has one more approval for each approved id, in order, and the world is as it was.
  pub bulk_approve-Answers :
      (m : F) (asked : List String) (s : Service F V W)
      → role_has_permission claims.role Permission.action_approve ≡ true
      → IsNamed s
      → Answers m asked s (bulk_approve env claims m asked s)
  unfolding bulk_approve
  bulk_approve-Answers m asked s permitted named =
      let (ids, skips, t, done, settles) =
        bulk_from-Settles m asked (record { approved_ids = []; skipped = [] }) s permitted named in
      subst (Answers m asked s) (sym done) settles
