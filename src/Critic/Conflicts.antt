-- ===== src/Critic/Conflicts.antt =====
-- After the critic, no conflict rule has both of its sides in the queue for one key.
use multi_agent_ad_optimizer.Prelude.{
  ℕ, String, true, some, List, [], ◌∷◌, inl, inr, ◌≡◌, arith, elem, In, In-keep, elem-map, ◌==◌,
  string_eq, pair_eq, Bool-cases,
}
use multi_agent_ad_optimizer.Prelude.Dict.{Dict, get}
use multi_agent_ad_optimizer.Critic.Proposal.{
  Number, Proposal, action_id, action_type, ConflictRule, outranks, rank_lt,
}
use multi_agent_ad_optimizer.Critic.Sets.{max_from}
use multi_agent_ad_optimizer.Critic.Rules.{
  is_live, ids_of, settle, settle_if_both, strong_of, weak_of, resolve, resolve_rules,
  resolve_groups,
}
use multi_agent_ad_optimizer.Critic.Marks.{
  elem-add_all, Marks-keep, resolve-Marks, resolve_rules-Marks, resolve_groups-Marks,
}

module _ {F : Type 0} ⦃n : Number F⦄ where
  -- Both sides of a rule are still in the queue.
  pub record Clash (rule : ConflictRule) (ids : List String) (a b : Proposal F) : Type 0 where
    pub a_live : is_live ids a ≡ true
    pub b_live : is_live ids b ≡ true
    pub dominant : (action_type a == rule.dominant) ≡ true
    pub contradicted : elem (action_type b) rule.contradicted ≡ true

  -- A clash that is left was there before.
  pub Clash-before :
      (rule : ConflictRule) (ids ids' : List String) (a b : Proposal F)
      → ((y : String) → elem y ids ≡ true → elem y ids' ≡ true)
      → Clash rule ids' a b
      → Clash rule ids a b
  Clash-before rule ids ids' a b grows c = record {
    a_live = ground (arith, grows (action_id a), c.a_live);
    b_live = ground (arith, grows (action_id b), c.b_live);
    dominant = c.dominant;
    contradicted = c.contradicted;
  }

  settle-no_Clash :
      (i : ℕ) (rule : ConflictRule) (key : String × String) (s : Proposal F)
      (strong : List (Proposal F)) (w : Proposal F) (weak : List (Proposal F)) (ids : List String)
      (a b : Proposal F)
      → In a (s ∷ strong)
      → In b (w ∷ weak)
      → ¬ Clash rule (settle i rule key s strong w weak ids).1 a b
  unfolding settle
  settle-no_Clash i rule (c, d) s strong w weak ids a b in_a in_b clash =
      elim (Bool-cases (outranks (max_from rank_lt w weak) (max_from rank_lt s strong))) [
        | inl over ↦ ground (
          arith,
          over,
          clash.a_live,
          elem-add_all (action_id a) (ids_of (s ∷ strong)) ids,
          elem-map a action_id (s ∷ strong) in_a,
        )
        | inr kept ↦ ground (
          arith,
          kept,
          clash.b_live,
          elem-add_all (action_id b) (ids_of (w ∷ weak)) ids,
          elem-map b action_id (w ∷ weak) in_b,
        )
      ]

  resolve-no_Clash :
      (i : ℕ) (rule : ConflictRule) (key : String × String) (group : List (Proposal F))
      (ids : List String) (a b : Proposal F)
      → In a group
      → In b group
      → ¬ Clash rule (resolve i rule key group ids).1 a b
  unfolding resolve
  resolve-no_Clash i rule key group ids a b in_a in_b clash =
      let before : Clash rule ids a b =
        Clash-before rule ids (resolve i rule key group ids).1 a b
          (Marks-keep ids (resolve i rule key group ids) (resolve-Marks i rule key group ids))
          clash in
      both (strong_of rule ids group) (weak_of rule ids group)
        (In-keep a _ _ (In-keep a _ group in_a before.a_live) before.dominant)
        (In-keep b _ _ (In-keep b _ group in_b before.b_live) before.contradicted) clash
    where
      both :
          (strong weak : List (Proposal F))
          → In a strong
          → In b weak
          → ¬ Clash rule (settle_if_both i rule key strong weak ids).1 a b
      both [] weak m k c = absurd m
      both (s ∷ strong) [] m k c = absurd k
      both (s ∷ strong) (w ∷ weak) m k c = settle-no_Clash i rule key s strong w weak ids a b m k c

  resolve_rules-no_Clash :
      (i : ℕ) (rules : List ConflictRule) (rule : ConflictRule) (key : String × String)
      (group : List (Proposal F)) (ids : List String) (a b : Proposal F)
      → In rule rules
      → In a group
      → In b group
      → ¬ Clash rule (resolve_rules i rules key group ids).1 a b
  unfolding resolve_rules
  resolve_rules-no_Clash i [] rule key group ids a b m in_a in_b clash = absurd m
  resolve_rules-no_Clash i (r ∷ rules) rule key group ids a b (inl e) in_a in_b clash =
      let first = resolve i r key group ids in
      resolve-no_Clash i r key group ids a b in_a in_b (
        Clash-before r first.1 _ a b
          (Marks-keep first.1 (resolve_rules i rules key group first.1)
            (resolve_rules-Marks i rules key group first.1))
          (rw e at clash))
  resolve_rules-no_Clash i (r ∷ rules) rule key group ids a b (inr m) in_a in_b clash =
      resolve_rules-no_Clash i rules rule key group (resolve i r key group ids).1 a b m in_a in_b
        clash

  pub resolve_groups-no_Clash :
      (i : ℕ) (rules : List ConflictRule) (rule : ConflictRule)
      (groups : Dict (String × String) (List (Proposal F))) (ids : List String)
      (key : String × String) (group : List (Proposal F)) (a b : Proposal F)
      → In rule rules
      → get key groups ≡ some group
      → In a group
      → In b group
      → ¬ Clash rule (resolve_groups i rules groups ids).1 a b
  unfolding resolve_groups get
  resolve_groups-no_Clash i rules rule [] ids key group a b m found in_a in_b clash = cc
  resolve_groups-no_Clash i rules rule ((k, g) ∷ groups) ids key group a b m found in_a in_b clash =
      let first = resolve_rules i rules k g ids in
      elim (Bool-cases (k == key)) [
        | inl same ↦
            let g≡group : g ≡ group = ground (arith, same, found) in
            resolve_rules-no_Clash i rules rule k g ids a b m (rw g≡group in_a) (rw g≡group in_b) (
              Clash-before rule first.1 _ a b
                (Marks-keep first.1 (resolve_groups i rules groups first.1)
                  (resolve_groups-Marks i rules groups first.1))
                clash)
        | inr other ↦
            resolve_groups-no_Clash i rules rule groups first.1 key group a b m
              (ground (arith, other, found)) in_a in_b clash
      ]
