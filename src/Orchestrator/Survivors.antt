-- ===== src/Orchestrator/Survivors.antt =====
-- The proposals and the summary of orchestrator/state.py after the critic's turn.
use multi_agent_ad_optimizer.Prelude.{
  ℕ, ◌+◌, String, Bool, true, false, not, ◌||◌, Option, none, some, List, [], ◌∷◌, ◌++◌, map,
  length, keep, elem, In, string_eq, ◌==◌, otherwise, ◌≡◌, refl, ap, arith, inl, inr, Bool-cases,
  sym, subst,
}
use multi_agent_ad_optimizer.Prelude.Lists.{length-keep-le}
use multi_agent_ad_optimizer.Prelude.Dict.{Dict, total, tally, total-tally}
use multi_agent_ad_optimizer.Critic.Proposal.{
  Number, Proposal, ConflictRule, campaign_conflicts, campaign_of, creative_of, action_type,
  action_id,
}
use multi_agent_ad_optimizer.Critic.Finding.{Finding, suppressed_action_ids}
use multi_agent_ad_optimizer.Critic.Rules.{is_live}
use multi_agent_ad_optimizer.Critic.Review.{review}
use multi_agent_ad_optimizer.Critic.Marks.{marked, marked-append, review-Marks}
use multi_agent_ad_optimizer.Critic.Verdict.{review-no_campaign_Clash}
use multi_agent_ad_optimizer.Orchestrator.State.{
  AgentState, dicts, ids_from, dropped_ids, surviving_actions, tally_from, Summary, summarise_state,
  critic_update, apply_update, append_list,
}

total-tally_from :
    (counts : Dict String ℕ) (keys : List String)
    → total (tally_from counts keys) ≡ total counts + length keys
total-tally_from counts [] = omega arith
total-tally_from counts (key ∷ keys) =
    omega (arith, total-tally_from (tally key counts) keys, total-tally key counts)

length-map : {A B : Type 0} (f : A → B) (xs : List A) → length (map f xs) ≡ length xs
length-map f [] = refl
length-map f (x ∷ xs) = omega (arith, length-map f xs)

-- The figures of a run's summary agree: kept and withheld proposals add up to those proposed, the
-- counts per type to those kept, the counts per kind to the findings.
pub record Adds (summary : Summary) : Type 0 where
  pub proposals : summary.actions + summary.actions_suppressed ≡ summary.actions_proposed
  pub types : total summary.action_counts ≡ summary.actions
  pub kinds : total summary.critic_findings_by_kind ≡ summary.critic_findings

module _ {F J : Type 0} where
  -- In the summary of every state, the kept and the withheld proposals add up to those proposed, the
  -- counts per action type add up to the proposals kept, and the counts per kind to the findings.
  pub summarise_state-Adds : (s : AgentState F J) → Adds (summarise_state s)
  unfolding summarise_state surviving_actions total
  summarise_state-Adds s = record {
    proposals = omega (
      arith,
      length-keep-le (λ (a : Proposal F). not (elem (action_id a) (dropped_ids s)))
          (dicts s.optimization_actions),
    );
    types = omega (
      arith,
      total-tally_from []
          (map (λ (a : Proposal F). otherwise "unknown" a.type) (surviving_actions s)),
      length-map (λ (a : Proposal F). otherwise "unknown" a.type) (surviving_actions s),
    );
    kinds = omega (
      arith,
      total-tally_from [] (map (λ (f : Finding F). f.kind) (dicts s.critic_findings)),
      length-map (λ (f : Finding F). f.kind) (dicts s.critic_findings),
    );
  }

dicts-append : {A : Type 0} (xs ys : List (Option A)) → dicts (xs ++ ys) ≡ dicts xs ++ dicts ys
dicts-append [] ys = refl
dicts-append (none ∷ xs) ys = dicts-append xs ys
dicts-append (some x ∷ xs) ys = ap (λ zs. x ∷ zs) (dicts-append xs ys)

dicts-some : {A : Type 0} (xs : List A) → dicts (map (λ x. some x) xs) ≡ xs
dicts-some [] = refl
dicts-some (x ∷ xs) = ap (λ zs. x ∷ zs) (dicts-some xs)

ids_from-eq : {F : Type 0} (fs : List (Finding F)) → ids_from fs ≡ marked fs
ids_from-eq [] = refl
ids_from-eq (f ∷ fs) = ap (λ ids. suppressed_action_ids f ++ ids) (ids_from-eq fs)

In-of_keep :
    {A : Type 0} (p : A → Bool) (a : A) (xs : List A) → In a (keep p xs) → In a xs × (p a ≡ true)
In-of_keep p a [] m = absurd m
In-of_keep p a (x ∷ xs) m = elim (Bool-cases (p x)) [
  | inl holds ↦ elim (rw holds at m) [
    | inl same ↦ (inl same, subst (λ z. p z ≡ true) (sym same) holds)
    | inr later ↦ let rest = In-of_keep p a xs later in (inr rest.0, rest.1)
  ]
  | inr fails ↦ let rest = In-of_keep p a xs (rw fails at m) in (inr rest.0, rest.1)
]

module _ {F J : Type 0} ⦃n : Number F⦄ (message : J) (s : AgentState F J) where
  -- The state after the critic's turn.
  abbrev pub reviewed : AgentState F J
  reviewed = apply_update s (critic_update message s)

  dropped_ids-reviewed :
      (y : String)
      → elem y (dropped_ids reviewed) ≡ (
          elem y (dropped_ids s)
          || elem y (review s.iteration (dicts s.optimization_actions)).suppressed)
  unfolding apply_update critic_update dropped_ids append_list
  dropped_ids-reviewed y =
      let r = review s.iteration (dicts s.optimization_actions) in
      let all = dicts-append s.critic_findings (map (λ f. some f) r.findings) in
      rw
        (
          all,
          dicts-some r.findings,
          ids_from-eq (dicts s.critic_findings ++ r.findings),
          ids_from-eq (dicts s.critic_findings),
        )
        (ground (
          arith,
          marked-append y (dicts s.critic_findings) r.findings,
          review-Marks s.iteration (dicts s.optimization_actions) y,
        ))

  -- What survives was proposed, and this review kept it.
  pub survivor :
      (a : Proposal F)
      → In a (surviving_actions reviewed)
      → In a (dicts s.optimization_actions)
        × (is_live (review s.iteration (dicts s.optimization_actions)).suppressed a ≡ true)
  unfolding surviving_actions apply_update critic_update append_list
  survivor a m =
      let kept = In-of_keep (λ x. not (elem (action_id x) (dropped_ids reviewed))) a _ m in
      (kept.0, ground (arith, kept.1, dropped_ids-reviewed (action_id a)))

  -- After the critic's turn, whatever findings earlier turns left, no two proposals that reach the
  -- approval queue for one campaign and one creative (or for one campaign, both with no creative)
  -- are the two sides of a campaign rule.
  pub surviving_actions-agree :
      (rule : ConflictRule) (a b : Proposal F)
      → In rule campaign_conflicts
      → In a (surviving_actions reviewed)
      → In b (surviving_actions reviewed)
      → campaign_of b ≡ campaign_of a
      → creative_of b ≡ creative_of a
      → (action_type a == rule.dominant) ≡ true
      → elem (action_type b) rule.contradicted ≡ false
  surviving_actions-agree rule a b in_rules in_a in_b campaign creative dominant =
      let kept_a = survivor a in_a in
      let kept_b = survivor b in_b in
      elim (Bool-cases (elem (action_type b) rule.contradicted)) [
        | inr free ↦ free
        | inl contradicted ↦ absurd (
            review-no_campaign_Clash s.iteration (dicts s.optimization_actions) rule a b in_rules
              kept_a.0 kept_b.0 campaign creative
              (record {
                a_live = kept_a.1;
                b_live = kept_b.1;
                dominant = dominant;
                contradicted = contradicted;
              }))
      ]
