-- ===== src/Critic/Verdict.antt =====
-- What an operator's queue looks like after the critic.
use multi_agent_ad_optimizer.Prelude.{
  ℕ, String, Bool, true, false, List, [], ◌∷◌, ◌⊎◌, inl, inr, ◌≡◌, ◌≢◌, refl, arith, elem, keep, In,
  In-keep, string_eq, pair_eq, ==_refl, if◌then◌else◌,
}
use text.Mathlib.TextEquality.{eq_iff}
use multi_agent_ad_optimizer.Critic.Proposal.{
  Number, Proposal, action_id, creative_of, campaign_of, ConflictRule, is_unexecutable,
  campaign_conflicts, creative_conflicts,
}
use multi_agent_ad_optimizer.Critic.Sets.{add, group_from}
use multi_agent_ad_optimizer.Critic.Groups.{InGroup-same, group_from-InGroup}
use multi_agent_ad_optimizer.Critic.Rules.{
  is_live, conflicts, conflict_key, takes_part, unexecutable, repeats,
}
use multi_agent_ad_optimizer.Critic.Review.{review}
use multi_agent_ad_optimizer.Critic.Marks.{
  elem-add, Marks-keep, unexecutable-Marks, repeats-Marks, conflicts-Marks,
}
use multi_agent_ad_optimizer.Critic.Conflicts.{Clash, Clash-before, resolve_groups-no_Clash}

module _ {F : Type 0} ⦃n : Number F⦄ where
  takes_part-live :
      (by_creative : Bool) (ids : List String) (a : Proposal F)
      → is_live ids a ≡ true
      → (by_creative ≡ false) ⊎ (creative_of a ≢ "")
      → takes_part by_creative ids a ≡ true
  takes_part-live by_creative ids a live named = ground (arith, eq_iff (creative_of a) "")

  -- One conflict table, per campaign or per creative.
  conflicts-no_Clash :
      (i : ℕ) (rules : List ConflictRule) (rule : ConflictRule) (by_creative : Bool)
      (actions : List (Proposal F)) (ids : List String) (a b : Proposal F)
      → In rule rules
      → In a actions
      → In b actions
      → campaign_of b ≡ campaign_of a
      → creative_of b ≡ creative_of a
      → (by_creative ≡ false) ⊎ (creative_of a ≢ "")
      → ¬ Clash rule (conflicts i rules by_creative actions ids).1 a b
  unfolding conflicts
  conflicts-no_Clash i rules rule by_creative actions ids a b in_rules in_a in_b campaign creative
        named clash =
      let before : Clash rule ids a b =
        Clash-before rule ids (conflicts i rules by_creative actions ids).1 a b
          (Marks-keep ids (conflicts i rules by_creative actions ids)
            (conflicts-Marks i rules by_creative actions ids))
          clash in
      let part = keep (takes_part by_creative ids) actions in
      let at_a = group_from-InGroup conflict_key a part [] (
        In-keep a (takes_part by_creative ids) actions in_a
          (takes_part-live by_creative ids a before.a_live named)) in
      let at_b = group_from-InGroup conflict_key b part [] (
        In-keep b (takes_part by_creative ids) actions in_b
          (takes_part-live by_creative ids b before.b_live (rw creative named))) in
      let same : conflict_key b ≡ conflict_key a = ground (arith, campaign, creative) in
      let groups = group_from conflict_key [] part in
      resolve_groups-no_Clash i rules rule groups ids (conflict_key a) at_a.group a b in_rules
        at_a.found at_a.inside
        (InGroup-same (conflict_key a) (conflict_key b) a b groups at_a same at_b) clash

  -- In the queue that the critic leaves, no two proposals for one campaign and one creative (or for
  -- one campaign, both with no creative) are the two sides of a campaign rule: a pause of the
  -- campaign against a change of its spend, a resume of it, or an experiment on it.
  pub review-no_campaign_Clash :
      (i : ℕ) (actions : List (Proposal F)) (rule : ConflictRule) (a b : Proposal F)
      → In rule campaign_conflicts
      → In a actions
      → In b actions
      → campaign_of b ≡ campaign_of a
      → creative_of b ≡ creative_of a
      → ¬ Clash rule (review i actions).suppressed a b
  unfolding review
  review-no_campaign_Clash i actions rule a b m in_a in_b campaign creative clash =
      let s2 = (repeats i actions (unexecutable i actions []).1).1 in
      let v3 = conflicts i campaign_conflicts false actions s2 in
      let v4 = conflicts i creative_conflicts true actions v3.1 in
      conflicts-no_Clash i campaign_conflicts rule false actions s2 a b m in_a in_b campaign
        creative (inl refl)
        (Clash-before rule v3.1 v4.1 a b
          (Marks-keep v3.1 v4 (conflicts-Marks i creative_conflicts true actions v3.1)) clash)

  -- In the queue that the critic leaves, no two proposals for one concrete creative are the two
  -- sides of a creative rule: a pause of it against a resume or a refresh of it.
  pub review-no_creative_Clash :
      (i : ℕ) (actions : List (Proposal F)) (rule : ConflictRule) (a b : Proposal F)
      → In rule creative_conflicts
      → In a actions
      → In b actions
      → campaign_of b ≡ campaign_of a
      → creative_of b ≡ creative_of a
      → creative_of a ≢ ""
      → ¬ Clash rule (review i actions).suppressed a b
  unfolding review
  review-no_creative_Clash i actions rule a b m in_a in_b campaign creative named clash =
      let s2 = (repeats i actions (unexecutable i actions []).1).1 in
      let v3 = conflicts i campaign_conflicts false actions s2 in
      conflicts-no_Clash i creative_conflicts rule true actions v3.1 a b m in_a in_b campaign
        creative (inr named) clash

  unexecutable-withheld :
      (i : ℕ) (actions : List (Proposal F)) (ids : List String) (a : Proposal F)
      → In a actions
      → is_unexecutable a ≡ true
      → elem (action_id a) (unexecutable i actions ids).1 ≡ true
  unfolding unexecutable
  unexecutable-withheld i [] ids a m refused = absurd m
  unexecutable-withheld i (x ∷ rest) ids a (inl e) refused =
      rw (← e, refused)
        (Marks-keep (add (action_id a) ids) (unexecutable i rest (add (action_id a) ids))
          (unexecutable-Marks i rest (add (action_id a) ids)) (action_id a)
          (ground (arith, elem-add (action_id a) (action_id a) ids, ==_refl (action_id a))))
  unexecutable-withheld i (x ∷ rest) ids a (inr m) refused =
      unexecutable-withheld i rest (if is_unexecutable x then add (action_id x) ids else ids) a m
        refused

  -- No proposal that the rehearsal found blocked stays in the queue.
  pub review-withholds_unexecutable :
      (i : ℕ) (actions : List (Proposal F)) (a : Proposal F)
      → In a actions
      → is_unexecutable a ≡ true
      → is_live (review i actions).suppressed a ≡ false
  unfolding review
  review-withholds_unexecutable i actions a m refused =
      let v1 = unexecutable i actions [] in
      let v2 = repeats i actions v1.1 in
      let v3 = conflicts i campaign_conflicts false actions v2.1 in
      let v4 = conflicts i creative_conflicts true actions v3.1 in
      let id = action_id a in
      ground (
        arith,
        Marks-keep v3.1 v4 (conflicts-Marks i creative_conflicts true actions v3.1) id (
            Marks-keep v2.1 v3 (conflicts-Marks i campaign_conflicts false actions v2.1) id (
              Marks-keep v1.1 v2 (repeats-Marks i actions v1.1) id
                (unexecutable-withheld i actions [] a m refused))),
      )
