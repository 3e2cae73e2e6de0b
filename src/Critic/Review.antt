-- ===== src/Critic/Review.antt =====
-- `CriticAgent.run` of agents/critic.py: the passes in order, and the summary.
use multi_agent_ad_optimizer.Prelude.{
  ℕ, ◌+◌, ◌-◌, String, true, false, List, [], ◌∷◌, ◌++◌, length, string_eq,
}
use multi_agent_ad_optimizer.Prelude.Dict.{Dict, get_or, put}
use multi_agent_ad_optimizer.Critic.Proposal.{
  Number, Proposal, campaign_conflicts, creative_conflicts,
}
use multi_agent_ad_optimizer.Critic.Finding.{Finding}
use multi_agent_ad_optimizer.Critic.Rules.{unexecutable, repeats, conflicts, spend_direction}

pub record Review (F : Type 0) : Type 0 where
  pub findings : List (Finding F)
  pub suppressed : List String
  pub proposals : ℕ
  pub surviving : ℕ
  pub by_kind : Dict String ℕ

module _ {F : Type 0} where
  -- `_by_kind`
  unfoldable pub by_kind_from : Dict String ℕ → List (Finding F) → Dict String ℕ
  by_kind_from counts [] = counts
  by_kind_from counts (f ∷ findings) =
      by_kind_from (put f.kind (get_or f.kind 0 counts + length f.suppressed) counts) findings

module _ {F : Type 0} ⦃n : Number F⦄ where
  -- `run`. With no proposal every pass is empty, as in the program's early return.
  unfoldable pub review : ℕ → List (Proposal F) → Review F
  review iteration actions =
      let (refused, s1) = unexecutable iteration actions [] in
      let (repeated, s2) = repeats iteration actions s1 in
      let (by_campaign, s3) = conflicts iteration campaign_conflicts false actions s2 in
      let (by_creative, s4) = conflicts iteration creative_conflicts true actions s3 in
      let escalated = spend_direction iteration actions s4 in
      let findings = refused ++ (repeated ++ (by_campaign ++ (by_creative ++ escalated))) in
      record {
        findings = findings;
        suppressed = s4;
        proposals = length actions;
        surviving = length actions - length s4;
        by_kind = by_kind_from [] findings;
      }
