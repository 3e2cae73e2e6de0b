-- ===== src/Critic/Finding.antt =====
-- The verdicts of agents/critic.py. A reason keeps the parts that the program renders as text.
use multi_agent_ad_optimizer.Prelude.{ℕ, String, Bool, Option, List, map}
use multi_agent_ad_optimizer.Critic.Proposal.{
  Number, Preflight, Proposal, or_empty, action_id, action_type, confidence, direction,
  iteration_of, severity_rank,
}

-- The part of a withheld proposal that an operator needs in order to overrule.
pub record Brief (F : Type 0) : Type 0 where
  pub id : String
  pub type : String
  pub confidence : F
  pub severity : String
  pub direction : String
  pub iteration : ℕ
  pub preflight : Option Preflight

pub record Standing (F : Type 0) : Type 0 where
  pub type : String
  pub severity : ℕ
  pub confidence : F

pub data Reason (F : Type 0) : Type 0 where
  refused_in_rehearsal : (type campaign creative : String) (verdict : Option Preflight) → Reason F
  proposed_times : (type : String) (times : ℕ) (campaign creative : String) (kept : F) → Reason F
  outweighs :
      (winner loser : Standing F) (campaign creative : String) (withheld : List String) → Reason F
  supersedes :
      (winner : Standing F) (withheld : List String) (campaign creative : String) → Reason F
  opposing : (campaign : String) (rises cuts frames : List String) → Reason F

pub record Finding (F : Type 0) : Type 0 where
  pub kind : String
  pub scope : String
  pub campaign : String
  pub creative : String
  pub kept_id : String
  pub kept_type : String
  pub kept_confidence : F
  pub suppressed : List (Brief F)
  pub reason : Reason F
  pub iteration : ℕ
  pub escalate : Bool

module _ {F : Type 0} where
  -- `Finding.suppressed_action_ids`
  abbrev pub suppressed_action_ids : Finding F → List String
  suppressed_action_ids f = map (λ b. b.id) f.suppressed

module _ {F : Type 0} ⦃n : Number F⦄ where
  -- `_brief`
  abbrev pub brief : Proposal F → Brief F
  brief a = record {
    id = action_id a;
    type = action_type a;
    confidence = confidence a;
    severity = or_empty a.severity;
    direction = direction a;
    iteration = iteration_of a;
    preflight = a.preflight;
  }

  -- `_standing`
  abbrev pub standing : Proposal F → Standing F
  standing a = record {
    type = action_type a;
    severity = severity_rank a;
    confidence = confidence a;
  }
