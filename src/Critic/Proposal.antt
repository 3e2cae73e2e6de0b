-- ===== src/Critic/Proposal.antt =====
-- The proposals of agents/critic.py and how the critic ranks them. A proposal is a dictionary in
-- the program. A field here is `none` where the key is absent, holds a null, or holds what the
-- reader of that key does not accept.
-- A campaign that is null is the text "None", as `str` makes it.
use multi_agent_ad_optimizer.Prelude.{
  ℕ, String, Bool, false, ◌&&◌, Option, none, some, List, [], ◌∷◌, ltb, if◌then◌else◌, ◌==◌,
  string_eq, nat_eq, otherwise,
}
use mathlib.Core.Bool.{xor}
use multi_agent_ad_optimizer.Domain.Enums.{ActionType, action_type_value}

-- Python's `float`, as far as the critic uses it.
pub record Number (F : Type 0) : Type 0 where
  pub zero : F
  pub one : F
  pub add : F → F → F
  pub lt : F → F → Bool
  pub le : F → F → Bool
  pub critical_gap : F
  pub dominance_margin : F

pub record Preflight : Type 0 where
  pub tool : Option String
  pub outcome : Option String
  pub error : Option String
  pub blocking : Bool

pub record Proposal (F : Type 0) : Type 0 where
  pub id : Option String
  pub type : Option String
  pub campaign : Option String
  pub creative : Option String
  pub confidence : Option F
  pub iteration : Option ℕ
  pub direction : Option String
  pub reference : Option String
  pub severity : Option String
  pub urgency : Option F
  pub reason : Option String
  pub preflight : Option Preflight

-- `str(x or "")`
abbrev pub or_empty : Option String → String
or_empty none = ""
or_empty (some s) = s

module _ {F : Type 0} where
  -- `_action_id`, `_action_type`, `_direction`, `_reference`, `_iteration_of`
  abbrev pub action_id : Proposal F → String
  action_id a = or_empty a.id

  abbrev pub action_type : Proposal F → String
  action_type a = or_empty a.type

  abbrev pub direction : Proposal F → String
  direction a = or_empty a.direction

  abbrev pub reference : Proposal F → String
  reference a = or_empty a.reference

  abbrev pub iteration_of : Proposal F → ℕ
  iteration_of a = otherwise 0 a.iteration

  abbrev pub campaign_of : Proposal F → String
  campaign_of a = or_empty a.campaign

  abbrev pub creative_of : Proposal F → String
  creative_of a = or_empty a.creative

  -- `_severity_rank`
  unfoldable pub severity_rank : Proposal F → ℕ
  severity_rank a = if or_empty a.severity == "critical" then 1 else 0

  -- `_is_unexecutable`
  unfoldable pub is_unexecutable : Proposal F → Bool
  is_unexecutable a = elim a.preflight [ none ↦ false | some p ↦ p.blocking ]

module _ {F : Type 0} ⦃n : Number F⦄ where
  -- `_confidence`
  abbrev pub confidence : Proposal F → F
  confidence a = otherwise n.zero a.confidence

  -- `_rank(a) < _rank(b)`: severity first, confidence as the tie-break.
  unfoldable pub rank_lt : Proposal F → Proposal F → Bool
  rank_lt a b =
      if severity_rank a == severity_rank b
      then n.lt (confidence a) (confidence b)
      else ltb (severity_rank a) (severity_rank b)

  -- `_urgency`
  unfoldable pub urgency : Proposal F → F
  urgency a = elim a.urgency [ some u ↦ u | none ↦ if severity_rank a == 1 then n.one else n.zero ]

  -- `_dominates`
  unfoldable pub dominates : Proposal F → Bool
  dominates a = severity_rank a == 1 && n.le (n.add n.critical_gap n.dominance_margin) (urgency a)

  -- `_outranks`
  unfoldable pub outranks : Proposal F → Proposal F → Bool
  outranks challenger keeper =
      if xor (dominates challenger) (dominates keeper)
      then dominates challenger
      else n.lt (confidence keeper) (confidence challenger)

-- `SPEND_ACTIONS`
abbrev pub spend_actions : List String
spend_actions =
    action_type_value ActionType.adjust_budget ∷ action_type_value ActionType.adjust_bid ∷ []

pub record ConflictRule : Type 0 where
  pub dominant : String
  pub contradicted : List String
  pub kind : String

-- `CAMPAIGN_CONFLICTS`
abbrev pub campaign_conflicts : List ConflictRule
campaign_conflicts =
    record {
      dominant = action_type_value ActionType.pause_campaign;
      contradicted = spend_actions;
      kind = "pause_overrides_spend";
    }
    ∷ record {
      dominant = action_type_value ActionType.pause_campaign;
      contradicted = action_type_value ActionType.resume_campaign ∷ [];
      kind = "campaign_pause_resume_conflict";
    }
    ∷ record {
      dominant = action_type_value ActionType.pause_campaign;
      contradicted = action_type_value ActionType.start_ab_test ∷ [];
      kind = "experiment_on_paused_campaign";
    }
    ∷ []

-- `CREATIVE_CONFLICTS`
abbrev pub creative_conflicts : List ConflictRule
creative_conflicts =
    record {
      dominant = action_type_value ActionType.pause_creative;
      contradicted = action_type_value ActionType.resume_creative ∷ [];
      kind = "creative_pause_resume_conflict";
    }
    ∷ record {
      dominant = action_type_value ActionType.pause_creative;
      contradicted = action_type_value ActionType.refresh_creative ∷ [];
      kind = "pause_overrides_refresh";
    }
    ∷ []
