-- ===== src/Actions/Frame.antt =====
-- `_apply` touches neither the action rows nor the audit trail.
use multi_agent_ad_optimizer.Prelude.{
  String, Bool, true, false, Option, none, some, ◌≡◌, refl, arith, Option-cases, inl, inr,
}
use multi_agent_ad_optimizer.Domain.Enums.{Platform, ActionType}
use multi_agent_ad_optimizer.Actions.Records.{OptimizationAction, Campaign, Wire, action_type_of}
use multi_agent_ad_optimizer.Actions.Monad.{Service, AdsPlatformClient, Env}
use multi_agent_ad_optimizer.Actions.Push.{push}
use multi_agent_ad_optimizer.Actions.Apply.{
  apply_budget, apply_campaign_status, apply_creative_status, apply_bid, start_experiment,
  apply_type, apply,
}

module _ {F V W : Type 0} where
  -- The rows and the trail are as before.
  pub record SameRows (s t : Service F V W) : Type 0 where
    pub actions : t.actions ≡ s.actions
    pub audit : t.audit ≡ s.audit

module _ {F V W : Type 0} (env : Env F V W) (action : OptimizationAction F) where
  push-SameRows :
      (tool operation : String) (platform : Option Platform) (arguments : Platform → Wire F)
      (s : Service F V W)
      → SameRows s (push env action tool operation platform arguments s).1
  unfolding push
  push-SameRows tool operation none arguments s = record { actions = refl; audit = refl }
  push-SameRows tool operation (some p) arguments s = ground arith

  apply_bid-SameRows :
      (campaign : Option (Campaign F)) (s : Service F V W)
      → SameRows s (apply_bid env action campaign s).1
  unfolding apply_bid
  apply_bid-SameRows campaign s = ground arith

  start_experiment-SameRows : (s : Service F V W) → SameRows s (start_experiment env action s).1
  unfolding start_experiment
  start_experiment-SameRows s = record { actions = refl; audit = refl }

  apply_budget-SameRows :
      (campaign : Option (Campaign F)) (client : Option (AdsPlatformClient F W)) (s : Service F V W)
      → SameRows s (apply_budget env action campaign client s).1
  unfolding apply_budget
  apply_budget-SameRows campaign client s = grind (arith, push-SameRows)

  apply_campaign_status-SameRows :
      (campaign : Option (Campaign F)) (client : Option (AdsPlatformClient F W)) (pausing : Bool)
      (s : Service F V W)
      → SameRows s (apply_campaign_status env action campaign client pausing s).1
  unfolding apply_campaign_status
  apply_campaign_status-SameRows none client pausing s = record { actions = refl; audit = refl }
  apply_campaign_status-SameRows (some c) client pausing s = grind (arith, push-SameRows)

  apply_creative_status-SameRows :
      (client : Option (AdsPlatformClient F W)) (platform : Option Platform) (pausing : Bool)
      (s : Service F V W)
      → SameRows s (apply_creative_status env action client platform pausing s).1
  unfolding apply_creative_status
  apply_creative_status-SameRows client platform pausing s = grind (arith, push-SameRows)

  apply_type-SameRows :
      (campaign : Option (Campaign F)) (type : ActionType) (s : Service F V W)
      → SameRows s (apply_type env action campaign type s).1
  unfolding apply_type
  apply_type-SameRows campaign ActionType.adjust_budget s = apply_budget-SameRows campaign _ s
  apply_type-SameRows campaign ActionType.pause_campaign s =
      apply_campaign_status-SameRows campaign _ true s
  apply_type-SameRows campaign ActionType.resume_campaign s =
      apply_campaign_status-SameRows campaign _ false s
  apply_type-SameRows campaign ActionType.pause_creative s =
      apply_creative_status-SameRows _ _ true s
  apply_type-SameRows campaign ActionType.resume_creative s =
      apply_creative_status-SameRows _ _ false s
  apply_type-SameRows campaign ActionType.adjust_bid s = apply_bid-SameRows campaign s
  apply_type-SameRows campaign ActionType.start_ab_test s = start_experiment-SameRows s
  apply_type-SameRows campaign _ s = record { actions = refl; audit = refl }

  pub apply-SameRows :
      (campaign : Option (Campaign F)) (s : Service F V W)
      → SameRows s (apply env action campaign s).1
  unfolding apply
  apply-SameRows campaign s = elim (Option-cases (action_type_of action.action_type)) [
    | inl unknown ↦ rw (unknown, apply) (record { actions = refl; audit = refl })
    | inr (type, known) ↦ rw (known, apply) (apply_type-SameRows campaign type s)
  ]
