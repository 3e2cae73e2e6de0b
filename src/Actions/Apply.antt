-- ===== src/Actions/Apply.antt =====
-- `_apply` and its branches in services/actions.py: change the local row, then tell the network.
use multi_agent_ad_optimizer.Prelude.{
  String, Bool, true, false, not, Option, none, some, List, [], ◌∷◌, ◌++◌, keep, ◌==◌, string_eq,
  if◌then◌else◌, ◌⊎◌,
}
use mathlib.Core.Option
use multi_agent_ad_optimizer.Prelude.Dict.{put}
use multi_agent_ad_optimizer.Prelude.Text.{clip, strip, without}
use multi_agent_ad_optimizer.Domain.Enums.{
  Platform, CampaignStatus, CreativeStatus, creative_status_eq, ActionType,
}
use multi_agent_ad_optimizer.Actions.Records.{
  Amount, OptimizationAction, Campaign, Creative, ExecutionResult, call_arguments, ServiceError,
  present, action_type_of, platform_of,
}
use multi_agent_ad_optimizer.Actions.Monad.{
  AdsPlatformClient, Env, M, pure, raise, gets, modify, ◌>>=◌, ◌>>◌, answered,
}
use multi_agent_ad_optimizer.Actions.Push.{reason_of, push}

-- `_parse_float`: a number that may carry a currency symbol.
unfoldable pub parse_float : {F : Type 0} → Amount F → String → Option F
unfolding without
parse_float amount value = amount.parse (strip (without "," (without "$" (without "¥" value))))

-- The first of the rows that satisfies a test.
unfoldable pub find : {A : Type 0} → (A → Bool) → List A → Option A
find p [] = none
find p (x ∷ xs) = if p x then some x else find p xs

unfoldable pub replace_creative : Creative → List Creative → List Creative
replace_creative c [] = []
replace_creative c (x ∷ xs) = if x.id == c.id then c ∷ xs else x ∷ replace_creative c xs

unfoldable pub last : {A : Type 0} → List A → Option A
last [] = none
last (x ∷ []) = some x
last (x ∷ y ∷ xs) = last (y ∷ xs)

abbrev pub control_of : List Creative → Option Creative
control_of creatives = find (λ c. c.ab_group == "control") creatives

abbrev pub variant_of : List Creative → Option Creative
variant_of creatives = last (
    keep (λ c. not (c.ab_group == "control"))
      (keep (λ c. not (c.status == CreativeStatus.rejected)) creatives))

module _ {F V W : Type 0} (env : Env F V W) where
  abbrev save_campaign : Campaign F → M F V W Unit
  save_campaign c = modify (λ s. record s { campaigns = put c.id c s.campaigns })

  abbrev save_creative : Creative → M F V W Unit
  save_creative c = modify (λ s. record s { creatives = replace_creative c s.creatives })

  -- What the tool layer answered, or else what the client answers, or else nothing.
  abbrev or_client :
      Option ExecutionResult
      → Option (AdsPlatformClient F W)
      → (AdsPlatformClient F W → W → (String ⊎ ExecutionResult) × W)
      → M F V W (Option ExecutionResult)
  or_client (some result) client ask = pure (some result)
  or_client none none ask = pure none
  or_client none (some client) ask = λ s. answered (ask client s.world) s

  -- The value of a budget or a bid, if it can be used.
  abbrev usable : String → M F V W F
  usable text = elim (parse_float env.amount text) [
    | none ↦ raise (ServiceError.unusable_value text)
    | some value ↦
        if env.amount.not_positive value
        then raise (ServiceError.unusable_value text)
        else pure value
  ]

  abbrev budget_sync :
      OptimizationAction F
      → F
      → Option (AdsPlatformClient F W)
      → Option (Campaign F)
      → M F V W (Option ExecutionResult)
  budget_sync action rounded client none = pure none
  budget_sync action rounded client (some campaign) = do
    save_campaign (record campaign { daily_budget = rounded })
    elim (present campaign.external_id) [
      | none ↦ pure none
      | some external ↦ do
        pushed ←
            push env action "platform.set_daily_budget" "update_budget"
              (platform_of (some campaign))
              (λ p. call_arguments p external (some rounded) (reason_of action))
        or_client pushed client (λ c w. c.update_campaign_budget external rounded w)
    ]

  -- `_apply_budget`
  unfoldable pub apply_budget :
      OptimizationAction F
      → Option (Campaign F)
      → Option (AdsPlatformClient F W)
      → M F V W (Option ExecutionResult)
  apply_budget action campaign client = do
    new_budget ← usable action.after_value
    budget_sync action (env.amount.round_2 new_budget) client campaign

  -- `_apply_campaign_status`
  unfoldable pub apply_campaign_status :
      OptimizationAction F
      → Option (Campaign F)
      → Option (AdsPlatformClient F W)
      → Bool
      → M F V W (Option ExecutionResult)
  unfolding clip
  apply_campaign_status action none client pausing = pure none
  apply_campaign_status action (some campaign) client pausing = do
    save_campaign (record campaign {
      status = if pausing then CampaignStatus.paused else CampaignStatus.active;
    })
    elim (present campaign.external_id) [
      | none ↦ pure none
      | some external ↦ do
        pushed ←
            push env action
              (if pausing then "platform.pause_campaign" else "platform.resume_campaign")
              (if pausing then "pause_campaign" else "resume_campaign")
              (platform_of (some campaign)) (λ p. call_arguments p external none (reason_of action))
        or_client pushed client (λ c w.
            if pausing
            then c.pause_campaign external (clip 200 action.reason) w
            else c.resume_campaign external (clip 200 action.reason) w)
    ]

  -- The creative that an action names, or else the newest of its campaign.
  unfoldable pub creative_for : OptimizationAction F → List Creative → Option Creative
  unfolding find
  creative_for action creatives =
      let fallback = find (λ c. c.campaign_id == action.campaign_id) creatives in
      elim (present action.creative_id) [
        | none ↦ fallback
        | some id ↦ elim (find (λ c. c.id == id) creatives) [
          | none ↦ fallback
          | some creative ↦ some creative
        ]
      ]

  -- `_apply_creative_status`
  unfoldable pub apply_creative_status :
      OptimizationAction F
      → Option (AdsPlatformClient F W)
      → Option Platform
      → Bool
      → M F V W (Option ExecutionResult)
  unfolding creative_for clip replace_creative
  apply_creative_status action client platform pausing = do
    creatives ← gets (λ s. s.creatives)
    elim (creative_for action creatives) [
      | none ↦ raise ServiceError.not_found
      | some creative ↦ do
        save_creative (record creative {
          status = if pausing then CreativeStatus.paused else CreativeStatus.active;
        })
        if creative.id == "" then pure none else do
          pushed ←
              push env action
                (if pausing then "platform.pause_creative" else "platform.resume_creative")
                (if pausing then "pause_creative" else "resume_creative") platform
                (λ p. call_arguments p creative.id none (reason_of action))
          or_client pushed client (λ c w.
              if pausing
              then c.pause_creative creative.id (clip 200 action.reason) w
              else c.resume_creative creative.id (clip 200 action.reason) w)
    ]

  -- `_apply_bid`: recorded locally, never sent.
  unfoldable pub apply_bid :
      OptimizationAction F → Option (Campaign F) → M F V W (Option ExecutionResult)
  apply_bid action campaign = do
    bid ← usable action.after_value
    elim campaign [
      | none ↦ pure none
      | some c ↦ do save_campaign (record c { current_bid_cpm = env.amount.round_4 bid }); pure none
    ]

  -- `_start_experiment`
  unfoldable pub start_experiment : OptimizationAction F → M F V W (Option ExecutionResult)
  unfolding find last clip
  start_experiment action = do
    creatives ← gets (λ s. keep (λ c. c.campaign_id == action.campaign_id) s.creatives)
    modify (λ s. record s {
      experiments =
          s.experiments
          ++ record {
            campaign_id = action.campaign_id;
            hypothesis = clip 500 action.reason;
            control_creative_id = Option.map (λ c. c.id) (control_of creatives);
            variant_creative_id = Option.map (λ c. c.id) (variant_of creatives);
            created_by_run_id = action.run_id;
          }
            ∷ [];
    })
    pure none

  -- The client of the campaign's network, if the campaign was synced and the lookup succeeds.
  unfoldable pub client_of : Option (Campaign F) → Option (AdsPlatformClient F W)
  client_of none = none
  client_of (some campaign) = elim (present campaign.external_id) [
    | none ↦ none
    | some _ ↦ env.for_platform campaign.platform
  ]

  unfoldable pub apply_type :
      OptimizationAction F → Option (Campaign F) → ActionType → M F V W (Option ExecutionResult)
  unfolding client_of
  apply_type action campaign ActionType.adjust_budget =
      apply_budget action campaign (client_of campaign)
  apply_type action campaign ActionType.pause_campaign =
      apply_campaign_status action campaign (client_of campaign) true
  apply_type action campaign ActionType.resume_campaign =
      apply_campaign_status action campaign (client_of campaign) false
  apply_type action campaign ActionType.pause_creative =
      apply_creative_status action (client_of campaign) (platform_of campaign) true
  apply_type action campaign ActionType.resume_creative =
      apply_creative_status action (client_of campaign) (platform_of campaign) false
  apply_type action campaign ActionType.adjust_bid = apply_bid action campaign
  apply_type action campaign ActionType.start_ab_test = start_experiment action
  apply_type action campaign _ = pure none

  -- `_apply`
  unfoldable pub apply :
      OptimizationAction F → Option (Campaign F) → M F V W (Option ExecutionResult)
  unfolding action_type_of
  apply action campaign = elim (action_type_of action.action_type) [
    | none ↦ raise ServiceError.unknown_type
    | some type ↦ apply_type action campaign type
  ]
