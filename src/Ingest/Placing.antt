-- ===== src/Ingest/Placing.antt =====
-- `IngestService._attribute` and `_reject_duplicate_slots` of services/ingest.py. A list that the code
-- appends to is handed back with what was appended.
use multi_agent_ad_optimizer.Prelude.{
  ℕ, String, not, Option, none, some, List, [], ◌∷◌, ◌++◌, ◌⊎◌, inl, inr, map, keep, length,
  if◌then◌else◌, ltb, ◌==◌, string_eq, nat_eq, pair_eq, option_eq, otherwise,
}
use multi_agent_ad_optimizer.Prelude.Dict.{Dict, get, put, get_or}
use multi_agent_ad_optimizer.Prelude.Text.{concat, join}
use multi_agent_ad_optimizer.Ingest.Records.{
  MetricRecordIn, IngestIssue, MetricSlot, CampaignRow, CreativeRow,
}
use multi_agent_ad_optimizer.Ingest.Tables.{ids_by_external, existing_ids, campaign_by_id, is_empty}
use multi_agent_ad_optimizer.Ingest.Attribution.{filled, pair_of, issue, resolve_campaign}

-- `_Attributed`
pub record Attributed (F : Type 0) : Type 0 where
  pub index : ℕ
  pub row : MetricRecordIn F
  pub campaign_id : String
  pub creative_id : Option String

-- The present texts of a list.
unfoldable pub those_present : {A : Type 0} → List (Option A) → List A
those_present [] = []
those_present (none ∷ rest) = those_present rest
those_present (some a ∷ rest) = a ∷ those_present rest

-- What `_attribute` looks up once for the whole batch.
pub record Lookups : Type 0 where
  pub external_map : Dict (String × String) String
  pub known_campaigns : List String
  pub creative_owners : Dict String String

-- The creative of a record whose campaign is resolved, or the reason against it.
unfoldable pub owned_by : Dict String String → String → Option String → String ⊎ Option String
owned_by owners campaign_id none = inr none
owned_by owners campaign_id (some creative_id) = elim (get creative_id owners) [
  | none ↦ inl (concat ("no creative has id " ∷ creative_id ∷ []))
  | some owner ↦
      if owner == campaign_id
      then inr (some creative_id)
      else inl (
          concat (
            "creative " ∷ creative_id ∷ " belongs to campaign " ∷ owner ∷ ", not " ∷ campaign_id
            ∷ []))
]

abbrev pub collision_reason : (ℕ → String) → List ℕ → ℕ → String
collision_reason str indexes index = concat (
    "this batch asserts the same campaign/creative/day as record "
    ∷ join ", " (
        map (λ other. concat ("#" ∷ str other ∷ [])) (keep (λ other. not (other == index)) indexes))
    ∷ "; refusing to guess which is right"
    ∷ [])

module _ {F : Type 0} where
  -- `_Attributed.slot`
  abbrev pub slot : Attributed F → MetricSlot
  slot item = (item.campaign_id, (item.creative_id, item.row.stat_date))

  unfoldable pub lookups :
      List CampaignRow → List CreativeRow → List (ℕ × MetricRecordIn F) → Lookups
  lookups campaigns creatives validated = record {
    external_map = ids_by_external (those_present (map (λ v. pair_of v.1) validated)) campaigns;
    known_campaigns =
        existing_ids (those_present (map (λ v. filled v.1.campaign_id) validated)) campaigns;
    creative_owners =
        campaign_by_id (those_present (map (λ v. filled v.1.creative_id) validated)) creatives;
  }

  abbrev pub placed :
      ℕ → MetricRecordIn F → String → String ⊎ Option String → IngestIssue ⊎ Attributed F
  placed index r campaign_id (inl problem) = inl (issue index r problem)
  placed index r campaign_id (inr creative_id) =
      inr (record { index = index; row = r; campaign_id = campaign_id; creative_id = creative_id })

  -- A round of `_attribute` once the campaign is resolved.
  unfoldable pub place_with :
      Lookups → ℕ → MetricRecordIn F → Option String × Option String → IngestIssue ⊎ Attributed F
  place_with found index r (none, problem) =
      inl (issue index r (otherwise "no campaign could be resolved" problem))
  place_with found index r (some campaign_id, some problem) = inl (issue index r problem)
  place_with found index r (some campaign_id, none) =
      placed index r campaign_id (owned_by found.creative_owners campaign_id r.creative_id)

  abbrev pub place : Lookups → ℕ × MetricRecordIn F → IngestIssue ⊎ Attributed F
  place found (index, r) =
      place_with found index r (resolve_campaign found.known_campaigns found.external_map r)

  -- The loop of `_attribute`: the unresolved records and the attributed ones.
  unfoldable pub place_each :
      Lookups → List (ℕ × MetricRecordIn F) → List IngestIssue × List (Attributed F)
  place_each found [] = ([], [])
  place_each found (v ∷ rest) =
      let (unresolved, attributed) = place_each found rest in
      elim (place found v) [
        | inl i ↦ (i ∷ unresolved, attributed)
        | inr item ↦ (unresolved, item ∷ attributed)
      ]

  -- `_attribute`
  unfoldable pub attribute :
      List CampaignRow
      → List CreativeRow
      → List (ℕ × MetricRecordIn F)
      → List IngestIssue × List (Attributed F)
  attribute campaigns creatives validated =
      if is_empty validated
      then ([], [])
      else place_each (lookups campaigns creatives validated) validated

  -- `by_slot`
  unfoldable pub group_slots :
      List (Attributed F) → Dict MetricSlot (List ℕ) → Dict MetricSlot (List ℕ)
  group_slots [] by_slot = by_slot
  group_slots (item ∷ rest) by_slot =
      group_slots rest (put (slot item) (get_or (slot item) [] by_slot ++ item.index ∷ []) by_slot)

  unfoldable pub collisions : List (Attributed F) → Dict MetricSlot (List ℕ)
  collisions attributed = keep (λ entry. ltb 1 (length entry.1)) (group_slots attributed [])

  -- The loop of `_reject_duplicate_slots`: the rejected records and those that are kept.
  unfoldable pub split_slots :
      (ℕ → String)
      → Dict MetricSlot (List ℕ)
      → List (Attributed F)
      → List IngestIssue × List (Attributed F)
  split_slots str clashing [] = ([], [])
  split_slots str clashing (item ∷ rest) =
      let (rejected, kept) = split_slots str clashing rest in
      elim (get (slot item) clashing) [
        | none ↦ (rejected, item ∷ kept)
        | some indexes ↦
            (issue item.index item.row (collision_reason str indexes item.index) ∷ rejected, kept)
      ]

  -- `_reject_duplicate_slots`
  unfoldable pub reject_duplicate_slots :
      (ℕ → String) → List (Attributed F) → List IngestIssue × List (Attributed F)
  reject_duplicate_slots str attributed =
      if is_empty (collisions attributed)
      then ([], attributed)
      else split_slots str (collisions attributed) attributed
