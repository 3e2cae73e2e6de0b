-- ===== src/Ingest/Tables.antt =====
-- The queries of repositories/campaigns.py and repositories/ingest.py that an ingestion makes. A table
-- is the list of its rows; a set is a list that only its members are read of.
use multi_agent_ad_optimizer.Prelude.{
  ℕ, String, Bool, true, false, ◌&&◌, ◌||◌, Option, none, some, List, [], ◌∷◌, ◌++◌, map, keep,
  elem, if◌then◌else◌, ◌==◌, string_eq, nat_eq, pair_eq, option_eq, otherwise,
}
use multi_agent_ad_optimizer.Prelude.Dict.{Dict, get, put}
use multi_agent_ad_optimizer.Prelude.Text.{clip}
use multi_agent_ad_optimizer.Ingest.Records.{
  pos, Builtins, Measurements, MetricSlot, CampaignRow, CreativeRow, DailyMetric, IngestBatch,
}

abbrev pub is_empty : {A : Type 0} → List A → Bool
is_empty [] = true
is_empty (_ ∷ _) = false

-- The platform and the external id of a row, where it has one.
abbrev pub coordinates : CampaignRow → List (String × String)
coordinates row = elim row.external_id [ none ↦ [] | some external ↦ (row.platform, external) ∷ [] ]

unfoldable pub matches_pairs : List (String × String) → CampaignRow → Bool
matches_pairs wanted row =
    elem row.platform (map (λ p. p.0) wanted)
    && elim row.external_id [ none ↦ false | some external ↦ elem external (map (λ p. p.1) wanted) ]

-- `found`: a later row overwrites an earlier one.
unfoldable pub note_pairs :
    List (String × String) → String → Dict (String × String) String → Dict (String × String) String
note_pairs [] id found = found
note_pairs (pair ∷ pairs) id found = note_pairs pairs id (put pair id found)

unfoldable pub found_pairs :
    List CampaignRow → Dict (String × String) String → Dict (String × String) String
found_pairs [] found = found
found_pairs (row ∷ rows) found = found_pairs rows (note_pairs (coordinates row) row.id found)

unfoldable pub pick_pairs :
    List (String × String) → Dict (String × String) String → Dict (String × String) String
pick_pairs [] found = []
pick_pairs (pair ∷ wanted) found =
    let rest = pick_pairs wanted found in
    elim (get pair found) [ none ↦ rest | some id ↦ put pair id rest ]

-- `ids_by_external`
unfoldable pub ids_by_external :
    List (String × String) → List CampaignRow → Dict (String × String) String
ids_by_external pairs campaigns =
    if is_empty pairs
    then []
    else pick_pairs pairs (found_pairs (keep (matches_pairs pairs) campaigns) [])

-- `existing_ids`
unfoldable pub existing_ids : List String → List CampaignRow → List String
existing_ids ids campaigns =
    if is_empty ids then [] else map (λ row. row.id) (keep (λ row. elem row.id ids) campaigns)

unfoldable pub owners_of : List CreativeRow → Dict String String → Dict String String
owners_of [] owners = owners
owners_of (row ∷ rows) owners = owners_of rows (put row.id row.campaign_id owners)

-- `campaign_by_id`
unfoldable pub campaign_by_id : List String → List CreativeRow → Dict String String
campaign_by_id ids creatives =
    if is_empty ids then [] else owners_of (keep (λ row. elem row.id ids) creatives) []

-- `value if value is not None else stored`, for a column that may hold nothing.
abbrev pub or_stored : {A : Type 0} → Option A → Option A → Option A
or_stored stored none = stored
or_stored stored (some a) = some a

module _ {F : Type 0} where
  abbrev pub metric_slot : DailyMetric F → MetricSlot
  metric_slot row = (row.campaign_id, (row.creative_id, row.stat_date))

  -- The rows of a slot.
  abbrev pub at_slot : MetricSlot → List (DailyMetric F) → List (DailyMetric F)
  at_slot slot rows = keep (λ row. metric_slot row == slot) rows

  -- `existing_slots`
  unfoldable pub existing_slots : List String → List ℕ → List (DailyMetric F) → List MetricSlot
  existing_slots campaign_ids dates rows =
      if is_empty campaign_ids || is_empty dates
      then []
      else map metric_slot
          (keep (λ row. elem row.campaign_id campaign_ids && elem row.stat_date dates) rows)

  -- The insert of `upsert_daily`: what is absent becomes the column's default.
  unfoldable pub fresh_row :
      Builtins F
      → String
      → MetricSlot
      → Measurements F
      → Option String
      → Option String
      → DailyMetric F
  fresh_row builtins id (campaign_id, (creative_id, stat_date)) m source batch_id = record {
    id = id;
    campaign_id = campaign_id;
    creative_id = creative_id;
    stat_date = stat_date;
    impressions = otherwise (pos 0) m.impressions;
    clicks = otherwise (pos 0) m.clicks;
    conversions = otherwise (pos 0) m.conversions;
    cost = otherwise builtins.zero m.cost;
    revenue = otherwise builtins.zero m.revenue;
    unique_reach = otherwise (pos 0) m.unique_reach;
    source = source;
    batch_id = batch_id;
  }

  -- The update of `upsert_daily`: what is absent leaves the stored value.
  unfoldable pub revised :
      Measurements F → Option String → Option String → DailyMetric F → DailyMetric F
  revised m source batch_id row = record row {
    impressions = otherwise row.impressions m.impressions;
    clicks = otherwise row.clicks m.clicks;
    conversions = otherwise row.conversions m.conversions;
    cost = otherwise row.cost m.cost;
    revenue = otherwise row.revenue m.revenue;
    unique_reach = otherwise row.unique_reach m.unique_reach;
    source = or_stored row.source source;
    batch_id = or_stored row.batch_id batch_id;
  }

  -- The flush of a revised row.
  unfoldable pub update_slot :
      MetricSlot → (DailyMetric F → DailyMetric F) → List (DailyMetric F) → List (DailyMetric F)
  update_slot slot change [] = []
  update_slot slot change (row ∷ rows) =
      (if metric_slot row == slot then change row else row) ∷ update_slot slot change rows

  -- `upsert_daily` once the slot's rows are read: `scalar_one_or_none` raises on more than one.
  unfoldable pub upsert_among :
      Builtins F
      → String
      → MetricSlot
      → Measurements F
      → Option String
      → Option String
      → List (DailyMetric F)
      → List (DailyMetric F)
      → Option (List (DailyMetric F))
  upsert_among builtins id slot m source batch_id [] rows =
      some (rows ++ fresh_row builtins id slot m source batch_id ∷ [])
  upsert_among builtins id slot m source batch_id (_ ∷ []) rows =
      some (update_slot slot (revised m source batch_id) rows)
  upsert_among builtins id slot m source batch_id (_ ∷ _ ∷ _) rows = none

  -- `upsert_daily`
  unfoldable pub upsert_daily :
      Builtins F
      → String
      → MetricSlot
      → Measurements F
      → Option String
      → Option String
      → List (DailyMetric F)
      → Option (List (DailyMetric F))
  upsert_daily builtins id slot m source batch_id rows =
      upsert_among builtins id slot m source batch_id (at_slot slot rows) rows

-- `IngestBatchRepository.record`: the new row.
unfoldable pub opened_batch :
    String → String → String → ℕ → Bool → Option ℕ → Option ℕ → IngestBatch
opened_batch id source actor received dry_run window_start window_end = record {
  id = id;
  source = source;
  actor = clip 64 actor;
  received = received;
  created = 0;
  updated = 0;
  rejected = 0;
  unresolved = 0;
  dry_run = dry_run;
  window_start = window_start;
  window_end = window_end;
}

-- The flush of a changed batch row.
unfoldable pub flush_batch : IngestBatch → List IngestBatch → List IngestBatch
flush_batch batch batches = map (λ row. if row.id == batch.id then batch else row) batches
