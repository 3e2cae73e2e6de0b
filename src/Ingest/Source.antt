-- ===== src/Ingest/Source.antt =====
-- `IngestService.targets` and `pull` of services/ingest.py with `syncable` of repositories/campaigns.py
-- and the registry of infra/ingest/registry.py, and the ingest that the scheduler calls
-- (`IngestScheduler._pull` of services/scheduling.py). What a feed answers to a fetch is a parameter.
use multi_agent_ad_optimizer.Prelude.{
  ℕ, String, Bool, Option, none, some, List, [], ◌∷◌, ◌++◌, ◌⊎◌, inl, inr, map, keep, take,
  otherwise, if◌then◌else◌, ◌==◌, string_eq,
}
use multi_agent_ad_optimizer.Prelude.Dict.{Dict, get, put}
use multi_agent_ad_optimizer.Prelude.Text.{strip, concat, join}
use multi_agent_ad_optimizer.Domain.Enums.{Platform}
use multi_agent_ad_optimizer.Scheduling.Tick.{IngestReport, Ingest}
use multi_agent_ad_optimizer.Ingest.Records.{
  Builtins, SourceRecord, MetricRecordIn, CampaignRow, blank_is_absent, is_filled,
}
use multi_agent_ad_optimizer.Ingest.Attribution.{precedes, sorted_set}
use multi_agent_ad_optimizer.Ingest.Batch.{ingest}
use multi_agent_ad_optimizer.Ingest.Books.{Books, IngestReportOut, IngestError}

pub record SourceTarget : Type 0 where
  pub platform : Platform
  pub external_id : String
  pub campaign_id : Option String

-- A feed: its name, and what it answers for a window and a list of targets.
pub record MetricSource (F : Type 0) : Type 0 where
  pub name : String
  pub fetch : ℕ → ℕ → List SourceTarget → String ⊎ List (SourceRecord F)

-- `Platform(value)`, for a value that is one of the platforms'.
unfoldable pub known_platform : String → Option Platform
known_platform value =
    if value == "google"
    then some Platform.google
    else if value == "meta"
    then some Platform.meta
    else if value == "tiktok"
    then some Platform.tiktok
    else if value == "mock"
    then some Platform.mock
    else none

-- `ORDER BY name`
unfoldable pub insert_named : CampaignRow → List CampaignRow → List CampaignRow
insert_named row [] = row ∷ []
insert_named row (other ∷ rest) =
    let later = other ∷ insert_named row rest in
    if precedes other.name row.name then later else row ∷ other ∷ rest

unfoldable pub sort_named : List CampaignRow → List CampaignRow
sort_named [] = []
sort_named (row ∷ rest) = insert_named row (sort_named rest)

-- `syncable`
unfoldable pub syncable : ℕ → List CampaignRow → List CampaignRow
syncable limit campaigns =
    take limit (sort_named (keep (λ row. is_filled row.external_id) campaigns))

-- A round of `targets`.
unfoldable pub target_of : CampaignRow → List SourceTarget
target_of row =
    let external_id = strip (otherwise "" row.external_id) in
    if external_id == "" then [] else elim (known_platform row.platform) [
      | none ↦ []
      | some platform ↦
          record { platform = platform; external_id = external_id; campaign_id = some row.id } ∷ []
    ]

unfoldable pub targets_of : List CampaignRow → List SourceTarget
targets_of [] = []
targets_of (row ∷ rest) = target_of row ++ targets_of rest

-- `targets`
unfoldable pub targets : ℕ → List CampaignRow → List SourceTarget
targets limit campaigns = targets_of (syncable limit campaigns)

-- `", ".join(names) or "none"`
abbrev pub names_or_none : List String → String
names_or_none [] = "none"
names_or_none (name ∷ rest) = join ", " (name ∷ rest)

module _ {F : Type 0} where
  -- `to_metric_input`, with the validators of the contract.
  unfoldable pub to_metric_input : SourceRecord F → MetricRecordIn F
  to_metric_input r = record {
    platform = r.platform;
    external_id = blank_is_absent r.external_id;
    campaign_id = blank_is_absent r.campaign_id;
    creative_id = blank_is_absent r.creative_id;
    stat_date = r.stat_date;
    measured = r.measured;
  }

  -- `MetricSourceRegistry(sources)`, which refuses a name that is there twice.
  unfoldable pub register_sources :
      List (MetricSource F) → Dict String (MetricSource F) → Option (Dict String (MetricSource F))
  register_sources [] sources = some sources
  register_sources (source ∷ rest) sources =
      let more = register_sources rest (put source.name source sources) in
      elim (get source.name sources) [ none ↦ more | some _ ↦ none ]

  -- `MetricSourceRegistry.get`
  unfoldable pub source_named : String → Dict String (MetricSource F) → String ⊎ MetricSource F
  source_named name sources = elim (get name sources) [
    | none ↦ inl (
        concat (
          "Unknown metric source: "
          ∷ name
          ∷ ". Available: "
          ∷ names_or_none (sorted_set (map (λ entry. entry.0) sources))
          ∷ []))
    | some source ↦ inr source
  ]

  abbrev pub fetched :
      ℕ → ℕ → List SourceTarget → String ⊎ MetricSource F → String ⊎ List (SourceRecord F)
  fetched start end asked (inl error) = inl error
  fetched start end asked (inr source) = source.fetch start end asked

-- `str_exc` is `str(exc)` of what `ingest` raises.
module _ {F : Type 0} (builtins : Builtins F) (sources : Dict String (MetricSource F))
    (str_exc : IngestError → String) where
  abbrev pub told : IngestError ⊎ (IngestReportOut × Books F) → String ⊎ (IngestReportOut × Books F)
  told (inl error) = inl (str_exc error)
  told (inr answer) = inr answer

  -- `pull` once the records are fetched.
  unfoldable pub take_in :
      String
      → Bool
      → String
      → ℕ
      → Books F
      → String ⊎ List (SourceRecord F)
      → String ⊎ (IngestReportOut × Books F)
  take_in name dry_run actor today books (inl error) = inl error
  take_in name dry_run actor today books (inr records) = told (
      ingest builtins
        (record {
          records = map to_metric_input records;
          source = name;
          dry_run = dry_run;
          actor = actor;
          today = today;
        })
        books)

  -- `pull`
  unfoldable pub pull_feed :
      String → ℕ → ℕ → Bool → String → ℕ → Books F → String ⊎ (IngestReportOut × Books F)
  pull_feed name start end dry_run actor today books =
      take_in name dry_run actor today books
        (fetched start end (targets 500 books.campaigns) (source_named name sources))

  -- The model of `ingest` keeps no books where it raises; a unit of work drops them anyway.
  abbrev pub for_scheduler :
      Books F → String ⊎ (IngestReportOut × Books F) → (String ⊎ IngestReport) × Books F
  for_scheduler before (inl error) = (inl error, before)
  for_scheduler before (inr (report, books)) =
      (inr (record { batch_id = some report.batch_id; received = report.received }), books)

  -- The ingest of `IngestScheduler._pull`, on a day.
  unfoldable pub scheduled : String → ℕ → Ingest (Books F)
  scheduled holder today source start end rehearsal books =
      for_scheduler books
        (pull_feed source start end rehearsal (concat ("scheduler:" ∷ holder ∷ [])) today books)
