-- ===== src/Ingest/Books.antt =====
-- What `IngestService.ingest` of services/ingest.py reads, writes and answers.
use multi_agent_ad_optimizer.Prelude.{
  ℕ, String, Bool, Option, List, string_eq, nat_eq, pair_eq, option_eq,
}
use multi_agent_ad_optimizer.Ingest.Records.{
  MetricRecordIn, IngestIssue, IngestBatch, CampaignRow, CreativeRow, DailyMetric,
}
use multi_agent_ad_optimizer.Ingest.Placing.{Attributed}

-- `MAX_ISSUES_REPORTED`
abbrev pub max_issues_reported : ℕ
max_issues_reported = 200

pub record IngestReportOut : Type 0 where
  pub batch_id : String
  pub source : String
  pub dry_run : Bool
  pub received : ℕ
  pub created : ℕ
  pub updated : ℕ
  pub rejected_count : ℕ
  pub unresolved_count : ℕ
  pub rejected : List IngestIssue
  pub unresolved : List IngestIssue
  pub issues_truncated : Bool
  pub window_start : Option ℕ
  pub window_end : Option ℕ

-- The audit entry `metrics.ingested`: its resource and its counts.
pub record IngestEntry : Type 0 where
  pub resource_id : String
  pub source : String
  pub actor : String
  pub dry_run : Bool
  pub received : ℕ
  pub created : ℕ
  pub updated : ℕ
  pub rejected : ℕ
  pub unresolved : ℕ
  pub window_start : Option ℕ
  pub window_end : Option ℕ

-- The tables, the audit trail, and the supply of ids, which moves on with every row that may need one.
pub record Books (F : Type 0) : Type 0 where
  pub campaigns : List CampaignRow
  pub creatives : List CreativeRow
  pub metrics : List (DailyMetric F)
  pub batches : List IngestBatch
  pub trail : List IngestEntry
  pub drawn : ℕ

-- `MultipleResultsFound` of a slot's query, and the `AssertionError` of `reconciles`.
pub data IngestError : Type 0 where
  multiple_results does_not_reconcile : IngestError

pub record Request (F : Type 0) : Type 0 where
  pub records : List (MetricRecordIn F)
  pub source : String
  pub dry_run : Bool
  pub actor : String
  pub today : ℕ

-- What the screening and the attribution made of a batch.
pub record Sorted (F : Type 0) : Type 0 where
  pub rejected : List IngestIssue
  pub unresolved : List IngestIssue
  pub attributed : List (Attributed F)

-- The counters of the loop, with the table and the number of ids drawn.
pub record Progress (F : Type 0) : Type 0 where
  pub created : ℕ
  pub updated : ℕ
  pub metrics : List (DailyMetric F)
  pub drawn : ℕ
