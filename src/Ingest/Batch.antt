-- ===== src/Ingest/Batch.antt =====
-- `IngestService.ingest` of services/ingest.py. Logs and the counters of
-- Prometheus are left out. The service works in the transaction of its caller: where it raises, the
-- caller rolls back and nothing stays, so an exception comes without books.
use multi_agent_ad_optimizer.Prelude.{
  ℕ, ◌+◌, min, max, String, Bool, not, ◌||◌, Option, none, some, List, [], ◌∷◌, ◌++◌, ◌⊎◌, inl, inr,
  map, elem, take, length, if◌then◌else◌, ltb, leb, ◌==◌, string_eq, nat_eq, pair_eq, option_eq,
}
use multi_agent_ad_optimizer.Ingest.Records.{
  Builtins, IngestIssue, IngestBatch, MetricSlot, DailyMetric,
}
use multi_agent_ad_optimizer.Ingest.Tables.{upsert_daily, existing_slots, opened_batch, flush_batch}
use multi_agent_ad_optimizer.Ingest.Attribution.{screen}
use multi_agent_ad_optimizer.Ingest.Placing.{Attributed, slot, attribute, reject_duplicate_slots}
use multi_agent_ad_optimizer.Ingest.Books.{
  Books, IngestEntry, IngestError, IngestReportOut, Progress, Request, Sorted, does_not_reconcile,
  max_issues_reported, multiple_results,
}

-- `dates[0]` and `dates[-1]` of the sorted dates.
unfoldable pub earliest : List ℕ → Option ℕ
earliest [] = none
earliest (d ∷ rest) = some (elim (earliest rest) [ none ↦ d | some e ↦ min d e ])

unfoldable pub latest : List ℕ → Option ℕ
latest [] = none
latest (d ∷ rest) = some (elim (latest rest) [ none ↦ d | some e ↦ max d e ])

-- `sorted(issues, key=index)`, which keeps the order of equal keys.
unfoldable pub insert_issue : IngestIssue → List IngestIssue → List IngestIssue
insert_issue i [] = i ∷ []
insert_issue i (j ∷ rest) =
    let later = insert_issue i rest in if leb i.index j.index then i ∷ j ∷ rest else j ∷ later

unfoldable pub sort_issues : List IngestIssue → List IngestIssue
sort_issues [] = []
sort_issues (i ∷ rest) = insert_issue i (sort_issues rest)

-- `_cap`
unfoldable pub cap : List IngestIssue → List IngestIssue
cap issues = take max_issues_reported (sort_issues issues)

-- `reconciles`
unfoldable pub reconciles : IngestReportOut → Bool
reconciles report =
    report.received
    == report.created + report.updated + report.rejected_count + report.unresolved_count

module _ {F : Type 0} where
  -- `created += 1` or `updated += 1`.
  abbrev pub count_record : Bool → List (DailyMetric F) → Progress F → Progress F
  count_record is_new metrics p = record {
    created = if is_new then p.created + 1 else p.created;
    updated = if is_new then p.updated else p.updated + 1;
    metrics = metrics;
    drawn = p.drawn + 1;
  }

  abbrev pub report_of : Request F → IngestBatch → Sorted F → IngestReportOut
  report_of request batch sorted = record {
    batch_id = batch.id;
    source = request.source;
    dry_run = request.dry_run;
    received = batch.received;
    created = batch.created;
    updated = batch.updated;
    rejected_count = length sorted.rejected;
    unresolved_count = length sorted.unresolved;
    rejected = cap sorted.rejected;
    unresolved = cap sorted.unresolved;
    issues_truncated =
        ltb max_issues_reported (length sorted.rejected)
        || ltb max_issues_reported (length sorted.unresolved);
    window_start = batch.window_start;
    window_end = batch.window_end;
  }

  abbrev pub entry_of : Request F → IngestBatch → IngestEntry
  entry_of request batch = record {
    resource_id = batch.id;
    source = request.source;
    actor = request.actor;
    dry_run = request.dry_run;
    received = batch.received;
    created = batch.created;
    updated = batch.updated;
    rejected = batch.rejected;
    unresolved = batch.unresolved;
    window_start = batch.window_start;
    window_end = batch.window_end;
  }

  -- `known`
  abbrev pub known_slots : Sorted F → Books F → List MetricSlot
  known_slots sorted books =
      existing_slots (map (λ item. item.campaign_id) sorted.attributed)
        (map (λ item. item.row.stat_date) sorted.attributed) books.metrics

  -- `ingest` after its loop.
  unfoldable pub close :
      Request F
      → Sorted F
      → IngestBatch
      → Books F
      → Option (Progress F)
      → IngestError ⊎ (IngestReportOut × Books F)
  close request sorted opened books none = inl multiple_results
  close request sorted opened books (some p) =
      let batch = record opened {
        created = p.created;
        updated = p.updated;
        rejected = length sorted.rejected;
        unresolved = length sorted.unresolved;
      } in
      let report = report_of request batch sorted in
      if reconciles report
      then inr (
        report,
        record books {
          metrics = p.metrics;
          batches = flush_batch batch books.batches;
          trail = books.trail ++ entry_of request batch ∷ [];
          drawn = p.drawn;
        },
      )
      else inl does_not_reconcile

module _ {F : Type 0} (builtins : Builtins F) where
  -- `ingest` up to `_reject_duplicate_slots`.
  unfoldable pub sort_out : Request F → Books F → Sorted F
  sort_out request books =
      let (malformed, validated) = screen builtins request.today 0 request.records in
      let (unresolved, attributed) = attribute books.campaigns books.creatives validated in
      let (repeated, kept) = reject_duplicate_slots builtins.str attributed in
      record { rejected = malformed ++ repeated; unresolved = unresolved; attributed = kept }

  -- `upsert_daily`, unless it is a rehearsal.
  unfoldable pub write :
      Bool → String → String → Attributed F → Progress F → Option (List (DailyMetric F))
  write dry_run source batch_id item p =
      if dry_run
      then some p.metrics
      else upsert_daily builtins (builtins.new_id "met" p.drawn) (slot item) item.row.measured
          (some source) (some batch_id) p.metrics

  -- The loop of `ingest` over the attributed records.
  unfoldable pub write_each :
      Bool
      → String
      → String
      → List MetricSlot
      → List (Attributed F)
      → Progress F
      → Option (Progress F)
  write_each dry_run source batch_id known [] p = some p
  write_each dry_run source batch_id known (item ∷ rest) p =
      elim (write dry_run source batch_id item p) [
        | none ↦ none
        | some metrics ↦
            write_each dry_run source batch_id known rest
              (count_record (not (elem (slot item) known)) metrics p)
      ]

  abbrev pub batch_of : Request F → Books F → IngestBatch
  batch_of request books =
      let dates = map (λ r. r.stat_date) request.records in
      opened_batch (builtins.new_id "ing" books.drawn) request.source request.actor
        (length request.records) request.dry_run (earliest dates) (latest dates)

  -- The loop of `ingest`, from the opened batch.
  unfoldable pub write_batch : Request F → Sorted F → IngestBatch → Books F → Option (Progress F)
  write_batch request sorted batch books =
      write_each request.dry_run request.source batch.id (known_slots sorted books)
        sorted.attributed
        (record { created = 0; updated = 0; metrics = books.metrics; drawn = books.drawn })

  -- `ingest`
  unfoldable pub ingest : Request F → Books F → IngestError ⊎ (IngestReportOut × Books F)
  ingest request books =
      let sorted = sort_out request books in
      let batch = batch_of request books in
      let opened = record books {
        batches = books.batches ++ batch ∷ [];
        drawn = books.drawn + 1;
      } in
      close request sorted batch opened (write_batch request sorted batch opened)
