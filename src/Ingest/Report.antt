-- ===== src/Ingest/Report.antt =====
-- What `IngestService.ingest` of services/ingest.py answers and leaves behind.
use multi_agent_ad_optimizer.Prelude.{
  ◌+◌, true, false, some, [], ◌∷◌, ◌++◌, ◌⊎◌, inl, inr, length, All, ◌≡◌, refl, sym, subst, arith,
  Bool-cases, pair_eq, option_eq, nat_eq, string_eq,
}
use multi_agent_ad_optimizer.Ingest.Records.{Builtins, MetricSlot, IngestBatch}
use multi_agent_ad_optimizer.Ingest.Tables.{at_slot, opened_batch, flush_batch}
use multi_agent_ad_optimizer.Ingest.Batch.{
  reconciles, sort_out, batch_of, known_slots, write_batch, write_each, close, ingest, report_of,
  entry_of,
}
use multi_agent_ad_optimizer.Ingest.Books.{
  Request, Books, Sorted, Progress, IngestReportOut, IngestEntry,
}
use multi_agent_ad_optimizer.Ingest.Upsert.{IsKeyed}
use multi_agent_ad_optimizer.Ingest.Written.{
  Avoids, IsWritten, write_each-IsRehearsed, write_each-IsLoaded,
}
use multi_agent_ad_optimizer.Ingest.Disposed.{length-sort_out, sort_out-IsApart}

module _ {F : Type 0} (builtins : Builtins F) (request : Request F) (books : Books F) where
  abbrev pub result : Sorted F
  result = sort_out builtins request books

  abbrev pub batch : IngestBatch
  batch = batch_of builtins request books

  abbrev pub opened : Books F
  opened = record books { batches = books.batches ++ batch ∷ []; drawn = books.drawn + 1 }

  abbrev pub closed : Progress F → IngestBatch
  closed q = record batch {
    created = q.created;
    updated = q.updated;
    rejected = length result.rejected;
    unresolved = length result.unresolved;
  }

  abbrev pub report_for : Progress F → IngestReportOut
  report_for q = report_of request (closed q) result

  abbrev pub books_for : Progress F → Books F
  books_for q = record opened {
    metrics = q.metrics;
    batches = flush_batch (closed q) opened.batches;
    trail = books.trail ++ entry_of request (closed q) ∷ [];
    drawn = q.drawn;
  }

  abbrev pub start : Progress F
  start = record { created = 0; updated = 0; metrics = books.metrics; drawn = opened.drawn }

  reconciles-report_for :
      (q : Progress F)
      → q.created + q.updated ≡ length result.attributed
      → reconciles (report_for q) ≡ true
  unfolding reconciles opened_batch
  reconciles-report_for q accounted =
      ground (arith, accounted, length-sort_out builtins request books)

  pub ingest-done :
      (q : Progress F)
      → write_batch builtins request result batch opened ≡ some q
      → q.created + q.updated ≡ length result.attributed
      → ingest builtins request books ≡ inr (report_for q, books_for q)
  unfolding ingest close
  ingest-done q wrote accounted = rw (wrote, close) (rw (reconciles-report_for q accounted) refl)

  -- The loop comes to its end, whether it rehearses or writes.
  pub record IsOutcome (q : Progress F) : Type 0 where
    pub accounted : q.created + q.updated ≡ length result.attributed
    pub keyed : IsKeyed q.metrics
    pub rehearsal : (request.dry_run ≡ false) ⊎ (q.metrics ≡ books.metrics)

  write_batch-IsOutcome :
      IsKeyed books.metrics
      → (q : Progress F) × (write_batch builtins request result batch opened ≡ some q) × IsOutcome q
  unfolding write_batch
  write_batch-IsOutcome keyed = elim (Bool-cases request.dry_run) [
    | inl dry ↦
        let (q, wrote, was) =
          write_each-IsRehearsed builtins request.source batch.id (known_slots result books)
            result.attributed start in
        (
          q,
          subst
              (λ b.
                write_each builtins b request.source batch.id (known_slots result books)
                  result.attributed start
                ≡ some q)
              (sym dry) wrote,
          record {
            accounted = omega (arith, was.accounted);
            keyed = rw was.metrics keyed;
            rehearsal = inr was.metrics;
          },
        )
    | inr wet ↦
        let (q, wrote, was) =
          write_each-IsLoaded builtins request.source batch.id (known_slots result books)
            result.attributed start keyed (sort_out-IsApart builtins request books) in
        (
          q,
          subst
              (λ b.
                write_each builtins b request.source batch.id (known_slots result books)
                  result.attributed start
                ≡ some q)
              (sym wet) wrote,
          record {
            accounted = omega (arith, was.accounted);
            keyed = was.keyed;
            rehearsal = inl wet;
          },
        )
  ]

  -- A rehearsal answers, and the metrics are as they were.
  pub ingest-rehearses :
      request.dry_run ≡ true
      → (report : IngestReportOut) × (after : Books F) × (ingest builtins request books
          ≡ inr (report, after))
        × (after.metrics ≡ books.metrics)
  unfolding write_batch
  ingest-rehearses dry =
      let (q, wrote, was) =
        write_each-IsRehearsed builtins request.source batch.id (known_slots result books)
          result.attributed start in
      let done : write_batch builtins request result batch opened ≡ some q =
        subst
          (λ b.
            write_each builtins b request.source batch.id (known_slots result books)
              result.attributed start
            ≡ some q)
          (sym dry) wrote in
      (report_for q, books_for q, ingest-done q done (omega (arith, was.accounted)), was.metrics)

  -- The report adds up, the audit trail repeats it, and the table is still keyed.
  pub record IsSettled (report : IngestReportOut) (after : Books F) : Type 0 where
    pub received : report.received ≡ length request.records
    pub accounted :
        report.received
        ≡ report.created + report.updated + report.rejected_count + report.unresolved_count
    pub keyed : IsKeyed after.metrics
    pub rehearsal : (request.dry_run ≡ false) ⊎ (after.metrics ≡ books.metrics)
    pub entry : IngestEntry
    pub logged : after.trail ≡ books.trail ++ entry ∷ []
    pub created : entry.created ≡ report.created
    pub updated : entry.updated ≡ report.updated
    pub rejected : entry.rejected ≡ report.rejected_count
    pub unresolved : entry.unresolved ≡ report.unresolved_count

  -- Where no slot has two rows, the ingest of any batch answers with a report and raises neither
  -- of its exceptions. The report counts every record received once as created, updated, rejected
  -- or unresolved, one audit entry with the same counts is appended, still no slot has two rows,
  -- and a rehearsal leaves the metrics as they were.
  pub ingest-IsSettled :
      IsKeyed books.metrics
      → (report : IngestReportOut) × (after : Books F) × (ingest builtins request books
          ≡ inr (report, after))
        × IsSettled report after
  unfolding opened_batch
  ingest-IsSettled keyed =
      let (q, wrote, was) = write_batch-IsOutcome keyed in
      (
        report_for q,
        books_for q,
        ingest-done q wrote was.accounted,
        record {
          received = refl;
          accounted = omega (arith, was.accounted, length-sort_out builtins request books);
          keyed = was.keyed;
          rehearsal = was.rehearsal;
          entry = entry_of request (closed q);
          logged = refl;
          created = refl;
          updated = refl;
          rejected = refl;
          unresolved = refl;
        },
      )

  -- What a batch leaves in the table.
  pub record IsStored (report : IngestReportOut) (after : Books F) : Type 0 where
    pub written :
        All
          (IsWritten builtins request.source report.batch_id books.metrics after.metrics)
          result.attributed
    pub others :
        (s : MetricSlot)
        → Avoids s result.attributed
        → at_slot s after.metrics ≡ at_slot s books.metrics

  -- Where no slot has two rows and the ingest is no rehearsal, each attributed record's slot
  -- holds exactly one row: every column holds what the record measured, or what it held before
  -- (0 in a new row) where the record does not measure it, with the source and the batch of this
  -- ingest. Every slot that no attributed record names is as it was.
  pub ingest-IsStored :
      IsKeyed books.metrics
      → request.dry_run ≡ false
      → (report : IngestReportOut) × (after : Books F) × (ingest builtins request books
          ≡ inr (report, after))
        × IsStored report after
  unfolding opened_batch write_batch
  ingest-IsStored keyed wet =
      let (q, wrote, was) =
        write_each-IsLoaded builtins request.source batch.id (known_slots result books)
          result.attributed start keyed (sort_out-IsApart builtins request books) in
      (
        report_for q,
        books_for q,
        ingest-done q
            (subst
              (λ b.
                write_each builtins b request.source batch.id (known_slots result books)
                  result.attributed start
                ≡ some q)
              (sym wet) wrote)
            (omega (arith, was.accounted)),
        record { written = was.written; others = was.others },
      )
