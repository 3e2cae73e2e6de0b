-- ===== src/Ingest/Again.antt =====
-- Ingesting one batch of services/ingest.py a second time.
use multi_agent_ad_optimizer.Prelude.{
  ℕ, ◌+◌, String, Bool, true, false, ◌&&◌, some, List, [], ◌∷◌, inl, inr, map, keep, elem, All, In,
  elem-map, ◌≡◌, refl, sym, ap, ◌∙◌, subst, arith, Bool-cases, Option-cases, ==_sound, ◌==◌,
  pair_eq, option_eq, nat_eq, string_eq,
}
use multi_agent_ad_optimizer.Ingest.Records.{Builtins, MetricSlot, DailyMetric}
use multi_agent_ad_optimizer.Ingest.Tables.{metric_slot, at_slot, existing_slots, opened_batch}
use multi_agent_ad_optimizer.Ingest.Placing.{Attributed, slot}
use multi_agent_ad_optimizer.Ingest.Books.{Request, Books, Progress, IngestReportOut}
use multi_agent_ad_optimizer.Ingest.Batch.{
  write, write_each, write_batch, known_slots, sort_out, ingest,
}
use multi_agent_ad_optimizer.Ingest.Upsert.{IsKeyed}
use multi_agent_ad_optimizer.Ingest.Written.{IsWritten, write_each-IsLoaded}
use multi_agent_ad_optimizer.Ingest.Disposed.{sort_out-IsApart}
use multi_agent_ad_optimizer.Ingest.Report.{
  result, batch, report_for, books_for, start, ingest-done,
}

-- What a second ingest of the same batch reports, after a first one.
pub record IsRepeated (one two : IngestReportOut) : Type 0 where
  pub created : two.created ≡ 0
  pub updated : two.updated ≡ one.created + one.updated
  pub rejected : two.rejected_count ≡ one.rejected_count
  pub unresolved : two.unresolved_count ≡ one.unresolved_count

module _ {F : Type 0} where
  -- The slot of a record is among those that are known.
  abbrev IsKnown : List MetricSlot → Attributed F → Type 0
  IsKnown known item = elem (slot item) known ≡ true

  created-write_each :
      (builtins : Builtins F) (dry_run : Bool) (source batch_id : String) (known : List MetricSlot)
      (items : List (Attributed F)) (p q : Progress F)
      → All (IsKnown known) items
      → write_each builtins dry_run source batch_id known items p ≡ some q
      → q.created ≡ p.created
  unfolding write_each
  created-write_each builtins dry_run source batch_id known [] p q all done =
      let same : some p ≡ some q = done in ground (arith, same)
  created-write_each builtins dry_run source batch_id known (item ∷ rest) p q (one, all) done =
      elim (Option-cases (write builtins dry_run source batch_id item p)) [
        | inl failed ↦ absurd (ground (arith, rw (failed, write_each) at done))
        | inr (metrics, wrote) ↦
            created-write_each builtins dry_run source batch_id known rest _ q all
              (rw (wrote, write_each) at done)
            ∙ rw one refl
      ]

  elem-at_slot :
      (s : MetricSlot) (ids : List String) (dates : List ℕ) (row : DailyMetric F)
      (rows more : List (DailyMetric F))
      → elem s.0 ids ≡ true
      → elem s.1.1 dates ≡ true
      → at_slot s rows ≡ row ∷ more
      → elem s (map metric_slot (keep (λ r. elem r.campaign_id ids && elem r.stat_date dates) rows))
        ≡ true
  elem-at_slot s ids dates row [] more named dated there = ground (arith, there)
  elem-at_slot s ids dates row (r ∷ rows) more named dated there =
      elim (Bool-cases (metric_slot r == s)) [
        | inl same ↦
            let here : metric_slot r ≡ s = ==_sound (metric_slot r) s same in
            let one : elem r.campaign_id ids ≡ true =
              ap (λ (t : MetricSlot). elem t.0 ids) here ∙ named in
            let two : elem r.stat_date dates ≡ true =
              ap (λ (t : MetricSlot). elem t.1.1 dates) here ∙ dated in
            rw (one, two) (rw same refl)
        | inr apart ↦
            let ih = elem-at_slot s ids dates row rows more named dated (rw apart at there) in
            elim (Bool-cases (elem r.campaign_id ids && elem r.stat_date dates)) [
              | inl asked ↦ rw asked (rw (apart, ih) refl)
              | inr skipped ↦ rw skipped ih
            ]
      ]

  elem-existing_slots :
      (s : MetricSlot) (ids : List String) (dates : List ℕ) (row : DailyMetric F)
      (rows : List (DailyMetric F))
      → elem s.0 ids ≡ true
      → elem s.1.1 dates ≡ true
      → at_slot s rows ≡ row ∷ []
      → elem s (existing_slots ids dates rows) ≡ true
  unfolding existing_slots
  elem-existing_slots s [] dates row rows named dated there = ground (arith, named)
  elem-existing_slots s (id ∷ ids) [] row rows named dated there = ground (arith, dated)
  elem-existing_slots s (id ∷ ids) (date ∷ dates) row rows named dated there =
      elem-at_slot s (id ∷ ids) (date ∷ dates) row rows [] named dated there

  -- A row that holds the slot of a record of the list makes the slot known.
  written-IsKnown :
      (builtins : Builtins F) (source batch_id : String) (before after : List (DailyMetric F))
      (whole items : List (Attributed F))
      → ((item : Attributed F) → In item items → In item whole)
      → All (IsWritten builtins source batch_id before after) items
      → All
          (IsKnown (
            existing_slots
              (map (λ item. item.campaign_id) whole)
              (map (λ item. item.row.stat_date) whole)
              after))
          items
  written-IsKnown builtins source batch_id before after whole [] inside all = tt
  written-IsKnown builtins source batch_id before after whole (item ∷ rest) inside (one, all) = (
    elem-existing_slots (slot item) (map (λ i. i.campaign_id) whole)
        (map (λ i. i.row.stat_date) whole) one.row after
        (elem-map item (λ i. i.campaign_id) whole (inside item (inl refl)))
        (elem-map item (λ i. i.row.stat_date) whole (inside item (inl refl))) one.there,
    written-IsKnown builtins source batch_id before after whole rest (λ i m. inside i (inr m)) all,
  )

  -- Where no slot has two rows and the ingest is no rehearsal, ingesting the same request again right
  -- after it answers too, creates nothing, updates every row that the first ingest created or
  -- updated, and rejects and leaves unresolved as many records.
  pub ingest-again :
      (builtins : Builtins F) (request : Request F) (books : Books F)
      → IsKeyed books.metrics
      → request.dry_run ≡ false
      → (one two : IngestReportOut) × (after last : Books F) × (ingest builtins request books
          ≡ inr (one, after))
        × (ingest builtins request after ≡ inr (two, last))
        × IsRepeated one two
  unfolding write_batch opened_batch sort_out
  ingest-again builtins request books keyed wet =
      let (p, wrote, was) =
        write_each-IsLoaded builtins request.source (batch builtins request books).id
          (known_slots (result builtins request books) books)
          (result builtins request books).attributed (start builtins request books) keyed
          (sort_out-IsApart builtins request books) in
      let after = books_for builtins request books p in
      let known = known_slots (result builtins request after) after in
      let (q, again, is) =
        write_each-IsLoaded builtins request.source (batch builtins request after).id known
          (result builtins request after).attributed (start builtins request after) was.keyed
          (sort_out-IsApart builtins request after) in
      let none_new : q.created ≡ 0 =
        created-write_each builtins false request.source (batch builtins request after).id known
          (result builtins request after).attributed (start builtins request after) q
          (written-IsKnown builtins request.source (batch builtins request books).id books.metrics
            p.metrics (result builtins request books).attributed
            (result builtins request books).attributed (λ i m. m) was.written)
          again in
      (
        report_for builtins request books p,
        report_for builtins request after q,
        after,
        books_for builtins request after q,
        ingest-done builtins request books p
            (subst
              (λ b.
                write_each builtins b request.source (batch builtins request books).id
                  (known_slots (result builtins request books) books)
                  (result builtins request books).attributed (start builtins request books)
                ≡ some p)
              (sym wet) wrote)
            (omega (arith, was.accounted)),
        ingest-done builtins request after q
            (subst
              (λ b.
                write_each builtins b request.source (batch builtins request after).id known
                  (result builtins request after).attributed (start builtins request after)
                ≡ some q)
              (sym wet) again)
            (omega (arith, is.accounted)),
        record {
          created = none_new;
          updated = omega (arith, none_new, was.accounted, is.accounted);
          rejected = refl;
          unresolved = refl;
        },
      )
