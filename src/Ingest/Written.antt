-- ===== src/Ingest/Written.antt =====
-- The loop of `IngestService.ingest` over the attributed records.
use multi_agent_ad_optimizer.Prelude.{
  ◌+◌, String, Bool, true, false, not, some, List, [], ◌∷◌, length, elem, All, ◌≡◌, refl, ◌∙◌,
  subst, arith, ==_sound, ==_refl, ◌==◌, pair_eq, option_eq, nat_eq, string_eq,
}
use multi_agent_ad_optimizer.Ingest.Records.{Builtins, MetricSlot, DailyMetric}
use multi_agent_ad_optimizer.Ingest.Tables.{at_slot}
use multi_agent_ad_optimizer.Ingest.Placing.{Attributed, slot}
use multi_agent_ad_optimizer.Ingest.Batch.{write, count_record, write_each}
use multi_agent_ad_optimizer.Ingest.Books.{Progress}
use multi_agent_ad_optimizer.Ingest.Upsert.{
  first, IsKeyed, IsMerged, IsUpserted-IsKeyed, upsert_daily-IsUpserted,
}

module _ {F : Type 0} where
  -- No record of the list has the slot.
  abbrev pub Avoids : MetricSlot → List (Attributed F) → Type 0
  Avoids s items = All (λ item. (slot item == s) ≡ false) items

  -- No two records of the list have one slot.
  abbrev pub IsApart : List (Attributed F) → Type 0
  IsApart [] = Unit
  IsApart (item ∷ rest) = Avoids (slot item) rest × IsApart rest

  -- The slot of a record holds one row, merged from what the slot held before.
  pub record IsWritten (builtins : Builtins F) (source batch_id : String)
      (before after : List (DailyMetric F)) (item : Attributed F) : Type 0 where
    pub row : DailyMetric F
    pub there : at_slot (slot item) after ≡ row ∷ []
    pub merged :
        IsMerged builtins item.row.measured source batch_id (first (at_slot (slot item) before)) row

  -- A list of records is written, nothing else changed, and each record is counted once.
  pub record IsLoaded (builtins : Builtins F) (source batch_id : String)
      (items : List (Attributed F)) (p q : Progress F) : Type 0 where
    pub accounted : q.created + q.updated ≡ p.created + p.updated + length items
    pub keyed : IsKeyed q.metrics
    pub written : All (IsWritten builtins source batch_id p.metrics q.metrics) items
    pub others : (s : MetricSlot) → Avoids s items → at_slot s q.metrics ≡ at_slot s p.metrics

  -- A rehearsal counts each record once and writes nothing.
  pub record IsRehearsed (items : List (Attributed F)) (p q : Progress F) : Type 0 where
    pub accounted : q.created + q.updated ≡ p.created + p.updated + length items
    pub metrics : q.metrics ≡ p.metrics

  accounted-count_record :
      (is_new : Bool) (metrics : List (DailyMetric F)) (p : Progress F)
      → (count_record is_new metrics p).created + (count_record is_new metrics p).updated
        ≡ p.created + p.updated + 1
  accounted-count_record true metrics p = omega arith
  accounted-count_record false metrics p = omega arith

  module _ (builtins : Builtins F) (source batch_id : String) (known : List MetricSlot) where
    abbrev step : List (DailyMetric F) → Attributed F → Progress F → Progress F
    step metrics item p = count_record (not (elem (slot item) known)) metrics p

    pub write_each-IsRehearsed :
        (items : List (Attributed F)) (p : Progress F)
        → (q : Progress F) × (write_each builtins true source batch_id known items p ≡ some q)
          × IsRehearsed items p q
    unfolding write_each write
    write_each-IsRehearsed [] p = (p, refl, record { accounted = omega arith; metrics = refl })
    write_each-IsRehearsed (item ∷ rest) p =
        let (q, done, was) = write_each-IsRehearsed rest (step p.metrics item p) in
        (
          q,
          done,
          record {
            accounted = omega (
              arith,
              was.accounted,
              accounted-count_record (not (elem (slot item) known)) p.metrics p,
            );
            metrics = was.metrics;
          },
        )

    IsWritten-map :
        (before between after : List (DailyMetric F)) (s : MetricSlot) (items : List (Attributed F))
        → ((t : MetricSlot) → (s == t) ≡ false → at_slot t between ≡ at_slot t before)
        → Avoids s items
        → All (IsWritten builtins source batch_id between after) items
        → All (IsWritten builtins source batch_id before after) items
    IsWritten-map before between after s [] same avoids all = tt
    IsWritten-map before between after s (item ∷ rest) same (apart, avoids) (one, all) = (
      record {
        row = one.row;
        there = one.there;
        merged =
            subst (λ o. IsMerged builtins item.row.measured source batch_id (first o) one.row)
              (same (slot item) (ground (arith, apart, ==_sound s (slot item), ==_refl s)))
              one.merged;
      },
      IsWritten-map before between after s rest same avoids all,
    )

    -- Where no two records have one slot, every one of them is written.
    pub write_each-IsLoaded :
        (items : List (Attributed F)) (p : Progress F)
        → IsKeyed p.metrics
        → IsApart items
        → (q : Progress F) × (write_each builtins false source batch_id known items p ≡ some q)
          × IsLoaded builtins source batch_id items p q
    unfolding write_each write
    write_each-IsLoaded [] p keyed apart = (
      p,
      refl,
      record { accounted = omega arith; keyed = keyed; written = tt; others = λ s _. refl },
    )
    write_each-IsLoaded (item ∷ rest) p keyed (alone, apart) =
        let (rows, wrote, up) =
          upsert_daily-IsUpserted builtins (builtins.new_id "met" p.drawn) (slot item)
            item.row.measured source batch_id p.metrics keyed in
        let (q, done, was) =
          write_each-IsLoaded rest (step rows item p)
            (IsUpserted-IsKeyed builtins (slot item) item.row.measured source batch_id p.metrics
              rows up keyed)
            apart in
        (
          q,
          rw (wrote, write_each, write) done,
          record {
            accounted = omega (
              arith,
              was.accounted,
              accounted-count_record (not (elem (slot item) known)) rows p,
            );
            keyed = was.keyed;
            written = (
              record {
                row = up.row;
                there = was.others (slot item) alone ∙ up.there;
                merged = up.merged;
              },
              IsWritten-map p.metrics rows q.metrics (slot item) rest up.others alone was.written,
            );
            others = λ s (away, avoids). was.others s avoids ∙ up.others s away;
          },
        )
