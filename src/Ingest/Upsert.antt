-- ===== src/Ingest/Upsert.antt =====
-- What `upsert_daily` of repositories/campaigns.py leaves in the table, slot by slot.
use multi_agent_ad_optimizer.Prelude.{
  ◌≤◌, String, false, Option, none, some, List, [], ◌∷◌, ◌++◌, inl, inr, map, length, ◌≡◌, refl,
  sym, ap, ◌∙◌, subst, arith, otherwise, Bool-cases, List-cases, ==_sound, ==_refl, ◌==◌, pair_eq,
  option_eq, nat_eq, string_eq,
}
use multi_agent_ad_optimizer.Ingest.Records.{pos, Builtins, Measurements, MetricSlot, DailyMetric}
use multi_agent_ad_optimizer.Ingest.Tables.{
  metric_slot, at_slot, fresh_row, revised, update_slot, upsert_among, upsert_daily,
}

abbrev pub first : {A : Type 0} → List A → Option A
first [] = none
first (a ∷ _) = some a

-- The column of a row that may not be there, or the default.
abbrev pub stored : {A B : Type 0} → A → (B → A) → Option B → A
stored d column none = d
stored d column (some row) = column row

module _ {F : Type 0} where
  -- No slot has two rows, as the unique indexes of the table have it.
  abbrev pub IsKeyed : List (DailyMetric F) → Type 0
  IsKeyed rows = (s : MetricSlot) → length (at_slot s rows) ≤ 1

  -- A column holds what a feed measured, or what it held before where the feed did not measure it.
  pub record IsMerged (builtins : Builtins F) (m : Measurements F) (source batch_id : String)
      (before : Option (DailyMetric F)) (row : DailyMetric F) : Type 0 where
    pub impressions :
        row.impressions ≡ otherwise (stored (pos 0) (λ r. r.impressions) before) m.impressions
    pub clicks : row.clicks ≡ otherwise (stored (pos 0) (λ r. r.clicks) before) m.clicks
    pub conversions :
        row.conversions ≡ otherwise (stored (pos 0) (λ r. r.conversions) before) m.conversions
    pub cost : row.cost ≡ otherwise (stored builtins.zero (λ r. r.cost) before) m.cost
    pub revenue : row.revenue ≡ otherwise (stored builtins.zero (λ r. r.revenue) before) m.revenue
    pub unique_reach :
        row.unique_reach ≡ otherwise (stored (pos 0) (λ r. r.unique_reach) before) m.unique_reach
    pub from_source : row.source ≡ some source
    pub from_batch : row.batch_id ≡ some batch_id

  at_slot-update_slot_self :
      (t : MetricSlot) (change : DailyMetric F → DailyMetric F) (rows : List (DailyMetric F))
      → ((r : DailyMetric F) → metric_slot (change r) ≡ metric_slot r)
      → at_slot t (update_slot t change rows) ≡ map change (at_slot t rows)
  unfolding update_slot
  at_slot-update_slot_self t change [] same = refl
  at_slot-update_slot_self t change (r ∷ rows) same =
      let ih = at_slot-update_slot_self t change rows same in
      elim (Bool-cases (metric_slot r == t)) [
        | inl here ↦
            rw here (rw (ap (λ s. s == t) (same r) ∙ here) (ap (λ rest. change r ∷ rest) ih))
        | inr other ↦ rw other (rw other ih)
      ]

  at_slot-update_slot_other :
      (t s : MetricSlot) (change : DailyMetric F → DailyMetric F) (rows : List (DailyMetric F))
      → ((r : DailyMetric F) → metric_slot (change r) ≡ metric_slot r)
      → (t == s) ≡ false
      → at_slot s (update_slot t change rows) ≡ at_slot s rows
  unfolding update_slot
  at_slot-update_slot_other t s change [] same apart = refl
  at_slot-update_slot_other t s change (r ∷ rows) same apart =
      let ih = at_slot-update_slot_other t s change rows same apart in
      elim (Bool-cases (metric_slot r == t)) [
        | inl here ↦
            let gone : (metric_slot r == s) ≡ false =
              ap (λ u. u == s) (==_sound (metric_slot r) t here) ∙ apart in
            rw here (rw (ap (λ u. u == s) (same r) ∙ gone) (rw gone ih))
        | inr other ↦ rw other (elim (Bool-cases (metric_slot r == s)) [
          | inl wanted ↦ rw wanted (ap (λ rest. r ∷ rest) ih)
          | inr skipped ↦ rw skipped ih
        ])
      ]

  at_slot-append_self :
      (rows : List (DailyMetric F)) (r : DailyMetric F)
      → at_slot (metric_slot r) rows ≡ []
      → at_slot (metric_slot r) (rows ++ r ∷ []) ≡ r ∷ []
  at_slot-append_self [] r empty = rw (==_refl (metric_slot r)) refl
  at_slot-append_self (q ∷ rows) r empty = elim (Bool-cases (metric_slot q == metric_slot r)) [
    | inl same ↦ absurd (ground (arith, empty, same))
    | inr other ↦ rw other (at_slot-append_self rows r (ground (arith, empty, other)))
  ]

  at_slot-append_other :
      (s : MetricSlot) (rows : List (DailyMetric F)) (r : DailyMetric F)
      → (metric_slot r == s) ≡ false
      → at_slot s (rows ++ r ∷ []) ≡ at_slot s rows
  at_slot-append_other s [] r apart = rw apart refl
  at_slot-append_other s (q ∷ rows) r apart = ground (arith, at_slot-append_other s rows r apart)

  revised-IsMerged :
      (builtins : Builtins F) (m : Measurements F) (source batch_id : String) (r : DailyMetric F)
      → IsMerged builtins m source batch_id (some r) (revised m (some source) (some batch_id) r)
  unfolding revised
  revised-IsMerged builtins m source batch_id r = record {
    impressions = refl;
    clicks = refl;
    conversions = refl;
    cost = refl;
    revenue = refl;
    unique_reach = refl;
    from_source = refl;
    from_batch = refl;
  }

  fresh_row-IsMerged :
      (builtins : Builtins F) (id : String) (slot : MetricSlot) (m : Measurements F)
      (source batch_id : String)
      → IsMerged builtins m source batch_id none
          (fresh_row builtins id slot m (some source) (some batch_id))
  unfolding fresh_row
  fresh_row-IsMerged builtins id slot m source batch_id = record {
    impressions = refl;
    clicks = refl;
    conversions = refl;
    cost = refl;
    revenue = refl;
    unique_reach = refl;
    from_source = refl;
    from_batch = refl;
  }

  -- One row holds the slot, merged from the slot's row before; the other slots are as they were.
  pub record IsUpserted (builtins : Builtins F) (slot : MetricSlot) (m : Measurements F)
      (source batch_id : String) (before after : List (DailyMetric F)) : Type 0 where
    pub row : DailyMetric F
    pub there : at_slot slot after ≡ row ∷ []
    pub merged : IsMerged builtins m source batch_id (first (at_slot slot before)) row
    pub others : (s : MetricSlot) → (slot == s) ≡ false → at_slot s after ≡ at_slot s before

  pub IsUpserted-IsKeyed :
      (builtins : Builtins F) (slot : MetricSlot) (m : Measurements F) (source batch_id : String)
      (before after : List (DailyMetric F))
      → IsUpserted builtins slot m source batch_id before after
      → IsKeyed before
      → IsKeyed after
  IsUpserted-IsKeyed builtins slot m source batch_id before after up keyed s =
      elim (Bool-cases (slot == s)) [
        | inl same ↦
            subst (λ t. length (at_slot t after) ≤ 1) (==_sound slot s same)
              (rw up.there (ground arith))
        | inr apart ↦ rw (up.others s apart) (keyed s)
      ]

  module _ (builtins : Builtins F) (id : String) (slot : MetricSlot) (m : Measurements F)
      (source batch_id : String) (rows : List (DailyMetric F)) where
    upsert_daily-new :
        at_slot slot rows ≡ []
        → IsUpserted builtins slot m source batch_id rows
            (rows ++ fresh_row builtins id slot m (some source) (some batch_id) ∷ [])
    unfolding fresh_row
    upsert_daily-new empty = record {
      row = fresh_row builtins id slot m (some source) (some batch_id);
      there =
          at_slot-append_self rows (fresh_row builtins id slot m (some source) (some batch_id))
            empty;
      merged =
          subst
            (λ o.
              IsMerged builtins m source batch_id (first o)
                (fresh_row builtins id slot m (some source) (some batch_id)))
            (sym empty) (fresh_row-IsMerged builtins id slot m source batch_id);
      others = λ s apart. at_slot-append_other s rows _ apart;
    }

    upsert_daily-old :
        (r : DailyMetric F)
        → at_slot slot rows ≡ r ∷ []
        → IsUpserted builtins slot m source batch_id rows
            (update_slot slot (revised m (some source) (some batch_id)) rows)
    unfolding revised
    upsert_daily-old r one = record {
      row = revised m (some source) (some batch_id) r;
      there =
          at_slot-update_slot_self slot (revised m (some source) (some batch_id)) rows (λ q. refl)
          ∙ ap (map (revised m (some source) (some batch_id))) one;
      merged =
          subst
            (λ o.
              IsMerged builtins m source batch_id (first o)
                (revised m (some source) (some batch_id) r))
            (sym one) (revised-IsMerged builtins m source batch_id r);
      others = λ s apart.
          at_slot-update_slot_other slot s (revised m (some source) (some batch_id)) rows
            (λ q. refl) apart;
    }

    -- In a table with one row at most in each slot, `upsert_daily` does not raise.
    pub upsert_daily-IsUpserted :
        IsKeyed rows
        → (after : List (DailyMetric F)) × (upsert_daily builtins id slot m
              (some source)
              (some batch_id)
              rows
            ≡ some after)
          × IsUpserted builtins slot m source batch_id rows after
    unfolding upsert_daily upsert_among
    upsert_daily-IsUpserted keyed = elim (List-cases (at_slot slot rows)) [
      | inl empty ↦ (_, rw empty refl, upsert_daily-new empty)
      | inr (r, rest, more) ↦ elim (List-cases rest) [
        | inl done ↦
            let one : at_slot slot rows ≡ r ∷ [] = more ∙ ap (λ x. r ∷ x) done in
            (_, rw one refl, upsert_daily-old r one)
        | inr (q, others, two) ↦
            let long : at_slot slot rows ≡ r ∷ q ∷ others = more ∙ ap (λ x. r ∷ x) two in
            absurd (omega (arith, keyed slot, ap length long))
      ]
    ]
