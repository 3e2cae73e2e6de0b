-- ===== src/Ingest/Accounts.antt =====
-- Where the records of a batch of services/ingest.py go, counted by their index: `w` weighs the indexes.
use multi_agent_ad_optimizer.Prelude.{
  ℕ, zero, suc, ◌+◌, String, Option, none, some, List, [], ◌∷◌, ◌++◌, ◌⊎◌, inl, inr, map, sum,
  length, ◌≡◌, refl, subst, arith, Option-cases, Sum-cases, Bool-cases, pair_eq, option_eq, nat_eq,
  string_eq,
}
use multi_agent_ad_optimizer.Prelude.Dict.{Dict, get}
use multi_agent_ad_optimizer.Ingest.Records.{
  Builtins, MetricRecordIn, IngestIssue, MetricSlot, CampaignRow, CreativeRow,
}
use multi_agent_ad_optimizer.Ingest.Tables.{is_empty}
use multi_agent_ad_optimizer.Ingest.Attribution.{semantic_problem, screen}
use multi_agent_ad_optimizer.Ingest.Placing.{
  Attributed, slot, Lookups, placed, place_with, place, place_each, attribute, collisions,
  split_slots, reject_duplicate_slots,
}
use multi_agent_ad_optimizer.Ingest.Batch.{sort_out}
use multi_agent_ad_optimizer.Ingest.Books.{Request, Books}

-- The weights of the first `n` indexes from `index` on.
unfoldable pub span : (ℕ → ℕ) → ℕ → ℕ → ℕ
span w index zero = 0
span w index (suc n) = w index + span w (suc index) n

module _ (w : ℕ → ℕ) where
  abbrev pub of_issues : List IngestIssue → ℕ
  of_issues issues = sum (map (λ i. w i.index) issues)

  pub of_issues-append :
      (xs ys : List IngestIssue) → of_issues (xs ++ ys) ≡ of_issues xs + of_issues ys
  of_issues-append [] ys = omega arith
  of_issues-append (x ∷ xs) ys = omega (arith, of_issues-append xs ys)

module _ {F : Type 0} (w : ℕ → ℕ) where
  abbrev pub of_validated : List (ℕ × MetricRecordIn F) → ℕ
  of_validated validated = sum (map (λ v. w v.0) validated)

  abbrev pub of_items : List (Attributed F) → ℕ
  of_items items = sum (map (λ item. w item.index) items)

  of_issues-screen :
      (builtins : Builtins F) (today index : ℕ) (records : List (MetricRecordIn F))
      → of_issues w (screen builtins today index records).0
          + of_validated (screen builtins today index records).1
        ≡ span w index (length records)
  unfolding screen span
  of_issues-screen builtins today index [] = omega arith
  of_issues-screen builtins today index (r ∷ rest) =
      let ih = of_issues-screen builtins today (suc index) rest in
      elim (Option-cases (semantic_problem builtins today r)) [
        | inl fine ↦ rw (fine, screen) (omega (arith, ih))
        | inr (problem, bad) ↦ rw (bad, screen) (omega (arith, ih))
      ]

  -- A place keeps the index of its record.
  abbrev pub of_place : IngestIssue ⊎ Attributed F → ℕ
  of_place (inl i) = w i.index
  of_place (inr item) = w item.index

  of_place-placed :
      (index : ℕ) (r : MetricRecordIn F) (id : String) (owned : String ⊎ Option String)
      → of_place (placed index r id owned) ≡ w index
  of_place-placed index r id (inl problem) = refl
  of_place-placed index r id (inr creative_id) = refl

  of_place-place_with :
      (found : Lookups) (index : ℕ) (r : MetricRecordIn F)
      (resolved : Option String × Option String)
      → of_place (place_with found index r resolved) ≡ w index
  unfolding place_with
  of_place-place_with found index r (none, problem) = refl
  of_place-place_with found index r (some id, some problem) = refl
  of_place-place_with found index r (some id, none) = of_place-placed index r id _

  of_issues-place_each :
      (found : Lookups) (validated : List (ℕ × MetricRecordIn F))
      → of_issues w (place_each found validated).0 + of_items (place_each found validated).1
        ≡ of_validated validated
  unfolding place_each
  of_issues-place_each found [] = omega arith
  of_issues-place_each found (v ∷ rest) =
      let ih = of_issues-place_each found rest in
      let same : of_place (place found v) ≡ w v.0 = of_place-place_with found v.0 v.1 _ in
      elim (Sum-cases (place found v)) [
        | inl (i, out) ↦
            rw (out, place_each) (omega (arith, ih, subst (λ p. of_place p ≡ w v.0) out same))
        | inr (item, fits) ↦
            rw (fits, place_each) (omega (arith, ih, subst (λ p. of_place p ≡ w v.0) fits same))
      ]

  of_issues-attribute :
      (campaigns : List CampaignRow) (creatives : List CreativeRow)
      (validated : List (ℕ × MetricRecordIn F))
      → of_issues w (attribute campaigns creatives validated).0
          + of_items (attribute campaigns creatives validated).1
        ≡ of_validated validated
  unfolding attribute
  of_issues-attribute campaigns creatives [] = omega arith
  of_issues-attribute campaigns creatives (v ∷ rest) = of_issues-place_each _ (v ∷ rest)

  of_issues-split_slots :
      (str : ℕ → String) (clashing : Dict MetricSlot (List ℕ)) (items : List (Attributed F))
      → of_issues w (split_slots str clashing items).0 + of_items (split_slots str clashing items).1
        ≡ of_items items
  unfolding split_slots
  of_issues-split_slots str clashing [] = omega arith
  of_issues-split_slots str clashing (item ∷ rest) =
      let ih = of_issues-split_slots str clashing rest in
      elim (Option-cases (get (slot item) clashing)) [
        | inl alone ↦ rw (alone, split_slots) (omega (arith, ih))
        | inr (indexes, clash) ↦ rw (clash, split_slots) (omega (arith, ih))
      ]

  of_issues-reject_duplicate_slots :
      (str : ℕ → String) (items : List (Attributed F))
      → of_issues w (reject_duplicate_slots str items).0
          + of_items (reject_duplicate_slots str items).1
        ≡ of_items items
  unfolding reject_duplicate_slots
  of_issues-reject_duplicate_slots str items = elim (Bool-cases (is_empty (collisions items))) [
    | inl none' ↦ rw none' (omega arith)
    | inr some' ↦ rw some' (of_issues-split_slots str (collisions items) items)
  ]

  -- Every weight that a batch brings in ends in one of the three lists.
  pub of_sort_out :
      (builtins : Builtins F) (request : Request F) (books : Books F)
      → of_issues w (sort_out builtins request books).rejected
          + of_issues w (sort_out builtins request books).unresolved
          + of_items (sort_out builtins request books).attributed
        ≡ span w 0 (length request.records)
  unfolding sort_out
  of_sort_out builtins request books =
      let (malformed, validated) = screen builtins request.today 0 request.records in
      let (unresolved, attributed) = attribute books.campaigns books.creatives validated in
      let (repeated, kept) = reject_duplicate_slots builtins.str attributed in
      omega (
        arith,
        of_issues-append w malformed repeated,
        of_issues-screen builtins request.today 0 request.records,
        of_issues-attribute books.campaigns books.creatives validated,
        of_issues-reject_duplicate_slots builtins.str attributed,
      )
