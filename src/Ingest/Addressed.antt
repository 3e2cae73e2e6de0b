-- ===== src/Ingest/Addressed.antt =====
-- The records that `_attribute` of services/ingest.py lets through, and the rows that they point at.
use multi_agent_ad_optimizer.Prelude.{
  ℕ, suc, String, false, Option, none, some, List, [], ◌∷◌, ◌⊎◌, inl, inr, All, In, ◌≡◌, ◌≢◌, refl,
  sym, ap, ◌∙◌, subst, arith, Bool-cases, Option-cases, Sum-cases, ==_sound, ◌==◌, pair_eq,
  option_eq, nat_eq, string_eq,
}
use multi_agent_ad_optimizer.Prelude.Dict.{Dict, get}
use multi_agent_ad_optimizer.Ingest.Records.{
  Builtins, MetricRecordIn, IngestIssue, MetricSlot, CampaignRow, CreativeRow, is_filled,
}
use multi_agent_ad_optimizer.Ingest.Tables.{is_empty}
use multi_agent_ad_optimizer.Ingest.Attribution.{
  resolve_campaign, filled, pair_of, is_addressed, semantic_problem, screen,
}
use multi_agent_ad_optimizer.Ingest.Placing.{
  Attributed, slot, Lookups, lookups, owned_by, placed, place_with, place, place_each, attribute,
  collisions, split_slots, reject_duplicate_slots,
}
use multi_agent_ad_optimizer.Ingest.Batch.{sort_out}
use multi_agent_ad_optimizer.Ingest.Books.{Request, Books}
use multi_agent_ad_optimizer.Ingest.Resolved.{
  existing_ids-In, campaign_by_id-In, Carries, ids_by_external-Carries,
}
use multi_agent_ad_optimizer.Ingest.Unanimous.{IsUnanimous, filled-none, resolve_from-IsUnanimous}

module _ {F : Type 0} (builtins : Builtins F) (today : ℕ) (campaigns : List CampaignRow)
    (creatives : List CreativeRow) where
  -- The record is well formed, the rows that an attributed record names exist, and whatever it says of them is so.
  pub record IsRightful (item : Attributed F) : Type 0 where
    pub well_formed : semantic_problem builtins today item.row ≡ none
    pub stands : (c : CampaignRow) × In c campaigns × (c.id ≡ item.campaign_id)
    pub named :
        (filled item.row.campaign_id ≡ none)
        ⊎ ((filled item.row.campaign_id ≡ some item.campaign_id)
            × ((c : CampaignRow) × In c campaigns × (c.id ≡ item.campaign_id)))
    pub addressed :
        (pair_of item.row ≡ none)
        ⊎ ((pair : String × String) × (pair_of item.row ≡ some pair)
            × Carries pair item.campaign_id campaigns)
    pub creative : item.creative_id ≡ item.row.creative_id
    pub owned :
        (item.creative_id ≡ none)
        ⊎ ((c : CreativeRow) × In c creatives
            × (item.creative_id ≡ some c.id)
            × (c.campaign_id ≡ item.campaign_id))

  abbrev RightfulPlace : IngestIssue ⊎ Attributed F → Type 0
  RightfulPlace (inl i) = Unit
  RightfulPlace (inr item) = IsRightful item

  unaddressed :
      (r : MetricRecordIn F)
      → filled r.campaign_id ≡ none
      → pair_of r ≡ none
      → semantic_problem builtins today r ≢ none
  unfolding semantic_problem
  unaddressed r none' bare fine =
      let empty : is_filled r.campaign_id ≡ false = filled-none r.campaign_id none' in
      let lost : is_addressed r ≡ false = rw (empty, bare, is_addressed) refl in
      ground (arith, rw (lost, semantic_problem) at fine)

  -- The records passed the checks of their values.
  abbrev AllFine : List (ℕ × MetricRecordIn F) → Type 0
  AllFine validated = All (λ v. semantic_problem builtins today v.1 ≡ none) validated

  screen-AllFine :
      (index : ℕ) (records : List (MetricRecordIn F))
      → AllFine (screen builtins today index records).1
  unfolding screen
  screen-AllFine index [] = tt
  screen-AllFine index (r ∷ rest) =
      let ih = screen-AllFine (suc index) rest in
      elim (Option-cases (semantic_problem builtins today r)) [
        | inl fine ↦ rw (fine, screen) (fine, ih)
        | inr (problem, bad) ↦ rw (bad, screen) ih
      ]

  module _ (validated : List (ℕ × MetricRecordIn F)) where
    abbrev found : Lookups
    found = lookups campaigns creatives validated

    -- The creative that a record keeps.
    Owns : Option String → String → String ⊎ Option String → Type 0
    Owns given id (inl problem) = Unit
    Owns given id (inr creative_id) =
        (creative_id ≡ given)
        × ((creative_id ≡ none)
            ⊎ ((c : CreativeRow) × In c creatives
                × (creative_id ≡ some c.id)
                × (c.campaign_id ≡ id)))

    owned_by-Owns :
        (id : String) (given : Option String)
        → Owns given id (owned_by found.creative_owners id given)
    unfolding owned_by Owns lookups
    owned_by-Owns id none = (refl, inl refl)
    owned_by-Owns id (some creative_id) =
        elim (Option-cases (get creative_id found.creative_owners)) [
          | inl none' ↦ rw (none', owned_by) tt
          | inr (owner, there) ↦
              let (c, stands, called, owns) =
                campaign_by_id-In creative_id owner _ creatives there in
              elim (Bool-cases (owner == id)) [
                | inl same ↦
                    rw (there, owned_by)
                      (rw same (
                        refl,
                        inr (c, stands, ap some (sym called), owns ∙ ==_sound owner id same),
                      ))
                | inr other ↦ rw (there, owned_by) (rw other tt)
              ]
        ]

    some_campaign :
        (r : MetricRecordIn F) (id : String)
        → semantic_problem builtins today r ≡ none
        → IsUnanimous (filled r.campaign_id) (pair_of r) found.known_campaigns found.external_map id
        → (c : CampaignRow) × In c campaigns × (c.id ≡ id)
    unfolding lookups
    some_campaign r id fine (inr (given, known), carries) = existing_ids-In id _ campaigns known
    some_campaign r id fine (inl none', inr (pair, given, there)) =
        let (c, stands, called, carries) = ids_by_external-Carries pair id _ campaigns there in
        (c, stands, called)
    some_campaign r id fine (inl none', inl bare) = absurd (unaddressed r none' bare fine)

    RightfulPlace-placed :
        (index : ℕ) (r : MetricRecordIn F) (id : String) (owned : String ⊎ Option String)
        → semantic_problem builtins today r ≡ none
        → IsUnanimous (filled r.campaign_id) (pair_of r) found.known_campaigns found.external_map id
        → Owns r.creative_id id owned
        → RightfulPlace (placed index r id owned)
    unfolding Owns lookups
    RightfulPlace-placed index r id (inl problem) fine unanimous owns = tt
    RightfulPlace-placed index r id (inr creative_id) fine (names, carries) (same, owned) = record {
      well_formed = fine;
      stands = some_campaign r id fine (names, carries);
      named = elim names [
        | inl none' ↦ inl none'
        | inr (given, known) ↦ inr (given, existing_ids-In id _ campaigns known)
      ];
      addressed = elim carries [
        | inl none' ↦ inl none'
        | inr (pair, given, there) ↦
            inr (pair, given, ids_by_external-Carries pair id _ campaigns there)
      ];
      creative = same;
      owned = owned;
    }

    RightfulPlace-place_with :
        (index : ℕ) (r : MetricRecordIn F) (resolved : Option String × Option String)
        → semantic_problem builtins today r ≡ none
        → resolve_campaign found.known_campaigns found.external_map r ≡ resolved
        → RightfulPlace (place_with found index r resolved)
    unfolding place_with resolve_campaign
    RightfulPlace-place_with index r (none, problem) fine answer = tt
    RightfulPlace-place_with index r (some id, some problem) fine answer = tt
    RightfulPlace-place_with index r (some id, none) fine answer =
        RightfulPlace-placed index r id _ fine
          (resolve_from-IsUnanimous (filled r.campaign_id) (pair_of r) found.known_campaigns
            found.external_map id answer)
          (owned_by-Owns id r.creative_id)

    place_each-IsRightful :
        (vs : List (ℕ × MetricRecordIn F)) → AllFine vs → All IsRightful (place_each found vs).1
    unfolding place_each
    place_each-IsRightful [] fine = tt
    place_each-IsRightful (v ∷ rest) (one, fine) =
        let ih = place_each-IsRightful rest fine in
        let right : RightfulPlace (place found v) = RightfulPlace-place_with v.0 v.1 _ one refl in
        elim (Sum-cases (place found v)) [
          | inl (i, out) ↦ rw (out, place_each) ih
          | inr (item, fits) ↦ rw (fits, place_each) (subst RightfulPlace fits right, ih)
        ]

  attribute-IsRightful :
      (validated : List (ℕ × MetricRecordIn F))
      → AllFine validated
      → All IsRightful (attribute campaigns creatives validated).1
  unfolding attribute
  attribute-IsRightful [] fine = tt
  attribute-IsRightful (v ∷ rest) fine = place_each-IsRightful (v ∷ rest) (v ∷ rest) fine

  split_slots-IsRightful :
      (str : ℕ → String) (clashing : Dict MetricSlot (List ℕ)) (items : List (Attributed F))
      → All IsRightful items
      → All IsRightful (split_slots str clashing items).1
  unfolding split_slots
  split_slots-IsRightful str clashing [] all = tt
  split_slots-IsRightful str clashing (item ∷ rest) (one, all) =
      let ih = split_slots-IsRightful str clashing rest all in
      elim (Option-cases (get (slot item) clashing)) [
        | inl alone ↦ rw (alone, split_slots) (one, ih)
        | inr (indexes, clash) ↦ rw (clash, split_slots) ih
      ]

  reject_duplicate_slots-IsRightful :
      (str : ℕ → String) (items : List (Attributed F))
      → All IsRightful items
      → All IsRightful (reject_duplicate_slots str items).1
  unfolding reject_duplicate_slots
  reject_duplicate_slots-IsRightful str items all =
      elim (Bool-cases (is_empty (collisions items))) [
        | inl none' ↦ rw none' all
        | inr some' ↦ rw some' (split_slots-IsRightful str (collisions items) items all)
      ]

-- Every record that is attributed passes the checks of its values; the campaign it is attributed
-- to exists and is the one that its internal id names and the one that carries its platform
-- coordinates, whichever of the two the record has; and its creative, if it has one, exists and
-- belongs to that campaign.
pub sort_out-IsRightful :
    {F : Type 0} (builtins : Builtins F) (request : Request F) (books : Books F)
    → All
        (IsRightful builtins request.today books.campaigns books.creatives)
        (sort_out builtins request books).attributed
unfolding sort_out
sort_out-IsRightful builtins request books =
    reject_duplicate_slots-IsRightful builtins request.today books.campaigns books.creatives
      builtins.str _
      (attribute-IsRightful builtins request.today books.campaigns books.creatives _
        (screen-AllFine builtins request.today books.campaigns books.creatives 0 request.records))
