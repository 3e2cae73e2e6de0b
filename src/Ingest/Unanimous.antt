-- ===== src/Ingest/Unanimous.antt =====
-- When `_resolve_campaign` of services/ingest.py answers with a campaign.
use multi_agent_ad_optimizer.Prelude.{
  String, true, false, Option, none, some, List, [], ◌∷◌, ◌⊎◌, inl, inr, elem, ◌≡◌, refl, ap, ◌∙◌,
  subst, arith, Bool-cases, Option-cases, ==_sound, ◌==◌, pair_eq, option_eq, nat_eq, string_eq,
}
use multi_agent_ad_optimizer.Prelude.Dict.{Dict, get}
use multi_agent_ad_optimizer.Ingest.Records.{is_filled}
use multi_agent_ad_optimizer.Ingest.Attribution.{
  precedes, insert_distinct, sorted_set, by_id, by_pair, settle_on, resolve_from, filled,
}

-- What an internal id that is there says of the campaign a record resolves to.
abbrev pub AgreesId : Option String → List String → String → Type 0
AgreesId given known id = (given ≡ none) ⊎ ((given ≡ some id) × (elem id known ≡ true))

abbrev pub AgreesPair : Option (String × String) → Dict (String × String) String → String → Type 0
AgreesPair given external_map id =
    (given ≡ none)
    ⊎ ((pair : String × String) × (given ≡ some pair) × (get pair external_map ≡ some id))

-- A record is never resolved by nothing.
abbrev pub IsUnanimous :
    Option String
    → Option (String × String)
    → List String
    → Dict (String × String) String
    → String
    → Type 0
IsUnanimous named coordinates' known external_map id =
    AgreesId named known id × AgreesPair coordinates' external_map id

pub filled-none : (value : Option String) → filled value ≡ none → is_filled value ≡ false
filled-none none none' = refl
filled-none (some value) none' = elim (Bool-cases (is_filled (some value))) [
  | inl yes' ↦ absurd (ground (arith, rw (yes', filled) at none'))
  | inr no' ↦ no'
]

settle_on-two :
    (a b id : String)
    → settle_on (insert_distinct a (b ∷ [])) ≡ (some id, none)
    → (a ≡ id) × (b ≡ id)
unfolding settle_on insert_distinct
settle_on-two a b id done = elim (Bool-cases (a == b)) [
  | inl same ↦
      let only : (some b, none) ≡ (some id, none) = rw (same, settle_on) at done in
      (==_sound a b same ∙ ground (arith, only), ground (arith, only))
  | inr apart ↦ elim (Bool-cases (precedes a b)) [
    | inl before ↦ absurd (ground (arith, rw (apart, before, settle_on) at done))
    | inr after ↦ absurd (ground (arith, rw (apart, after, settle_on) at done))
  ]
]

pub resolve_from-IsUnanimous :
    (named : Option String) (pair : Option (String × String)) (known : List String)
    (external_map : Dict (String × String) String) (id : String)
    → resolve_from (by_id named known) (by_pair pair external_map) ≡ (some id, none)
    → IsUnanimous named pair known external_map id
unfolding resolve_from by_id by_pair sorted_set insert_distinct settle_on get
resolve_from-IsUnanimous none none known external_map id done = absurd (ground (arith, done))
resolve_from-IsUnanimous (some a) none known external_map id done =
    elim (Bool-cases (elem a known)) [
      | inl there ↦ (inr (ground (arith, done, there), ground (arith, done, there)), inl refl)
      | inr missing ↦ absurd (ground (arith, done, missing))
    ]
resolve_from-IsUnanimous none (some pair) known external_map id done =
    elim (Option-cases (get pair external_map)) [
      | inl missing ↦ absurd (ground (arith, rw (missing, by_pair, resolve_from) at done))
      | inr (mapped, there) ↦
          let only : (some mapped, none) ≡ (some id, none) =
            rw (there, by_pair, resolve_from) at done in
          (inl refl, inr (pair, refl, ground (arith, only, there)))
    ]
resolve_from-IsUnanimous (some a) (some pair) known external_map id done =
    elim (Bool-cases (elem a known)) [
      | inl known' ↦ elim (Option-cases (get pair external_map)) [
        | inl missing ↦
            absurd (ground (arith, rw (known', missing, by_id, by_pair, resolve_from) at done))
        | inr (mapped, there) ↦
            let (first', second') =
              settle_on-two a mapped id
                (rw (known', there, by_id, by_pair, resolve_from) at done) in
            (
              inr (ap some first', subst (λ s. elem s known ≡ true) first' known'),
              inr (pair, refl, there ∙ ap some second'),
            )
      ]
      | inr unknown ↦ elim (Option-cases (get pair external_map)) [
        | inl missing ↦
            absurd (ground (arith, rw (unknown, missing, by_id, by_pair, resolve_from) at done))
        | inr (mapped, there) ↦
            absurd (ground (arith, rw (unknown, there, by_id, by_pair, resolve_from) at done))
      ]
    ]
