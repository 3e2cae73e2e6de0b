-- ===== src/Ingest/Resolved.antt =====
-- What `_resolve_campaign` of services/ingest.py and the lookups of `_attribute` answer.
use multi_agent_ad_optimizer.Prelude.{
  String, Bool, true, some, List, [], ◌∷◌, ◌⊎◌, inl, inr, map, keep, elem, In, ◌≡◌, refl, ap, ◌∙◌,
  subst, arith, Bool-cases, Option-cases, ==_sound, Eq, ◌==◌, pair_eq, option_eq, nat_eq, string_eq,
}
use multi_agent_ad_optimizer.Prelude.Dict.{Dict, get, put, get-put}
use multi_agent_ad_optimizer.Ingest.Records.{CampaignRow, CreativeRow}
use multi_agent_ad_optimizer.Ingest.Tables.{
  coordinates, matches_pairs, note_pairs, found_pairs, pick_pairs, ids_by_external, existing_ids,
  owners_of, campaign_by_id,
}

module _ {A : Type 0} where
  pub keep-In : (a : A) (p : A → Bool) (xs : List A) → In a (keep p xs) → In a xs
  keep-In a p [] m = m
  keep-In a p (x ∷ xs) m = elim (Bool-cases (p x)) [
    | inl yes' ↦ elim (rw yes' at m) [
      | inl here ↦ inl here
      | inr later ↦ inr (keep-In a p xs later)
    ]
    | inr no' ↦ inr (keep-In a p xs (rw no' at m))
  ]

  elem-map-In :
      (f : A → String) (s : String) (xs : List A)
      → elem s (map f xs) ≡ true
      → (a : A) × In a xs × (f a ≡ s)
  elem-map-In f s [] m = ground (arith, m)
  elem-map-In f s (x ∷ xs) m = elim (Bool-cases (f x == s)) [
    | inl here ↦ (x, inl refl, ==_sound (f x) s here)
    | inr other ↦
        let (a, later, named) = elem-map-In f s xs (ground (arith, m, other)) in
        (a, inr later, named)
  ]

-- The row of an id that `existing_ids` answers.
pub existing_ids-In :
    (id : String) (ids : List String) (campaigns : List CampaignRow)
    → elem id (existing_ids ids campaigns) ≡ true
    → (c : CampaignRow) × In c campaigns × (c.id ≡ id)
unfolding existing_ids
existing_ids-In id [] campaigns m = ground (arith, m)
existing_ids-In id (i ∷ ids) campaigns m =
    let (c, kept, named) =
      elem-map-In (λ row. row.id) id (keep (λ row. elem row.id (i ∷ ids)) campaigns) m in
    (c, keep-In c (λ row. elem row.id (i ∷ ids)) campaigns kept, named)

-- What a written dictionary answers was there before or is the value just written.
get-put_cases :
    {V : Type 0} {K : Type 0} ⦃e : Eq K⦄ (k j : K) (v w : V) (m : Dict K V)
    → get j (put k v m) ≡ some w
    → ((k ≡ j) × (v ≡ w)) ⊎ (get j m ≡ some w)
get-put_cases k j v w m found = elim (Bool-cases (k == j)) [
  | inl same ↦ inl (==_sound k j same, ground (arith, found, get-put k j v m, same))
  | inr apart ↦ inr (ground (arith, found, get-put k j v m, apart))
]

get-owners_of :
    (id owner : String) (rows : List CreativeRow) (owners : Dict String String)
    → get id (owners_of rows owners) ≡ some owner
    → ((c : CreativeRow) × In c rows × (c.id ≡ id) × (c.campaign_id ≡ owner))
      ⊎ (get id owners ≡ some owner)
unfolding owners_of
get-owners_of id owner [] owners found = inr found
get-owners_of id owner (row ∷ rows) owners found =
    elim (get-owners_of id owner rows (put row.id row.campaign_id owners) found) [
      | inl (c, later, named, owned) ↦ inl (c, inr later, named, owned)
      | inr first ↦ elim (get-put_cases row.id id row.campaign_id owner owners first) [
        | inl (named, owned) ↦ inl (row, inl refl, named, owned)
        | inr before ↦ inr before
      ]
    ]

-- The row of a creative that `campaign_by_id` answers.
pub campaign_by_id-In :
    (id owner : String) (ids : List String) (creatives : List CreativeRow)
    → get id (campaign_by_id ids creatives) ≡ some owner
    → (c : CreativeRow) × In c creatives × (c.id ≡ id) × (c.campaign_id ≡ owner)
unfolding campaign_by_id get
campaign_by_id-In id owner [] creatives found = ground (arith, found)
campaign_by_id-In id owner (i ∷ ids) creatives found =
    elim (get-owners_of id owner (keep (λ row. elem row.id (i ∷ ids)) creatives) [] found) [
      | inl (c, kept, named, owned) ↦
          (c, keep-In c (λ row. elem row.id (i ∷ ids)) creatives kept, named, owned)
      | inr impossible ↦ ground (arith, impossible)
    ]

-- A campaign that carries the coordinates.
abbrev pub Carries : String × String → String → List CampaignRow → Type 0
Carries pair id campaigns =
    (c : CampaignRow) × In c campaigns × (c.id ≡ id) × (coordinates c ≡ pair ∷ [])

get-found_pairs :
    (pair : String × String) (id : String) (rows : List CampaignRow)
    (found : Dict (String × String) String)
    → get pair (found_pairs rows found) ≡ some id
    → Carries pair id rows ⊎ (get pair found ≡ some id)
unfolding found_pairs note_pairs
get-found_pairs pair id [] found was = inr was
get-found_pairs pair id (row ∷ rows) found was =
    elim (get-found_pairs pair id rows (note_pairs (coordinates row) row.id found) was) [
      | inl (c, later, named, carries) ↦ inl (c, inr later, named, carries)
      | inr first ↦ elim (Option-cases row.external_id) [
        | inl none' ↦
            let bare : coordinates row ≡ [] = rw (none', coordinates) refl in
            inr (subst (λ o. get pair (note_pairs o row.id found) ≡ some id) bare first)
        | inr (external, there) ↦
            let carried : coordinates row ≡ (row.platform, external) ∷ [] =
              rw (there, coordinates) refl in
            elim (get-put_cases (row.platform, external) pair row.id id found
              (subst (λ o. get pair (note_pairs o row.id found) ≡ some id) carried first)) [
                | inl (same, named) ↦ inl (row, inl refl, named, carried ∙ ap (λ p. p ∷ []) same)
                | inr before ↦ inr before
              ]
      ]
    ]

get-pick_pairs :
    (pair : String × String) (id : String) (wanted : List (String × String))
    (found : Dict (String × String) String)
    → get pair (pick_pairs wanted found) ≡ some id
    → get pair found ≡ some id
unfolding pick_pairs get
get-pick_pairs pair id [] found was = ground (arith, was)
get-pick_pairs pair id (p ∷ wanted) found was = elim (Option-cases (get p found)) [
  | inl none' ↦ get-pick_pairs pair id wanted found (rw (none', pick_pairs) at was)
  | inr (other, there) ↦
      elim (get-put_cases p pair other id (pick_pairs wanted found)
        (rw (there, pick_pairs) at was)) [
          | inl (same, named) ↦ subst (λ q. get q found ≡ some id) same (there ∙ ap some named)
          | inr before ↦ get-pick_pairs pair id wanted found before
        ]
]

-- The row of coordinates that `ids_by_external` answers.
pub ids_by_external-Carries :
    (pair : String × String) (id : String) (pairs : List (String × String))
    (campaigns : List CampaignRow)
    → get pair (ids_by_external pairs campaigns) ≡ some id
    → Carries pair id campaigns
unfolding ids_by_external get
ids_by_external-Carries pair id [] campaigns was = ground (arith, was)
ids_by_external-Carries pair id (p ∷ pairs) campaigns was =
    elim (get-found_pairs pair id (keep (matches_pairs (p ∷ pairs)) campaigns) [] (
      get-pick_pairs pair id (p ∷ pairs)
        (found_pairs (keep (matches_pairs (p ∷ pairs)) campaigns) []) was)) [
          | inl (c, kept, named, carries) ↦
              (c, keep-In c (matches_pairs (p ∷ pairs)) campaigns kept, named, carries)
          | inr impossible ↦ ground (arith, impossible)
        ]
