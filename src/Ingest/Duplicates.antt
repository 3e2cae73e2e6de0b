-- ===== src/Ingest/Duplicates.antt =====
-- `_reject_duplicate_slots` of services/ingest.py.
use multi_agent_ad_optimizer.Prelude.{
  ℕ, ◌+◌, ◌≤◌, String, Bool, false, none, some, List, [], ◌∷◌, ◌++◌, inl, inr, length, keep, All,
  ◌≡◌, refl, ap, subst, arith, Bool-cases, Option-cases, List-cases, ==_sound, ==_refl, ltb,
  length-append, ◌==◌, pair_eq, option_eq, nat_eq, string_eq,
}
use multi_agent_ad_optimizer.Prelude.Dict.{
  Dict, get, put, get_or, get_or-put, get_or-none, get_or-some,
}
use multi_agent_ad_optimizer.Ingest.Records.{MetricSlot}
use multi_agent_ad_optimizer.Ingest.Placing.{
  Attributed, slot, group_slots, collisions, split_slots, reject_duplicate_slots,
}
use multi_agent_ad_optimizer.Ingest.Written.{Avoids, IsApart}

get-keep-none :
    {A : Type 0} (p : A → Bool) (k : MetricSlot) (v : A) (m : Dict MetricSlot A)
    → get k (keep (λ entry. p entry.1) m) ≡ none
    → get k m ≡ some v
    → p v ≡ false
unfolding get
get-keep-none p k v [] gone found = ground arith
get-keep-none p k v ((j, w) ∷ m) gone found = elim (Bool-cases (p w)) [
  | inl yes' ↦ elim (Bool-cases (j == k)) [
    | inl here ↦ absurd (ground (arith, gone, yes', here))
    | inr other ↦
        get-keep-none p k v m (ground (arith, gone, yes', other)) (ground (arith, found, other))
  ]
  | inr no' ↦ elim (Bool-cases (j == k)) [
    | inl here ↦ ground (arith, found, no', here)
    | inr other ↦ get-keep-none p k v m (ground (arith, gone, no')) (ground (arith, found, other))
  ]
]

module _ {F : Type 0} where
  -- How many records have the slot.
  abbrev occurrences : MetricSlot → List (Attributed F) → ℕ
  occurrences s items = length (keep (λ item. slot item == s) items)

  length-get_or-group_slots :
      (s : MetricSlot) (items : List (Attributed F)) (by_slot : Dict MetricSlot (List ℕ))
      → length (get_or s [] (group_slots items by_slot))
        ≡ length (get_or s [] by_slot) + occurrences s items
  unfolding group_slots
  length-get_or-group_slots s [] by_slot = omega arith
  length-get_or-group_slots s (item ∷ rest) by_slot =
      let before = get_or (slot item) [] by_slot in
      let ih =
        length-get_or-group_slots s rest (put (slot item) (before ++ item.index ∷ []) by_slot) in
      let own = get_or-put (slot item) s [] (before ++ item.index ∷ []) by_slot in
      elim (Bool-cases (slot item == s)) [
        | inl same ↦
            let here : slot item ≡ s = ==_sound (slot item) s same in
            rw same (
              omega (
                arith,
                ih,
                ap length (rw same at own),
                length-append before (item.index ∷ []),
                ap (λ t. length (get_or t [] by_slot)) here,
              ))
        | inr apart ↦ rw apart (omega (arith, ih, ap length (rw apart at own)))
      ]

  occurrences-collisions :
      (s : MetricSlot) (items : List (Attributed F))
      → get s (collisions items) ≡ none
      → occurrences s items ≤ 1
  unfolding collisions get
  occurrences-collisions s items clear =
      let tallied = length-get_or-group_slots s items [] in
      elim (Option-cases (get s (group_slots items []))) [
        | inl none' ↦
            omega (arith, tallied, ap length (get_or-none s [] (group_slots items []) none'))
        | inr (indexes, found) ↦
            let few : ltb 1 (length indexes) ≡ false =
              get-keep-none (λ is. ltb 1 (length is)) s indexes (group_slots items []) clear
                found in
            ground (
              arith,
              tallied,
              ap length (get_or-some s [] indexes (group_slots items []) found),
              few,
            )
      ]

  length-keep_suc :
      (p : Attributed F → Bool) (items : List (Attributed F))
      → length (keep p items) ≤ 0
      → All (λ item. p item ≡ false) items
  length-keep_suc p [] few = tt
  length-keep_suc p (item ∷ rest) few = elim (Bool-cases (p item)) [
    | inl yes' ↦ absurd (ground (arith, few, yes'))
    | inr no' ↦ (no', length-keep_suc p rest (ground (arith, few, no')))
  ]

  Avoids-split_slots :
      (str : ℕ → String) (clashing : Dict MetricSlot (List ℕ)) (s : MetricSlot)
      (items : List (Attributed F))
      → Avoids s items
      → Avoids s (split_slots str clashing items).1
  unfolding split_slots
  Avoids-split_slots str clashing s [] avoids = tt
  Avoids-split_slots str clashing s (item ∷ rest) (away, avoids) =
      elim (Option-cases (get (slot item) clashing)) [
        | inl alone ↦ rw (alone, split_slots) (away, Avoids-split_slots str clashing s rest avoids)
        | inr (indexes, clash) ↦
            rw (clash, split_slots) (Avoids-split_slots str clashing s rest avoids)
      ]

  split_slots-IsApart :
      (str : ℕ → String) (clashing : Dict MetricSlot (List ℕ)) (items : List (Attributed F))
      → ((s : MetricSlot) → get s clashing ≡ none → occurrences s items ≤ 1)
      → IsApart (split_slots str clashing items).1
  unfolding split_slots
  split_slots-IsApart str clashing [] few = tt
  split_slots-IsApart str clashing (item ∷ rest) few =
      let ih = split_slots-IsApart str clashing rest (λ s clear.
        elim (Bool-cases (slot item == s)) [
          | inl same ↦ ground (arith, few s clear, same)
          | inr apart ↦ ground (arith, few s clear, apart)
        ]) in
      elim (Option-cases (get (slot item) clashing)) [
        | inl alone ↦
            rw (alone, split_slots)
              (
                Avoids-split_slots str clashing (slot item) rest (
                    length-keep_suc (λ other. slot other == slot item) rest
                      (ground (arith, few (slot item) alone, ==_refl (slot item)))),
                ih,
              )
        | inr (indexes, clash) ↦ rw (clash, split_slots) ih
      ]

  split_slots-nil :
      (str : ℕ → String) (items : List (Attributed F)) → (split_slots str [] items).1 ≡ items
  unfolding split_slots get
  split_slots-nil str [] = refl
  split_slots-nil str (item ∷ rest) = ap (λ kept. item ∷ kept) (split_slots-nil str rest)

  -- No two of the records that are kept have one slot.
  pub reject_duplicate_slots-IsApart :
      (str : ℕ → String) (items : List (Attributed F))
      → IsApart (reject_duplicate_slots str items).1
  unfolding reject_duplicate_slots
  reject_duplicate_slots-IsApart str items =
      let split : IsApart (split_slots str (collisions items) items).1 =
        split_slots-IsApart str (collisions items) items (λ s. occurrences-collisions s items) in
      elim (List-cases (collisions items)) [
        | inl clear ↦ rw clear (
            subst IsApart (split_slots-nil str items)
              (subst (λ c. IsApart (split_slots str c items).1) clear split))
        | inr (entry, more, clash) ↦
            rw clash (subst (λ c. IsApart (split_slots str c items).1) clash split)
      ]
