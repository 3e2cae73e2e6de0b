-- ===== src/Budget/Conserve.antt =====
-- What the greedy fill of domain/budget.py places: within the bounds, and the whole total.
use multi_agent_ad_optimizer.Prelude.{
  ℕ, ◌+◌, ◌-◌, ◌≤◌, ◌<◌, min, List, [], ◌∷◌, leb, All, inl, inr, ◌≡◌, refl, arith, Bool-cases, ◌==◌,
  nat_eq, subst,
}
use multi_agent_ad_optimizer.Budget.Slots.{Slot, sum_lower, sum_upper}
use multi_agent_ad_optimizer.Budget.Fill.{untouched, fill_from, greedy_optimum}
use multi_agent_ad_optimizer.Budget.Holds.{slots}

abbrev pub sum_placed : List (Slot × ℕ) → ℕ
sum_placed [] = 0
sum_placed ((s, x) ∷ rest) = x + sum_placed rest

abbrev pub IsOrdered : Slot → Type 0
IsOrdered s = s.lower ≤ s.upper

-- An amount within the bounds of its slot.
abbrev pub Within : Slot × ℕ → Type 0
Within (s, x) = (s.lower ≤ x) × (x ≤ s.upper)

untouched-Within : (slots : List Slot) → All IsOrdered slots → All Within (untouched slots)
untouched-Within [] all = tt
untouched-Within (s ∷ rest) (ok, all) = (omega arith, untouched-Within rest all)

pub sum-untouched : (slots : List Slot) → sum_placed (untouched slots) ≡ sum_lower slots
sum-untouched [] = refl
sum-untouched (s ∷ rest) = omega (arith, sum-untouched rest)

sum_lower-le-upper : (slots : List Slot) → All IsOrdered slots → sum_lower slots ≤ sum_upper slots
sum_lower-le-upper [] all = omega arith
sum_lower-le-upper (s ∷ rest) (ok, all) = omega (arith, sum_lower-le-upper rest all)

module _ (epsilon : ℕ) where
  fill_from-Within :
      (remaining : ℕ) (slots : List Slot)
      → All IsOrdered slots
      → All Within (fill_from epsilon remaining slots)
  unfolding fill_from
  fill_from-Within remaining [] all = tt
  fill_from-Within remaining (s ∷ rest) (ok, all) = elim (Bool-cases (s.upper - s.lower == 0)) [
    | inl full ↦ rw full (omega arith, fill_from-Within remaining rest all)
    | inr room ↦
        rw room (elim (Bool-cases (leb (remaining - min (s.upper - s.lower) remaining) epsilon)) [
          | inl spent ↦ rw spent (omega arith, untouched-Within rest all)
          | inr left ↦ rw left (
            omega arith,
            fill_from-Within (remaining - min (s.upper - s.lower) remaining) rest all,
          )
        ])
  ]

  -- The fill places what it was given, but for a remainder of `epsilon`.
  abbrev pub Places : ℕ → List (Slot × ℕ) → Type 0
  Places total plan = (sum_placed plan ≤ total) × (total ≤ sum_placed plan + epsilon)

  fill_from-Places :
      (remaining : ℕ) (slots : List Slot)
      → All IsOrdered slots
      → sum_lower slots + remaining ≤ sum_upper slots
      → Places (sum_lower slots + remaining) (fill_from epsilon remaining slots)
  unfolding fill_from
  fill_from-Places remaining [] all fits = omega arith
  fill_from-Places remaining (s ∷ rest) (ok, all) fits =
      elim (Bool-cases (s.upper - s.lower == 0)) [
        | inl full ↦ rw full (
            let full' : s.upper - s.lower ≡ 0 = ground arith in
            omega (arith, full', fill_from-Places remaining rest all (omega (arith, full'))))
        | inr room ↦
            rw room
              (elim (Bool-cases (leb (remaining - min (s.upper - s.lower) remaining) epsilon)) [
                | inl spent ↦ rw spent (
                    let spent' : remaining - min (s.upper - s.lower) remaining ≤ epsilon =
                      ground arith in
                    omega (arith, spent', sum-untouched rest))
                | inr left ↦ rw left (
                    let more : epsilon < remaining - min (s.upper - s.lower) remaining =
                      ground arith in
                    omega (
                      arith,
                      more,
                      fill_from-Places (remaining - min (s.upper - s.lower) remaining) rest all
                          (omega (arith, more)),
                    ))
              ])
      ]

  -- `clamp` leaves a total between the bounds, which the greedy plan then places.
  pub greedy_optimum-Places :
      (total : ℕ) (slots : List Slot)
      → All IsOrdered slots
      → sum_lower slots ≤ total
      → total ≤ sum_upper slots
      → Places total (greedy_optimum epsilon total slots)
  unfolding greedy_optimum
  greedy_optimum-Places total slots all low high = elim (Bool-cases (leb total (sum_lower slots))) [
    | inl least ↦ rw least (
        let least' : total ≤ sum_lower slots = ground arith in
        omega (arith, least', sum-untouched slots))
    | inr more ↦ rw more (
        let exact : sum_lower slots + (total - sum_lower slots) ≡ total = omega (arith, low) in
        subst (λ t. Places t (fill_from epsilon (total - sum_lower slots) slots)) exact
          (fill_from-Places (total - sum_lower slots) slots all (omega (arith, low, high))))
  ]

  pub greedy_optimum-Within :
      (total : ℕ) (slots : List Slot)
      → All IsOrdered slots
      → All Within (greedy_optimum epsilon total slots)
  unfolding greedy_optimum
  greedy_optimum-Within total slots all = elim (Bool-cases (leb total (sum_lower slots))) [
    | inl least ↦ rw least (untouched-Within slots all)
    | inr more ↦ rw more (fill_from-Within (total - sum_lower slots) slots all)
  ]
