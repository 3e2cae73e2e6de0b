-- ===== src/Budget/Plan.antt =====
-- The plan of `allocate` in domain/budget.py: its bounds, its total, and that holds and the order of
-- the fill leave the current budgets as they are.
use multi_agent_ad_optimizer.Prelude.{
  ℕ, ◌+◌, ◌-◌, ◌*◌, ◌≤◌, min, String, false, Option, none, List, [], ◌∷◌, leb, All, ◌⊎◌, inl, inr,
  ◌≡◌, arith, Bool-cases, ◌==◌, nat_eq, string_eq, subst,
}
use multi_agent_ad_optimizer.Prelude.Dict.{Dict}
use multi_agent_ad_optimizer.Budget.Slots.{
  Snapshot, Change, clamped, clamp, floor_of, Slot, sum_lower, sum_upper, sum_current,
}
use multi_agent_ad_optimizer.Budget.Fill.{
  fill_order, visited_before, untouched, fill_from, greedy_optimum,
}
use multi_agent_ad_optimizer.Budget.Holds.{held_slots, allocate, slots, requested}
use multi_agent_ad_optimizer.Budget.Bounds.{IsSlot, sort_by-All, held_slots-IsSlot}
use multi_agent_ad_optimizer.Budget.Sums.{
  sum_lower-sort_by, sum_upper-sort_by, sum_current-apply_holds,
}
use multi_agent_ad_optimizer.Budget.Conserve.{
  IsOrdered, Within, Places, greedy_optimum-Within, greedy_optimum-Places,
}

-- A statement about the slot of an amount.
abbrev pub OnSlot : (Slot → Type 0) → Slot × ℕ → Type 0
OnSlot P (s, x) = P s

module _ (change : Change) (floor : ℕ) where
  pub IsSlot-IsOrdered : (slots : List Slot) → All (IsSlot change floor) slots → All IsOrdered slots
  IsSlot-IsOrdered [] all = tt
  IsSlot-IsOrdered (s ∷ rest) (ok, all) =
      (omega (arith, ok.below, ok.above), IsSlot-IsOrdered rest all)

  sum_current-bounds :
      (slots : List Slot)
      → All (IsSlot change floor) slots
      → (sum_lower slots ≤ sum_current slots) × (sum_current slots ≤ sum_upper slots)
  sum_current-bounds [] all = omega arith
  sum_current-bounds (s ∷ rest) (ok, all) =
      omega (arith, ok.below, ok.above, sum_current-bounds rest all)

  -- What a plan promises a campaign: a budget within the allowed change and not under the floor, and
  -- at least the current one while it is held.
  abbrev pub IsFair : Slot × ℕ → Type 0
  IsFair (s, x) =
      (floor_of change floor s.budget ≤ x)
      × ((x ≤ s.budget * (change.den + change.num))
          × ((s.held ≡ false) ⊎ (s.budget * change.den ≤ x)))

  pub plan-IsFair :
      (plan : List (Slot × ℕ))
      → All (OnSlot (IsSlot change floor)) plan
      → All Within plan
      → All IsFair plan
  plan-IsFair [] oks within = tt
  plan-IsFair ((s, x) ∷ rest) (ok, oks) ((low, high), within) =
      let kept : (s.held ≡ false) ⊎ (s.budget * change.den ≤ x) = elim ok.pinned [
        | inl free ↦ inl free
        | inr pinned ↦ inr (omega (arith, pinned, ok.current, low))
      ] in
      (
        (omega (arith, ok.unheld, low), (omega (arith, ok.upper, high), kept)),
        plan-IsFair rest oks within,
      )

module _ (P : Slot → Type 0) where
  untouched-All : (slots : List Slot) → All P slots → All (OnSlot P) (untouched slots)
  untouched-All [] all = tt
  untouched-All (s ∷ rest) (p, all) = (p, untouched-All rest all)

  fill_from-All :
      (epsilon remaining : ℕ) (slots : List Slot)
      → All P slots
      → All (OnSlot P) (fill_from epsilon remaining slots)
  unfolding fill_from
  fill_from-All epsilon remaining [] all = tt
  fill_from-All epsilon remaining (s ∷ rest) (p, all) = elim (Bool-cases (s.upper - s.lower == 0)) [
    | inl full ↦ rw full (p, fill_from-All epsilon remaining rest all)
    | inr room ↦
        rw room (elim (Bool-cases (leb (remaining - min (s.upper - s.lower) remaining) epsilon)) [
          | inl spent ↦ rw spent (p, untouched-All rest all)
          | inr left ↦
              rw left
                (p, fill_from-All epsilon (remaining - min (s.upper - s.lower) remaining) rest all)
        ])
  ]

  greedy_optimum-All :
      (epsilon total : ℕ) (slots : List Slot)
      → All P slots
      → All (OnSlot P) (greedy_optimum epsilon total slots)
  unfolding greedy_optimum
  greedy_optimum-All epsilon total slots all = elim (Bool-cases (leb total (sum_lower slots))) [
    | inl least ↦ rw least (untouched-All slots all)
    | inr more ↦ rw more (fill_from-All epsilon (total - sum_lower slots) slots all)
  ]

module _ (change : Change) (floor : ℕ) (snapshots : List Snapshot) (budgets : Dict String ℕ)
    (total : Option ℕ) (names : List String) (epsilon : ℕ) where
  pub fill_order-IsSlot :
      All
        (IsSlot (clamped change) floor)
        (fill_order (held_slots change floor snapshots budgets total names))
  unfolding fill_order
  fill_order-IsSlot =
      sort_by-All (IsSlot (clamped change) floor) visited_before _
        (held_slots-IsSlot change floor snapshots budgets total names)

  -- Every budget of the plan lies between the allowed cut, or the floor where that is higher, and the
  -- allowed raise of the campaign's current budget, and a campaign whose hold is in effect keeps at
  -- least its current budget.
  pub allocate-IsFair :
      All
        (IsFair (clamped change) floor)
        (allocate change floor snapshots budgets total names epsilon)
  unfolding allocate
  allocate-IsFair =
      plan-IsFair (clamped change) floor _
        (greedy_optimum-All (IsSlot (clamped change) floor) epsilon _ _ fill_order-IsSlot)
        (greedy_optimum-Within epsilon _ _
          (IsSlot-IsOrdered (clamped change) floor _ fill_order-IsSlot))

  -- The plan places the requested total, clamped to what the bounds allow, up to a remainder of
  -- `epsilon` that stays unplaced.
  pub allocate-Places :
      Places epsilon
        (clamp
          (requested change floor snapshots budgets total names)
          (sum_lower (held_slots change floor snapshots budgets total names))
          (sum_upper (held_slots change floor snapshots budgets total names)))
        (allocate change floor snapshots budgets total names epsilon)
  unfolding allocate fill_order
  allocate-Places =
      let held = held_slots change floor snapshots budgets total names in
      let all : All (IsSlot (clamped change) floor) held =
        held_slots-IsSlot change floor snapshots budgets total names in
      let lower : sum_lower (fill_order held) ≡ sum_lower held =
        sum_lower-sort_by visited_before held in
      let upper : sum_upper (fill_order held) ≡ sum_upper held =
        sum_upper-sort_by visited_before held in
      greedy_optimum-Places epsilon _ (fill_order held)
        (IsSlot-IsOrdered (clamped change) floor _ fill_order-IsSlot)
        (omega (arith, lower, sum_current-bounds (clamped change) floor held all))
        (omega (arith, upper, sum_current-bounds (clamped change) floor held all))

-- Without a requested total the plan spends what the campaigns spend now, up to a remainder of
-- `epsilon`: it only moves budget between them.
pub allocate-neutral :
    (change : Change) (floor : ℕ) (snapshots : List Snapshot) (budgets : Dict String ℕ)
    (names : List String) (epsilon : ℕ)
    → Places epsilon
        (sum_current (slots change floor snapshots budgets none names))
        (allocate change floor snapshots budgets none names epsilon)
unfolding held_slots requested
allocate-neutral change floor snapshots budgets names epsilon =
    let current = sum_current (slots change floor snapshots budgets none names) in
    let held = held_slots change floor snapshots budgets none names in
    let kept : sum_current held ≡ current = sum_current-apply_holds current _ names _ in
    let bounds : (sum_lower held ≤ sum_current held) × (sum_current held ≤ sum_upper held) =
      sum_current-bounds (clamped change) floor held
        (held_slots-IsSlot change floor snapshots budgets none names) in
    let exact : clamp current (sum_lower held) (sum_upper held) ≡ current =
      omega (arith, kept, bounds) in
    subst (λ t. Places epsilon t (allocate change floor snapshots budgets none names epsilon)) exact
      (allocate-Places change floor snapshots budgets none names epsilon)
