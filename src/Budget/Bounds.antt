-- ===== src/Budget/Bounds.antt =====
-- The bounds of every slot, from the snapshots to the plan of `allocate` in domain/budget.py.
use native.Mathlib.Nat.{mul-le-mul_left, mul-le-mul_right}
use multi_agent_ad_optimizer.Prelude.{
  ℕ, suc, ◌+◌, ◌-◌, ◌*◌, ◌≤◌, max, String, Bool, false, not, ◌||◌, any, Option, List, [], ◌∷◌, map,
  ltb, All, ◌⊎◌, inl, inr, ◌≡◌, refl, arith, Bool-cases, ◌==◌, nat_eq, string_eq, if◌then◌else◌,
}
use multi_agent_ad_optimizer.Prelude.Dict.{Dict}
use multi_agent_ad_optimizer.Budget.Slots.{
  Snapshot, Change, clamped, floor_of, Slot, slot_of, slots_from, headroom, baseline, eligible,
}
use multi_agent_ad_optimizer.Budget.Fill.{insert_sorted, sort_by}
use multi_agent_ad_optimizer.Budget.Holds.{
  hold, release, release_from, apply_holds, held_slots, slots,
}

module _ {A : Type 0} (P : A → Type 0) (before : A → A → Bool) where
  pub insert_sorted-All : (x : A) (xs : List A) → P x → All P xs → All P (insert_sorted before x xs)
  unfolding insert_sorted
  insert_sorted-All x [] p all = (p, tt)
  insert_sorted-All x (y ∷ ys) p (q, all) = elim (Bool-cases (before y x)) [
    | inl first ↦ rw first (q, insert_sorted-All x ys p all)
    | inr later ↦ rw later (p, (q, all))
  ]

  pub sort_by-All : (xs : List A) → All P xs → All P (sort_by before xs)
  unfolding sort_by
  sort_by-All [] all = tt
  sort_by-All (x ∷ xs) (p, all) = insert_sorted-All x (sort_by before xs) p (sort_by-All xs all)

module _ (change : Change) (floor : ℕ) where
  -- What holds of every slot: its bounds lie around the current budget, and a hold pins the lower one.
  pub record IsSlot (s : Slot) : Type 0 where
    pub unheld : floor_of change floor s.budget ≤ s.lower
    pub below : s.lower ≤ s.current
    pub above : s.current ≤ s.upper
    pub upper : s.upper ≡ s.budget * (change.den + change.num)
    pub current : s.current ≡ s.budget * change.den
    pub restored : floor_of change floor s.budget ≤ s.current
    pub pinned : (s.held ≡ false) ⊎ (s.lower ≡ s.current)

  slot_of-IsSlot :
      (budgets : Dict String ℕ) (index : ℕ) (snapshot : Snapshot)
      → IsSlot (slot_of change floor budgets index snapshot)
  unfolding slot_of
  slot_of-IsSlot budgets index snapshot =
      let budget = max (baseline budgets snapshot) floor in
      let cut : budget * (change.den - change.num) ≤ budget * change.den =
        mul-le-mul_left budget (omega arith) in
      let kept : floor * change.den ≤ budget * change.den =
        mul-le-mul_right change.den (omega arith) in
      let raised : budget * change.den ≤ budget * (change.den + change.num) =
        mul-le-mul_left budget (omega arith) in
      record {
        unheld = omega arith;
        below = omega (arith, cut, kept);
        above = raised;
        upper = refl;
        current = refl;
        restored = omega (arith, cut, kept);
        pinned = inl refl;
      }

  slots_from-IsSlot :
      (budgets : Dict String ℕ) (index : ℕ) (snapshots : List Snapshot)
      → All IsSlot (slots_from change floor budgets index snapshots)
  unfolding slots_from
  slots_from-IsSlot budgets index [] = tt
  slots_from-IsSlot budgets index (snapshot ∷ rest) =
      (slot_of-IsSlot budgets index snapshot, slots_from-IsSlot budgets (suc index) rest)

  hold-IsSlot : (names : List String) (s : Slot) → IsSlot s → IsSlot (hold names s)
  hold-IsSlot names s ok = ground arith

  map-hold-IsSlot :
      (names : List String) (slots : List Slot)
      → All IsSlot slots
      → All IsSlot (map (hold names) slots)
  map-hold-IsSlot names [] all = tt
  map-hold-IsSlot names (s ∷ rest) (ok, all) =
      (hold-IsSlot names s ok, map-hold-IsSlot names rest all)

  released-IsSlot :
      (index : ℕ) (t : Slot)
      → IsSlot t
      → IsSlot (
          if t.index == index
          then record t { lower = floor_of change floor t.budget; held = false }
          else t)
  released-IsSlot index t ok = ground arith

  release-IsSlot :
      (index : ℕ) (slots : List Slot)
      → All IsSlot slots
      → All IsSlot (release (floor_of change floor) index slots)
  unfolding release
  release-IsSlot index [] all = tt
  release-IsSlot index (t ∷ rest) (ok, all) =
      (released-IsSlot index t ok, release-IsSlot index rest all)

  release_from-IsSlot :
      (requested : ℕ) (order slots : List Slot)
      → All IsSlot slots
      → All IsSlot (release_from requested (floor_of change floor) order slots)
  unfolding release_from
  release_from-IsSlot requested [] slots all = all
  release_from-IsSlot requested (s ∷ order) slots all =
      let released = release (floor_of change floor) s.index slots in
      elim (Bool-cases (ltb 0 (headroom released requested))) [
        | inl moves ↦ rw moves (release-IsSlot s.index slots all)
        | inr stuck ↦
            rw stuck
              (release_from-IsSlot requested order released (release-IsSlot s.index slots all))
      ]

  apply_holds-IsSlot :
      (requested : ℕ) (names : List String) (slots : List Slot)
      → All IsSlot slots
      → All IsSlot (apply_holds requested (floor_of change floor) names slots)
  unfolding apply_holds
  apply_holds-IsSlot requested names slots all =
      let pinned = map (hold names) slots in
      elim (Bool-cases (not (any (λ s. s.held) pinned) || ltb 0 (headroom pinned requested))) [
        | inl moves ↦ rw moves (map-hold-IsSlot names slots all)
        | inr stuck ↦
            rw stuck (release_from-IsSlot requested _ pinned (map-hold-IsSlot names slots all))
      ]

module _ (change : Change) (floor : ℕ) (snapshots : List Snapshot) (budgets : Dict String ℕ)
    (total : Option ℕ) (names : List String) where
  pub held_slots-IsSlot :
      All (IsSlot (clamped change) floor) (held_slots change floor snapshots budgets total names)
  unfolding held_slots slots
  held_slots-IsSlot =
      apply_holds-IsSlot (clamped change) floor _ names _
        (slots_from-IsSlot (clamped change) floor budgets 0 (eligible snapshots))
