-- ===== src/Budget/Sums.antt =====
-- The sums of a list of slots in domain/budget.py, through its sorting and its holds.
use multi_agent_ad_optimizer.Prelude.{
  ℕ, String, Bool, not, ◌||◌, any, List, [], ◌∷◌, map, ltb, inl, inr, ◌≡◌, refl, arith, Bool-cases,
  nat_eq, string_eq,
}
use multi_agent_ad_optimizer.Budget.Slots.{Slot, sum_lower, sum_upper, sum_current, headroom}
use multi_agent_ad_optimizer.Budget.Fill.{insert_sorted, sort_by}
use multi_agent_ad_optimizer.Budget.Holds.{
  hold, release, release_from, apply_holds, slots, requested,
}

module _ (before : Slot → Slot → Bool) where
  pub sum_lower-insert_sorted :
      (s : Slot) (slots : List Slot)
      → sum_lower (insert_sorted before s slots) ≡ sum_lower (s ∷ slots)
  unfolding insert_sorted
  sum_lower-insert_sorted s [] = refl
  sum_lower-insert_sorted s (t ∷ rest) = ground (arith, sum_lower-insert_sorted s rest)

  pub sum_lower-sort_by : (slots : List Slot) → sum_lower (sort_by before slots) ≡ sum_lower slots
  unfolding sort_by
  sum_lower-sort_by [] = refl
  sum_lower-sort_by (s ∷ rest) =
      omega (arith, sum_lower-insert_sorted s (sort_by before rest), sum_lower-sort_by rest)

  pub sum_upper-insert_sorted :
      (s : Slot) (slots : List Slot)
      → sum_upper (insert_sorted before s slots) ≡ sum_upper (s ∷ slots)
  unfolding insert_sorted
  sum_upper-insert_sorted s [] = refl
  sum_upper-insert_sorted s (t ∷ rest) = ground (arith, sum_upper-insert_sorted s rest)

  pub sum_upper-sort_by : (slots : List Slot) → sum_upper (sort_by before slots) ≡ sum_upper slots
  unfolding sort_by
  sum_upper-sort_by [] = refl
  sum_upper-sort_by (s ∷ rest) =
      omega (arith, sum_upper-insert_sorted s (sort_by before rest), sum_upper-sort_by rest)

-- Holds and releases leave every current budget.
pub sum_current-hold :
    (names : List String) (slots : List Slot)
    → sum_current (map (hold names) slots) ≡ sum_current slots
sum_current-hold names [] = refl
sum_current-hold names (s ∷ rest) = ground (arith, sum_current-hold names rest)

pub sum_current-release :
    (bound_of : ℕ → ℕ) (index : ℕ) (slots : List Slot)
    → sum_current (release bound_of index slots) ≡ sum_current slots
unfolding release
sum_current-release bound_of index [] = refl
sum_current-release bound_of index (s ∷ rest) =
    ground (arith, sum_current-release bound_of index rest)

pub sum_current-release_from :
    (requested : ℕ) (bound_of : ℕ → ℕ) (order slots : List Slot)
    → sum_current (release_from requested bound_of order slots) ≡ sum_current slots
unfolding release_from
sum_current-release_from requested bound_of [] slots = refl
sum_current-release_from requested bound_of (s ∷ order) slots =
    let released = release bound_of s.index slots in
    let kept : sum_current released ≡ sum_current slots =
      sum_current-release bound_of s.index slots in
    elim (Bool-cases (ltb 0 (headroom released requested))) [
      | inl moves ↦ rw moves kept
      | inr stuck ↦
          rw stuck (omega (arith, kept, sum_current-release_from requested bound_of order released))
    ]

pub sum_current-apply_holds :
    (requested : ℕ) (bound_of : ℕ → ℕ) (names : List String) (slots : List Slot)
    → sum_current (apply_holds requested bound_of names slots) ≡ sum_current slots
unfolding apply_holds
sum_current-apply_holds requested bound_of names slots =
    let pinned = map (hold names) slots in
    let kept : sum_current pinned ≡ sum_current slots = sum_current-hold names slots in
    elim (Bool-cases (not (any (λ s. s.held) pinned) || ltb 0 (headroom pinned requested))) [
      | inl moves ↦ rw moves kept
      | inr stuck ↦
          rw stuck (omega (arith, kept, sum_current-release_from requested bound_of _ pinned))
    ]
