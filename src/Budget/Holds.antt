-- ===== src/Budget/Holds.antt =====
-- `_apply_holds` and `allocate` of domain/budget.py.
use Prim.Native.Nat.{Ordering}
use Prim.Native.String.{compare as compare_text}
use multi_agent_ad_optimizer.Prelude.{
  ℕ, String, Bool, true, false, not, ◌&&◌, ◌||◌, Option, List, [], ◌∷◌, map, any, keep, elem, ltb,
  if◌then◌else◌, ◌==◌, nat_eq, string_eq, otherwise,
}
use multi_agent_ad_optimizer.Prelude.Dict.{Dict}
use multi_agent_ad_optimizer.Budget.Slots.{
  Snapshot, Change, clamped, floor_of, Slot, eligible, slots_from, sum_lower, sum_upper,
  sum_current, headroom, clamp,
}
use multi_agent_ad_optimizer.Budget.Fill.{sort_by, fill_order, greedy_optimum}

-- A hold pins the lower bound of a named campaign to its current budget.
abbrev pub hold : List String → Slot → Slot
hold names s = if elem s.campaign_id names then record s { lower = s.current; held = true } else s

-- Weakest score first, then by id.
unfoldable pub released_before : Slot → Slot → Bool
released_before a b =
    ltb a.score b.score
    || (a.score == b.score
        && elim (compare_text a.campaign_id b.campaign_id) [ Ordering.lt ↦ true | _ ↦ false ])

-- `lower[index] = …; effective.discard(index)`
unfoldable pub release : (ℕ → ℕ) → ℕ → List Slot → List Slot
release bound_of index [] = []
release bound_of index (t ∷ rest) =
    (if t.index == index then record t { lower = bound_of t.budget; held = false } else t)
    ∷ release bound_of index rest

module _ (requested : ℕ) (bound_of : ℕ → ℕ) where
  -- The loop over `release_order`.
  unfoldable pub release_from : List Slot → List Slot → List Slot
  release_from [] slots = slots
  release_from (s ∷ order) slots =
      let released = release bound_of s.index slots in
      let further = release_from order released in
      if ltb 0 (headroom released requested) then released else further

  unfoldable pub apply_holds : List String → List Slot → List Slot
  apply_holds names slots =
      let pinned = map (hold names) slots in
      let effective = keep (λ s. s.held) pinned in
      if not (any (λ s. s.held) pinned) || ltb 0 (headroom pinned requested)
      then pinned
      else release_from (sort_by released_before effective) pinned

-- `allocate`: the slots as the fill receives them, and the greedy plan, listed in fill order.
module _ (change : Change) (floor : ℕ) (snapshots : List Snapshot) (budgets : Dict String ℕ)
    (total : Option ℕ) (names : List String) where
  unfoldable pub slots : List Slot
  slots = slots_from (clamped change) floor budgets 0 (eligible snapshots)

  unfoldable pub requested : ℕ
  requested = otherwise (sum_current slots) total

  unfoldable pub held_slots : List Slot
  held_slots = apply_holds requested (floor_of (clamped change) floor) names slots

  unfoldable pub allocate : ℕ → List (Slot × ℕ)
  allocate epsilon =
      greedy_optimum epsilon (clamp requested (sum_lower held_slots) (sum_upper held_slots))
        (fill_order held_slots)
