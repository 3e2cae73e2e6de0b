-- ===== src/Budget/Fill.antt =====
-- `_fill_order` and `_greedy_optimum` of domain/budget.py. The filled slots are listed in the order in
-- which the fill visits them. `epsilon` is the remainder at which the program stops, 1e-9 of the
-- caller's unit.
use Prim.Native.Nat.{Ordering}
use Prim.Native.String.{compare as compare_text}
use multi_agent_ad_optimizer.Prelude.{
  ℕ, ◌+◌, ◌-◌, min, Bool, true, false, ◌&&◌, ◌||◌, List, [], ◌∷◌, map, ltb, leb, if◌then◌else◌,
  ◌==◌, nat_eq,
}
use multi_agent_ad_optimizer.Budget.Slots.{Slot, sum_lower}

-- Whether a slot is visited strictly before another: by score, then by ROAS, both descending, then by id.
unfoldable pub visited_before : Slot → Slot → Bool
visited_before a b =
    ltb b.score a.score
    || (a.score == b.score
        && (ltb b.roas a.roas
            || (a.roas == b.roas && elim (compare_text a.campaign_id b.campaign_id) [
              | Ordering.lt ↦ true
              | _ ↦ false
            ])))

module _ {A : Type 0} where
  -- `sorted` by a strict order: equal items keep their order.
  unfoldable pub insert_sorted : (A → A → Bool) → A → List A → List A
  insert_sorted before x [] = x ∷ []
  insert_sorted before x (y ∷ ys) = if before y x then y ∷ insert_sorted before x ys else x ∷ y ∷ ys

  unfoldable pub sort_by : (A → A → Bool) → List A → List A
  sort_by before [] = []
  sort_by before (x ∷ xs) = insert_sorted before x (sort_by before xs)

-- `_fill_order`
unfoldable pub fill_order : List Slot → List Slot
fill_order slots = sort_by visited_before slots

abbrev pub untouched : List Slot → List (Slot × ℕ)
untouched slots = map (λ s. (s, s.lower)) slots

-- The loop of `_greedy_optimum`, with what remains to be placed.
unfoldable pub fill_from : ℕ → ℕ → List Slot → List (Slot × ℕ)
fill_from epsilon remaining [] = []
fill_from epsilon remaining (s ∷ rest) =
    let room = s.upper - s.lower in
    let take = min room remaining in
    let skipped = fill_from epsilon remaining rest in
    let further = fill_from epsilon (remaining - take) rest in
    if room == 0
    then (s, s.lower) ∷ skipped
    else (s, s.lower + take) ∷ (if leb (remaining - take) epsilon then untouched rest else further)

-- `_greedy_optimum`
unfoldable pub greedy_optimum : ℕ → ℕ → List Slot → List (Slot × ℕ)
greedy_optimum epsilon total slots =
    if leb total (sum_lower slots)
    then untouched slots
    else fill_from epsilon (total - sum_lower slots) slots
