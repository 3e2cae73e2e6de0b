-- ===== src/Budget/Optimal.antt =====
-- The greedy fill of domain/budget.py against every other way of spending the same money. The
-- objective of the program is the sum of score times budget.
use native.Mathlib.Nat.{mul-le-mul_left, mul-le-mul_right}
use multi_agent_ad_optimizer.Prelude.{
  ℕ, ◌+◌, ◌-◌, ◌*◌, ◌≤◌, min, max, String, true, false, Option, List, [], ◌∷◌, map, leb, All, inl,
  inr, ◌≡◌, arith, Bool-cases, ◌==◌, nat_eq,
}
use multi_agent_ad_optimizer.Prelude.Dict.{Dict}
use multi_agent_ad_optimizer.Budget.Slots.{Snapshot, Change, Slot, sum_lower}
use multi_agent_ad_optimizer.Budget.Fill.{
  insert_sorted, sort_by, fill_order, visited_before, untouched, fill_from, greedy_optimum,
}
use multi_agent_ad_optimizer.Budget.Holds.{held_slots, allocate}
use multi_agent_ad_optimizer.Budget.Bounds.{insert_sorted-All}
use multi_agent_ad_optimizer.Budget.Conserve.{sum_placed, Within, sum-untouched}

-- The objective: each unit of budget is worth its campaign's score.
abbrev pub worth : List (Slot × ℕ) → ℕ
worth [] = 0
worth ((s, x) ∷ rest) = s.score * x + worth rest

-- Another plan for the same slots.
abbrev pub plan_by : (Slot → ℕ) → List Slot → List (Slot × ℕ)
plan_by amount slots = map (λ s. (s, amount s)) slots

abbrev AtMost : ℕ → Slot → Type 0
AtMost bound s = s.score ≤ bound

AtMost-le : (a b : ℕ) (slots : List Slot) → a ≤ b → All (AtMost a) slots → All (AtMost b) slots
AtMost-le a b [] le all = tt
AtMost-le a b (s ∷ rest) le (ok, all) = (omega (arith, ok, le), AtMost-le a b rest le all)

-- The scores fall along the list.
abbrev Falling : List Slot → Type 0
Falling [] = Unit
Falling (s ∷ rest) = All (AtMost s.score) rest × Falling rest

visited-score : (a b : Slot) → visited_before a b ≡ true → b.score ≤ a.score
unfolding visited_before
visited-score a b first = ground arith

waiting-score : (a b : Slot) → visited_before a b ≡ false → a.score ≤ b.score
unfolding visited_before
waiting-score a b later = ground arith

insert_sorted-Falling :
    (x : Slot) (slots : List Slot) → Falling slots → Falling (insert_sorted visited_before x slots)
unfolding insert_sorted
insert_sorted-Falling x [] falling = (tt, tt)
insert_sorted-Falling x (y ∷ ys) (least, falling) = elim (Bool-cases (visited_before y x)) [
  | inl first ↦ rw first (
    insert_sorted-All (AtMost y.score) visited_before x ys (visited-score y x first) least,
    insert_sorted-Falling x ys falling,
  )
  | inr later ↦ rw later (
    (waiting-score y x later, AtMost-le y.score x.score ys (waiting-score y x later) least),
    (least, falling),
  )
]

fill_order-Falling : (slots : List Slot) → Falling (fill_order slots)
unfolding fill_order sort_by
fill_order-Falling [] = tt
fill_order-Falling (s ∷ rest) =
    insert_sorted-Falling s (sort_by visited_before rest) (fill_order-Falling rest)

abbrev top_score : List Slot → ℕ
top_score [] = 0
top_score (s ∷ rest) = max s.score (top_score rest)

top_score-AtMost : (slots : List Slot) → All (AtMost (top_score slots)) slots
top_score-AtMost [] = tt
top_score-AtMost (s ∷ rest) =
    (omega arith, AtMost-le (top_score rest) _ rest (omega arith) (top_score-AtMost rest))

mul-split : (c : ℕ) {a : ℕ} (b d : ℕ) → a ≡ b + d → c * a ≡ c * b + c * d
mul-split c b d e = rw e (omega arith)

module _ (amount : Slot → ℕ) where
  -- What another plan puts on top of the lower bounds is worth at most the highest score for each unit.
  worth-untouched :
      (bound : ℕ) (slots : List Slot)
      → All (AtMost bound) slots
      → All Within (plan_by amount slots)
      → worth (plan_by amount slots) + bound * sum_lower slots
        ≤ worth (untouched slots) + bound * sum_placed (plan_by amount slots)
  worth-untouched bound [] scores within = omega arith
  worth-untouched bound (s ∷ rest) (score, scores) ((low, high), within) =
      let extra : s.score * (amount s - s.lower) ≤ bound * (amount s - s.lower) =
        mul-le-mul_right (amount s - s.lower) score in
      let exact : amount s ≡ s.lower + (amount s - s.lower) = omega (arith, low) in
      let mine : s.score * amount s ≡ s.score * s.lower + s.score * (amount s - s.lower) =
        mul-split s.score s.lower _ exact in
      let theirs : bound * amount s ≡ bound * s.lower + bound * (amount s - s.lower) =
        mul-split bound s.lower _ exact in
      let ih : worth (plan_by amount rest) + bound * sum_lower rest
          ≤ worth (untouched rest) + bound * sum_placed (plan_by amount rest) =
        worth-untouched bound rest scores within in
      omega (arith, extra, mine, theirs, ih)

  -- The fill against another plan that may spend `excess` more than it.
  fill_from-optimal :
      (epsilon bound remaining excess : ℕ) (slots : List Slot)
      → All (AtMost bound) slots
      → Falling slots
      → All Within (plan_by amount slots)
      → sum_placed (plan_by amount slots) ≤ sum_placed (fill_from epsilon remaining slots) + excess
      → worth (plan_by amount slots) ≤ worth (fill_from epsilon remaining slots) + bound * excess
  unfolding fill_from
  fill_from-optimal epsilon bound remaining excess [] scores falling within = λ more. omega arith
  fill_from-optimal epsilon bound remaining excess (s ∷ rest) (score, scores) (least, falling)
        ((low, high), within) =
      let cost : s.score * excess ≤ bound * excess = mul-le-mul_right excess score in
      let take = min (s.upper - s.lower) remaining in
      elim (Bool-cases (s.upper - s.lower == 0)) [
        | inl full ↦ rw full (λ more.
            let same : amount s ≡ s.lower = ground arith in
            let ih : worth (plan_by amount rest)
                ≤ worth (fill_from epsilon remaining rest) + s.score * excess =
              fill_from-optimal epsilon s.score remaining excess rest least falling within
                (omega (arith, more, same)) in
            rw same (omega (arith, ih, cost)))
        | inr room ↦ rw room (elim (Bool-cases (leb (remaining - take) epsilon)) [
          | inl spent ↦ rw spent (λ more.
              let below : s.score * (amount s + sum_placed (plan_by amount rest))
                  ≤ s.score * (s.lower + take + sum_lower rest + excess) =
                mul-le-mul_left s.score (omega (arith, more, sum-untouched rest)) in
              omega (arith, cost, below, worth-untouched s.score rest least within))
          | inr left ↦ rw left (λ more.
              let all : take ≡ s.upper - s.lower = ground arith in
              let spare = s.upper - amount s in
              let whole : s.lower + take ≡ amount s + spare = omega (arith, all, low, high) in
              let ih : worth (plan_by amount rest)
                  ≤ worth (fill_from epsilon (remaining - take) rest) + s.score * (excess + spare) =
                fill_from-optimal epsilon s.score (remaining - take) (excess + spare) rest least
                  falling within (omega (arith, more, whole)) in
              omega (arith, cost, ih, mul-split s.score (amount s) spare whole))
        ])
      ]

  greedy_optimum-optimal :
      (epsilon total : ℕ) (slots : List Slot)
      → Falling slots
      → All Within (plan_by amount slots)
      → sum_placed (plan_by amount slots) ≤ sum_placed (greedy_optimum epsilon total slots)
      → worth (plan_by amount slots) ≤ worth (greedy_optimum epsilon total slots)
  unfolding greedy_optimum
  greedy_optimum-optimal epsilon total slots falling within =
      let bound = top_score slots in
      let scores : All (AtMost bound) slots = top_score-AtMost slots in
      elim (Bool-cases (leb total (sum_lower slots))) [
        | inl least ↦ rw least (λ more.
            let dear : bound * sum_placed (plan_by amount slots) ≤ bound * sum_lower slots =
              mul-le-mul_left bound (omega (arith, more, sum-untouched slots)) in
            omega (arith, dear, worth-untouched bound slots scores within))
        | inr further ↦ rw further (λ more. omega (
          arith,
          fill_from-optimal epsilon bound (total - sum_lower slots) 0 slots scores falling within
              (omega (arith, more)),
        ))
      ]

-- Among all plans that keep the slots' bounds and spend no more than it, the plan of `allocate` has the
-- highest worth: the sum over the campaigns of score times budget.
pub allocate-optimal :
    (change : Change) (floor : ℕ) (snapshots : List Snapshot) (budgets : Dict String ℕ)
    (total : Option ℕ) (names : List String) (epsilon : ℕ) (amount : Slot → ℕ)
    → All Within
        (plan_by amount (fill_order (held_slots change floor snapshots budgets total names)))
    → sum_placed
        (plan_by amount (fill_order (held_slots change floor snapshots budgets total names)))
      ≤ sum_placed (allocate change floor snapshots budgets total names epsilon)
    → worth (plan_by amount (fill_order (held_slots change floor snapshots budgets total names)))
      ≤ worth (allocate change floor snapshots budgets total names epsilon)
unfolding allocate
allocate-optimal change floor snapshots budgets total names epsilon amount =
    greedy_optimum-optimal amount epsilon _ _
      (fill_order-Falling (held_slots change floor snapshots budgets total names))
