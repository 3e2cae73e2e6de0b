-- ===== src/Budget/Rounded.antt =====
-- The plan as `allocate` of domain/budget.py returns it: after the cross check with a solver, whose
-- plan is a parameter, `_to_allocation` rounds each amount to cents.
use Prim.Native.Nat.{◌/◌, ◌%◌}
use native.Mathlib.Nat.{mod-lt}
use native.Mathlib.Omega.{div_any}
use multi_agent_ad_optimizer.Prelude.{
  ℕ, ◌+◌, ◌*◌, ◌≤◌, ◌<◌, String, false, ◌&&◌, ◌||◌, Option, none, some, List, [], ◌∷◌, All, length,
  ltb, if◌then◌else◌, ◌==◌, nat_eq, ◌⊎◌, inl, inr, ◌≡◌, refl, sym, subst, arith, Bool-cases,
}
use multi_agent_ad_optimizer.Prelude.Dict.{Dict}
use multi_agent_ad_optimizer.Budget.Slots.{
  Snapshot, Change, clamped, clamp, floor_of, Slot, sum_lower, sum_upper,
}
use multi_agent_ad_optimizer.Budget.Holds.{held_slots, allocate, requested}
use multi_agent_ad_optimizer.Budget.Conserve.{Within, IsOrdered, sum_placed}
use multi_agent_ad_optimizer.Budget.Fill.{fill_order}
use multi_agent_ad_optimizer.Budget.Bounds.{IsSlot}
use multi_agent_ad_optimizer.Budget.Optimal.{worth, plan_by}
use multi_agent_ad_optimizer.Budget.Plan.{
  OnSlot, IsFair, IsSlot-IsOrdered, plan-IsFair, fill_order-IsSlot, allocate-IsFair,
  allocate-Places,
}

-- `round(amount, 2)`, where a cent is `cent` units of the plan: the nearest multiple of a cent, and
-- the even one of two as near.
unfoldable pub round_2 : ℕ → ℕ → ℕ
round_2 cent amount =
    let whole = amount / cent in
    let rest = amount % cent in
    if ltb (2 * rest) cent || (2 * rest == cent && whole % 2 == 0)
    then cent * whole
    else cent * whole + cent

-- The clip at the end of `_cvxpy_optimum`.
abbrev pub clipped : (Slot → ℕ) → Slot → ℕ
clipped amount s = clamp (amount s) s.lower s.upper

-- The cross check: `solved` is what the solver answers for the slots, `none` where it is off or fails;
-- clipped, its plan is adopted only where it is worth more by more than a millionth.
unfoldable pub adopted : Option (Slot → ℕ) → List Slot → List (Slot × ℕ) → List (Slot × ℕ)
adopted none slots greedy = greedy
adopted (some amount) slots greedy =
    if ltb (1000001 * worth greedy) (1000000 * worth (plan_by (clipped amount) slots))
    then plan_by (clipped amount) slots
    else greedy

-- `recommended_budget` of each campaign, as `_to_allocation` rounds it.
unfoldable pub returned : ℕ → List (Slot × ℕ) → List (Slot × ℕ)
returned cent [] = []
returned cent ((s, x) ∷ rest) = (s, round_2 cent x) ∷ returned cent rest

-- `allocate` to its end.
unfoldable pub allocations :
    ℕ
    → Option (Slot → ℕ)
    → Change
    → ℕ
    → List Snapshot
    → Dict String ℕ
    → Option ℕ
    → List String
    → ℕ
    → List (Slot × ℕ)
allocations cent solved change floor snapshots budgets total names epsilon = returned cent (
    adopted solved (fill_order (held_slots change floor snapshots budgets total names))
      (allocate change floor snapshots budgets total names epsilon))

-- The plan is the greedy one or the solver's.
adopted_either :
    (solved : Option (Slot → ℕ)) (slots : List Slot) (greedy : List (Slot × ℕ))
    → (adopted solved slots greedy ≡ greedy)
      ⊎ ((amount : Slot → ℕ) × (solved ≡ some amount)
          × (adopted solved slots greedy ≡ plan_by (clipped amount) slots))
unfolding adopted
adopted_either none slots greedy = inl refl
adopted_either (some amount) slots greedy =
    elim (Bool-cases
      (ltb (1000001 * worth greedy) (1000000 * worth (plan_by (clipped amount) slots)))) [
        | inl better ↦ rw (better, adopted) (inr (amount, refl, refl))
        | inr no_better ↦ rw (no_better, adopted) (inl refl)
      ]

plan_by-All :
    (P : Slot → Type 0) (amount : Slot → ℕ) (slots : List Slot)
    → All P slots
    → All (OnSlot P) (plan_by amount slots)
plan_by-All P amount [] all = tt
plan_by-All P amount (s ∷ rest) (p, all) = (p, plan_by-All P amount rest all)

clipped-Within :
    (amount : Slot → ℕ) (slots : List Slot)
    → All IsOrdered slots
    → All Within (plan_by (clipped amount) slots)
clipped-Within amount [] all = tt
clipped-Within amount (s ∷ rest) (ok, all) = (omega (arith, ok), clipped-Within amount rest all)

-- Two amounts are at most half a cent apart, for each of `n` campaigns.
abbrev pub Near : (cent n : ℕ) → ℕ → ℕ → Type 0
Near cent n x y = (2 * x ≤ 2 * y + n * cent) × (2 * y ≤ 2 * x + n * cent)

-- What the returned plan promises a campaign: a whole number of cents that keeps the bounds of its
-- change, its floor and its hold up to half a cent.
abbrev pub IsFairReturned : ℕ → Change → ℕ → Slot × ℕ → Type 0
IsFairReturned cent change floor (s, y) =
    ((k : ℕ) × (y ≡ cent * k))
    × ((2 * floor_of change floor s.budget ≤ 2 * y + cent)
        × ((2 * y ≤ 2 * (s.budget * (change.den + change.num)) + cent)
            × ((s.held ≡ false) ⊎ (2 * (s.budget * change.den) ≤ 2 * y + cent))))

-- What the plan is to spend.
abbrev pub to_spend : Change → ℕ → List Snapshot → Dict String ℕ → Option ℕ → List String → ℕ
to_spend change floor snapshots budgets total names =
    clamp (requested change floor snapshots budgets total names)
      (sum_lower (held_slots change floor snapshots budgets total names))
      (sum_upper (held_slots change floor snapshots budgets total names))

module _ (cent : ℕ) (minted : 0 < cent) where
  round_2-Near : (x : ℕ) → Near cent 1 x (round_2 cent x)
  unfolding round_2
  round_2-Near x =
      let whole = x / cent in
      let rest = x % cent in
      let test = ltb (2 * rest) cent || (2 * rest == cent && whole % 2 == 0) in
      let split : cent * whole + rest ≡ x = div_any x cent in
      let small : rest < cent = mod-lt x minted in
      elim (Bool-cases test) [
        | inl down ↦
            rw (down, round_2)
              (let less : 2 * rest ≤ cent = ground (arith, down) in omega (arith, split, less))
        | inr up ↦
            rw (up, round_2)
              (let more : cent ≤ 2 * rest = ground (arith, up) in omega (arith, split, more, small))
      ]

  round_2-whole : (x : ℕ) → (k : ℕ) × (round_2 cent x ≡ cent * k)
  unfolding round_2
  round_2-whole x =
      let whole = x / cent in
      let test = ltb (2 * (x % cent)) cent || (2 * (x % cent) == cent && whole % 2 == 0) in
      elim (Bool-cases test) [
        | inl down ↦ rw (down, round_2) (whole, refl)
        | inr up ↦ rw (up, round_2) (whole + 1, omega arith)
      ]

  sum-returned :
      (plan : List (Slot × ℕ))
      → Near cent (length plan) (sum_placed plan) (sum_placed (returned cent plan))
  unfolding returned
  sum-returned [] = omega arith
  sum-returned ((s, x) ∷ rest) = omega (arith, sum-returned rest, round_2-Near x)

  returned-All :
      (change : Change) (floor : ℕ) (plan : List (Slot × ℕ))
      → All (IsFair change floor) plan
      → All (IsFairReturned cent change floor) (returned cent plan)
  unfolding returned
  returned-All change floor [] fair = tt
  returned-All change floor ((s, x) ∷ rest) ((low, (high, kept)), fair) =
      let near = round_2-Near x in
      (
        (
          round_2-whole x,
          (
            omega (arith, near, low),
            (
              omega (arith, near, high),
              elim kept [ inl free ↦ inl free | inr pinned ↦ inr (omega (arith, near, pinned)) ],
            ),
          ),
        ),
        returned-All change floor rest fair,
      )

  length-returned : (plan : List (Slot × ℕ)) → length (returned cent plan) ≡ length plan
  unfolding returned
  length-returned [] = refl
  length-returned ((s, x) ∷ rest) = omega (arith, length-returned rest)

  module _ (change : Change) (floor : ℕ) (snapshots : List Snapshot) (budgets : Dict String ℕ)
      (total : Option ℕ) (names : List String) (epsilon : ℕ) where
    -- With a cent of at least one unit, whatever a solver answers, every budget that is returned is a
    -- whole number of cents, and up to half a cent it lies between the allowed cut, or the floor where
    -- that is higher, and the allowed raise of the campaign's current budget, and a campaign whose hold
    -- is in effect keeps at least its current budget.
    pub allocations-IsFair :
        (solved : Option (Slot → ℕ))
        → All
            (IsFairReturned cent (clamped change) floor)
            (allocations cent solved change floor snapshots budgets total names epsilon)
    unfolding allocations
    allocations-IsFair solved =
        let slots = fill_order (held_slots change floor snapshots budgets total names) in
        let greedy = allocate change floor snapshots budgets total names epsilon in
        let are_slots = fill_order-IsSlot change floor snapshots budgets total names epsilon in
        returned-All (clamped change) floor _ (elim (adopted_either solved slots greedy) [
          | inl same ↦
              subst (All (IsFair (clamped change) floor)) (sym same)
                (allocate-IsFair change floor snapshots budgets total names epsilon)
          | inr (amount, answer, same) ↦ subst (All (IsFair (clamped change) floor)) (sym same) (
              plan-IsFair (clamped change) floor (plan_by (clipped amount) slots)
                (plan_by-All (IsSlot (clamped change) floor) (clipped amount) slots are_slots)
                (clipped-Within amount slots
                  (IsSlot-IsOrdered (clamped change) floor slots are_slots)))
        ])

    -- With a cent of at least one unit, and a solver that, where it answers, spends the total it was
    -- given up to a slack, the budgets that are returned come to the requested total, clamped to what
    -- the bounds allow, up to half a cent for each campaign, the slack and, below the total, the
    -- `epsilon` that the greedy fill leaves unplaced.
    pub allocations-Places :
        (solved : Option (Slot → ℕ)) (slack : ℕ)
        → ((amount : Slot → ℕ)
            → solved ≡ some amount
            → let plan =
                plan_by
                  (clipped amount)
                  (fill_order (held_slots change floor snapshots budgets total names)) in
              (sum_placed plan ≤ to_spend change floor snapshots budgets total names + slack)
              × (to_spend change floor snapshots budgets total names ≤ sum_placed plan + slack))
        → let plan = allocations cent solved change floor snapshots budgets total names epsilon in
          (2 * sum_placed plan
            ≤ 2 * to_spend change floor snapshots budgets total names
              + length plan * cent
              + 2 * slack)
          × (2 * to_spend change floor snapshots budgets total names
              ≤ 2 * sum_placed plan + length plan * cent + 2 * slack + 2 * epsilon)
    unfolding allocations
    allocations-Places solved slack spends =
        let slots = fill_order (held_slots change floor snapshots budgets total names) in
        let greedy = allocate change floor snapshots budgets total names epsilon in
        let plan = adopted solved slots greedy in
        let places : (sum_placed plan ≤ to_spend change floor snapshots budgets total names + slack)
            × (to_spend change floor snapshots budgets total names
                ≤ sum_placed plan + slack + epsilon) =
          elim (adopted_either solved slots greedy) [
            | inl same ↦
                subst
                  (λ p.
                    (sum_placed p ≤ to_spend change floor snapshots budgets total names + slack)
                    × (to_spend change floor snapshots budgets total names
                        ≤ sum_placed p + slack + epsilon))
                  (sym same)
                  (omega
                    (arith, allocate-Places change floor snapshots budgets total names epsilon))
            | inr (amount, answer, same) ↦
                subst
                  (λ p.
                    (sum_placed p ≤ to_spend change floor snapshots budgets total names + slack)
                    × (to_spend change floor snapshots budgets total names
                        ≤ sum_placed p + slack + epsilon))
                  (sym same) (omega (arith, spends amount answer))
          ] in
        rw (length-returned plan) (omega (arith, sum-returned plan, places))
