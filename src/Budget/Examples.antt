-- ===== src/Budget/Examples.antt =====
-- The theorems on domain/budget.py at concrete campaigns.
use multi_agent_ad_optimizer.Prelude.{
  ℕ, ◌+◌, ◌*◌, ◌≤◌, length, String, none, some, List, [], ◌∷◌, All, ◌≡◌, refl, ap, subst, arith,
}
use multi_agent_ad_optimizer.Prelude.Dict.{Dict, get}
use multi_agent_ad_optimizer.Budget.Slots.{
  Snapshot, Change, clamped, Slot, slot_of, slots_from, baseline, headroom,
}
use multi_agent_ad_optimizer.Budget.Fill.{
  insert_sorted, sort_by, fill_order, visited_before, fill_from, greedy_optimum,
}
use multi_agent_ad_optimizer.Budget.Holds.{
  released_before, release, release_from, apply_holds, held_slots, allocate, slots, requested,
}
use multi_agent_ad_optimizer.Budget.Conserve.{sum_placed}
use multi_agent_ad_optimizer.Budget.Rounded.{
  round_2, clipped, IsFairReturned, allocations, to_spend, allocations-IsFair, allocations-Places,
}
use multi_agent_ad_optimizer.Budget.Optimal.{worth, plan_by, allocate-optimal}

abbrev half : Change
half = record { num = 1; den = 2 }

abbrev strong : Snapshot
strong = record { campaign_id = "c1"; total_cost = 80; roas = 6; score = 1300000 }

abbrev weak : Snapshot
weak = record { campaign_id = "c2"; total_cost = 70; roas = 2; score = 700000 }

abbrev middle : Snapshot
middle = record { campaign_id = "c3"; total_cost = 60; roas = 3; score = 900000 }

abbrev campaigns : List Snapshot
campaigns = weak ∷ strong ∷ middle ∷ []

abbrev configured : Dict String ℕ
configured = ("c1", 100) ∷ ("c2", 40) ∷ []

abbrev named_amounts : List (Slot × ℕ) → List (String × ℕ)
named_amounts [] = []
named_amounts ((s, x) ∷ rest) = (s.campaign_id, x) ∷ named_amounts rest

-- The strong campaign takes all it may, what is left goes to the next, and the weak one is cut.
amounts_of_run :
    named_amounts (allocate half 10 campaigns configured none [] 0)
    ≡ ("c1", 300) ∷ ("c3", 60) ∷ ("c2", 40) ∷ []
unfolding allocate fill_order sort_by insert_sorted visited_before greedy_optimum fill_from
    held_slots slots requested slots_from slot_of baseline apply_holds release_from release
    released_before headroom get
amounts_of_run = refl

-- A solver's plan.
abbrev lower_bounds : Slot → ℕ
lower_bounds s = s.lower

allocations-IsFair_example :
    All
      (IsFairReturned 4 (clamped half) 10)
      (allocations 4 (some lower_bounds) half 10 campaigns configured none ("c2" ∷ []) 0)
allocations-IsFair_example =
    allocations-IsFair 4 (omega arith) half 10 campaigns configured none ("c2" ∷ []) 0
      (some lower_bounds)

abbrev unchanged : Slot → ℕ
unchanged s = s.current

-- A solver's plan and what it is to spend.
abbrev Spends : (Slot → ℕ) → Type 0
Spends amount =
    let plan =
      plan_by (clipped amount) (fill_order (held_slots half 10 campaigns configured none [])) in
    let spend = to_spend half 10 campaigns configured none [] in
    (sum_placed plan ≤ spend + 0) × (spend ≤ sum_placed plan + 0)

unchanged-Spends : Spends unchanged
unfolding fill_order sort_by insert_sorted visited_before held_slots slots requested slots_from
    slot_of baseline apply_holds release_from release released_before headroom get
unchanged-Spends = (omega arith, omega arith)

spends : (amount : Slot → ℕ) → some unchanged ≡ some amount → Spends amount
spends amount answer =
    subst Spends (ap (λ o. elim o [ none ↦ unchanged | some f ↦ f ]) answer) unchanged-Spends

allocations-Places_example :
    let spend = to_spend half 10 campaigns configured none [] in
    let plan = allocations 4 (some unchanged) half 10 campaigns configured none [] 0 in
    (2 * sum_placed plan ≤ 2 * spend + length plan * 4 + 2 * 0)
    × (2 * spend ≤ 2 * sum_placed plan + length plan * 4 + 2 * 0 + 2 * 0)
allocations-Places_example =
    allocations-Places 4 (omega arith) half 10 campaigns configured none [] 0 (some unchanged) 0
      spends

-- The allowed raise of 10.01 by half is 15.015, in half cents 3003, and 15.02 is returned.
raise_rounded_up : round_2 2 3003 ≡ 3004
unfolding round_2
raise_rounded_up = refl

allocate-optimal_example :
    worth (plan_by (λ s. s.current) (fill_order (held_slots half 10 campaigns configured none [])))
    ≤ worth (allocate half 10 campaigns configured none [] 0)
unfolding allocate fill_order sort_by insert_sorted visited_before greedy_optimum fill_from
    held_slots slots requested slots_from slot_of baseline apply_holds release_from release
    released_before headroom get
allocate-optimal_example =
    allocate-optimal half 10 campaigns configured none [] 0 (λ s. s.current)
      (omega arith, (omega arith, (omega arith, tt))) (omega arith)
