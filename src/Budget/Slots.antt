-- ===== src/Budget/Slots.antt =====
-- The arrays of `allocate` in domain/budget.py, one record for each campaign. Money is exact: a
-- change of `num / den` is taken in units of one `den`-th of the caller's, so both bounds of a budget
-- are whole. Scores are the program's, which have six decimals, in millionths.
use multi_agent_ad_optimizer.Prelude.{
  ℕ, suc, ◌+◌, ◌-◌, ◌*◌, min, max, String, Bool, false, none, some, List, [], ◌∷◌, keep, ltb,
  if◌then◌else◌, string_eq,
}
use multi_agent_ad_optimizer.Prelude.Dict.{Dict, get}

-- What the allocation reads of a `PerformanceSnapshot`; `score` is its `allocation_score`.
pub record Snapshot : Type 0 where
  pub campaign_id : String
  pub total_cost : ℕ
  pub roas : ℕ
  pub score : ℕ

-- `max_change_pct` as a fraction.
pub record Change : Type 0 where
  pub num : ℕ
  pub den : ℕ

-- `clamp(max_change_pct, 0.0, 10.0)`
abbrev pub clamped : Change → Change
clamped c = record c { num = min c.num (10 * c.den) }

-- `held` is the set of effective holds, `index` the place in the arrays, `budget` the current budget in
-- the caller's unit.
pub record Slot : Type 0 where
  pub index : ℕ
  pub campaign_id : String
  pub score : ℕ
  pub roas : ℕ
  pub budget : ℕ
  pub current : ℕ
  pub lower : ℕ
  pub upper : ℕ
  pub held : Bool

-- `_baseline`
unfoldable pub baseline : Dict String ℕ → Snapshot → ℕ
baseline budgets snapshot = elim (get snapshot.campaign_id budgets) [
  | none ↦ snapshot.total_cost
  | some configured ↦ if ltb 0 configured then configured else snapshot.total_cost
]

-- `clamp` of domain/statistics.py
abbrev pub clamp : ℕ → ℕ → ℕ → ℕ
clamp value low high = max low (min high value)

abbrev pub eligible : List Snapshot → List Snapshot
eligible snapshots = keep (λ s. ltb 0 s.total_cost) snapshots

module _ (change : Change) (floor : ℕ) where
  -- The lower bound of a budget that is not held.
  abbrev pub floor_of : ℕ → ℕ
  floor_of budget = max (budget * (change.den - change.num)) (floor * change.den)

  unfoldable pub slot_of : Dict String ℕ → ℕ → Snapshot → Slot
  unfolding baseline
  slot_of budgets index snapshot =
      let budget = max (baseline budgets snapshot) floor in
      record {
        index = index;
        campaign_id = snapshot.campaign_id;
        score = max snapshot.score 1;
        roas = snapshot.roas;
        budget = budget;
        current = budget * change.den;
        lower = floor_of budget;
        upper = budget * (change.den + change.num);
        held = false;
      }

  unfoldable pub slots_from : Dict String ℕ → ℕ → List Snapshot → List Slot
  slots_from budgets index [] = []
  slots_from budgets index (snapshot ∷ rest) =
      slot_of budgets index snapshot ∷ slots_from budgets (suc index) rest

-- `lower.sum()`, `upper.sum()` and `current.sum()`
abbrev pub sum_lower : List Slot → ℕ
sum_lower [] = 0
sum_lower (s ∷ rest) = s.lower + sum_lower rest

abbrev pub sum_upper : List Slot → ℕ
sum_upper [] = 0
sum_upper (s ∷ rest) = s.upper + sum_upper rest

abbrev pub sum_current : List Slot → ℕ
sum_current [] = 0
sum_current (s ∷ rest) = s.current + sum_current rest

-- `_headroom`
unfoldable pub headroom : List Slot → ℕ → ℕ
headroom slots requested = clamp requested (sum_lower slots) (sum_upper slots) - sum_lower slots
