-- ===== src/Scheduling/Plan.antt =====
-- `plan_window` of services/scheduling.py. Dates are day numbers; a window includes both its ends.
use multi_agent_ad_optimizer.Prelude.{
  ℕ, ◌+◌, ◌-◌, ◌≤◌, Bool, true, false, ◌&&◌, Option, none, some, leb, if◌then◌else◌, ◌⊎◌, inl, inr,
  ◌≡◌, refl, arith, Bool-cases,
}

pub data PlanReason : Type 0 where
  first covered nominal catchup capped : PlanReason

-- `PullPlanOut`, without its text for people.
pub record PullPlan : Type 0 where
  pub start : ℕ
  pub end : ℕ
  pub days : ℕ
  pub reason : PlanReason
  pub catchup_days : ℕ
  pub gap_days : ℕ
  pub covered : Bool

-- `build`, whose last three arguments have defaults in the source.
abbrev pub build : ℕ → ℕ → PlanReason → ℕ → ℕ → Bool → PullPlan
build end start reason catchup_days gap_days is_covered = record {
  start = start;
  end = end;
  days = end - start + 1;
  reason = reason;
  catchup_days = catchup_days;
  gap_days = gap_days;
  covered = is_covered;
}

-- `plan_window` past the question whether the feed was ever pulled, with the two bounds computed.
unfoldable pub plan_after : ℕ → ℕ → ℕ → ℕ × ℕ → PullPlan
plan_after today nominal_start floor (covered_start, covered_end) =
    let wanted = covered_end + 1 in
    if leb covered_start nominal_start && leb today covered_end
    then build today nominal_start PlanReason.covered 0 0 true
    else if leb nominal_start wanted
    then build today nominal_start PlanReason.nominal 0 0 false
    else if leb floor wanted
    then build today wanted PlanReason.catchup (nominal_start - wanted) 0 false
    else build today floor PlanReason.capped (nominal_start - floor) (floor - wanted) false

unfoldable pub plan_window : ℕ → ℕ → ℕ → Option (ℕ × ℕ) → PullPlan
plan_window today lookback_days max_catchup_days stored =
    let nominal_start = today - (lookback_days - 1) in
    let floor = today - (max_catchup_days - 1) in
    elim stored [
      | none ↦ build today nominal_start PlanReason.first 0 0 false
      | some span ↦ plan_after today nominal_start floor span
    ]

-- A window ends today, is not empty, reaches back over the nominal lookback and at most over the
-- catch-up limit.
pub record IsWindow (today nominal_start max_catchup_days : ℕ) (plan : PullPlan) : Type 0 where
  pub ends : plan.end ≡ today
  pub whole : plan.start + plan.days ≡ today + 1
  pub nominal_in : plan.start ≤ nominal_start
  pub bounded : plan.days ≤ max_catchup_days

-- Why a plan's window is as it is, for the span stored of its feed. A first pull is the nominal
-- lookback. Of a stored span, the plan counts as covered exactly when the span reaches over the
-- nominal lookback; the days between its end and the start of the window, where there are any, are the
-- plan's gap, and only a capped plan has one.
abbrev pub LeavesGap : ℕ → ℕ → Option (ℕ × ℕ) → PullPlan → Type 0
LeavesGap nominal_start today none plan =
    (plan.start ≡ nominal_start)
    × ((plan.reason ≡ PlanReason.first) × ((plan.covered ≡ false) × (plan.gap_days ≡ 0)))
LeavesGap nominal_start today (some (covered_start, covered_end)) plan =
    (plan.covered ≡ (leb covered_start nominal_start && leb today covered_end))
    × (((plan.start ≤ covered_end + 1) × (plan.gap_days ≡ 0))
        ⊎ ((plan.start ≡ covered_end + 1 + plan.gap_days) × (plan.reason ≡ PlanReason.capped)))

module _ (today nominal_start floor max_catchup_days covered_start covered_end : ℕ)
    (past : nominal_start ≤ today) (ordered : floor ≤ nominal_start)
    (limit : today + 1 ≤ floor + max_catchup_days) where
  pub plan_after-IsWindow :
      IsWindow today nominal_start max_catchup_days
        (plan_after today nominal_start floor (covered_start, covered_end))
  unfolding plan_after
  plan_after-IsWindow = record {
    ends = ground arith;
    whole = ground arith;
    nominal_in = ground arith;
    bounded = ground arith;
  }

  plan_after-LeavesGap :
      LeavesGap nominal_start today
        (some (covered_start, covered_end))
        (plan_after today nominal_start floor (covered_start, covered_end))
  unfolding plan_after
  plan_after-LeavesGap =
      elim (Bool-cases (leb covered_start nominal_start && leb today covered_end)) [
        | inl spans ↦ rw spans (refl, inl (ground arith, refl))
        | inr open' ↦ rw open' (elim (Bool-cases (leb nominal_start (covered_end + 1))) [
          | inl near ↦ rw near (refl, inl (ground arith, refl))
          | inr far ↦ rw far (elim (Bool-cases (leb floor (covered_end + 1))) [
            | inl within ↦ rw within (refl, inl (ground arith, refl))
            | inr beyond ↦ rw beyond (refl, inr (ground arith, refl))
          ])
        ])
      ]

module _ (today lookback_days max_catchup_days : ℕ) (looks : 1 ≤ lookback_days)
    (wider : lookback_days ≤ max_catchup_days) where
  -- With a lookback of at least a day and a catch-up limit no smaller, every planned window, of a feed
  -- with a stored span or without, ends today, covers the nominal lookback and is no longer than the
  -- limit. Without a span it is the nominal lookback, a first pull with no gap. With one it counts as
  -- covered exactly when the span reaches over the nominal lookback, and the only days it leaves out
  -- after the span are the gap that a capped plan reports.
  pub plan_window-IsWindow :
      (stored : Option (ℕ × ℕ))
      → IsWindow today
          (today - (lookback_days - 1))
          max_catchup_days
          (plan_window today lookback_days max_catchup_days stored)
        × LeavesGap
            (today - (lookback_days - 1))
            today
            stored
            (plan_window today lookback_days max_catchup_days stored)
  unfolding plan_window
  plan_window-IsWindow none = (
    record {
      ends = refl;
      whole = omega arith;
      nominal_in = omega arith;
      bounded = omega (arith, looks, wider);
    },
    (refl, (refl, (refl, refl))),
  )
  plan_window-IsWindow (some (covered_start, covered_end)) =
      let nominal_start = today - (lookback_days - 1) in
      let floor = today - (max_catchup_days - 1) in
      (
        plan_after-IsWindow today nominal_start floor max_catchup_days covered_start covered_end
            (omega arith) (omega (arith, wider)) (omega (arith, looks, wider)),
        plan_after-LeavesGap today nominal_start floor max_catchup_days covered_start covered_end
            (omega arith) (omega (arith, wider)) (omega (arith, looks, wider)),
      )
