-- ===== src/Scheduling/Examples.antt =====
-- The theorems on scheduled pulls at concrete tables.
use multi_agent_ad_optimizer.Prelude.{
  ℕ, ◌+◌, ◌-◌, String, true, false, none, some, [], ◌∷◌, inl, inr, ◌≡◌, refl, arith, string_eq,
}
use multi_agent_ad_optimizer.Prelude.Dict.{Dict, get, put}
use multi_agent_ad_optimizer.Scheduling.Plan.{
  PullPlan, plan_window, plan_after, IsWindow, LeavesGap, plan_window-IsWindow,
}
use multi_agent_ad_optimizer.Scheduling.Leases.{
  Lease, acquire, acquire_row, record_outcome, advance,
}
use multi_agent_ad_optimizer.Scheduling.Exclusion.{nothing, claims, records, acquire-exclusive}
use multi_agent_ad_optimizer.Scheduling.Tick.{
  TickResult, IngestSettings, Schedule, Ingest, span_of, plan_for, tick, tick_with, pull, conclude,
}
use multi_agent_ad_optimizer.Scheduling.Outcomes.{RanOrKept, tick-RanOrKept, tick-settles}

-- A missed fortnight: the window reaches back to the limit and the gap is counted.
capped_window : (plan_window 100 3 14 (some (60, 80))).gap_days ≡ 6
unfolding plan_window plan_after
capped_window = refl

-- After the capped pull the stored span reaches over the days that no pull covered, and the next day's
-- plan counts no gap.
gap_forgotten :
    (plan_window 101 3 14 (
      span_of (
        get "meta" (
          advance "meta" (plan_window 100 3 14 (some (60, 80))).start 100 none 0 false (
            ("meta", record { window_start = 60; window_end = 80; batch_id = none; received = 0 })
            ∷ []))))).gap_days
    ≡ 0
unfolding plan_window plan_after advance get put
gap_forgotten = refl

plan_window-IsWindow_example :
    IsWindow 100 (100 - (3 - 1)) 14 (plan_window 100 3 14 (some (60, 80)))
    × LeavesGap (100 - (3 - 1)) 100 (some (60, 80)) (plan_window 100 3 14 (some (60, 80)))
plan_window-IsWindow_example =
    plan_window-IsWindow 100 3 14 (omega arith) (omega arith) (some (60, 80))

first_window : (plan_window 100 3 14 none).start ≡ 98
unfolding plan_window
first_window = refl

abbrev claimed_once : Dict String Lease
claimed_once = (acquire "ingest:meta" "a" 1800 10 []).1

abbrev contested : Dict String Lease
contested =
    (record_outcome "ingest:meta" "b"
      (record { outcome = "ran"; message = ""; batch_id = none; failed = false }) 700
      (acquire "ingest:meta" "b" 1800 600 claimed_once).1).1

acquire-exclusive_example : acquire "ingest:meta" "c" 1800 900 contested ≡ (false, contested)
unfolding acquire acquire_row get
acquire-exclusive_example =
    acquire-exclusive "ingest:meta" "a" 1800 10 [] claimed_once contested refl
      (records "ingest:meta" "b"
        (record { outcome = "ran"; message = ""; batch_id = none; failed = false }) 700 _ refl
        (claims "ingest:meta" "b" 1800 600 claimed_once (omega arith) nothing))
      "c" 1800 900 (omega arith)

abbrev settings : IngestSettings
settings = record {
  sources = "meta" ∷ [];
  lookback_days = 3;
  max_catchup_days = 14;
  lease_ttl_seconds = 1800;
  dry_run = false;
  holder = "host:1";
}

-- The world counts the days that were ingested.
abbrev counting : Ingest ℕ
counting source start end dry_run days =
    (inr (record { batch_id = some "b1"; received = 5 }), days + (end - start) + 1)

-- It writes, and raises.
abbrev raising : Ingest ℕ
raising source start end dry_run days = (inl "ConnectionError: reset", days + 1)

abbrev no_detail : PullPlan → String
no_detail plan = ""

abbrev empty : Schedule ℕ
empty = record { marks = []; leases = []; world = 0 }

tick-RanOrKept_example :
    RanOrKept settings raising no_detail 10 20 "meta"
      (plan_for settings raising no_detail "meta" 100 empty)
      false
      true
      empty
      (tick settings raising no_detail 10 20 "meta" 100 none false empty)
unfolding plan_window get
tick-RanOrKept_example = tick-RanOrKept settings raising no_detail 10 20 "meta" 100 none false empty

abbrev once : Schedule ℕ
once = (tick settings counting no_detail 10 20 "meta" 100 (some false) false empty).1

tick-settles_example :
    ((tick settings counting no_detail 30 40 "meta" 100 none false once).0.outcome
      ≡ TickResult.skipped)
    × ((tick settings counting no_detail 30 40 "meta" 100 none false once).1 ≡ once)
unfolding tick tick_with pull conclude acquire acquire_row plan_window plan_after get put
tick-settles_example =
    tick-settles settings counting no_detail (omega arith) 10 20 30 40 "meta" 100 false none empty
      once (tick settings counting no_detail 10 20 "meta" 100 (some false) false empty).0 refl refl
