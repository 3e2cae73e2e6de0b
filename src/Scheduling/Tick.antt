-- ===== src/Scheduling/Tick.antt =====
-- `IngestScheduler` of services/scheduling.py: one scheduled attempt at one feed. The ingest of a
-- window is a function of the tables it works on, which the theorems take as it comes: it answers with
-- a report or raises, and either way it leaves tables with what it wrote so far. The unit of work
-- around it commits or rolls back. Metrics and logs are left out.
use multi_agent_ad_optimizer.Prelude.{
  ℕ, String, Bool, true, false, not, ◌&&◌, Option, none, some, List, [], ◌∷◌, if◌then◌else◌, ◌⊎◌,
  inl, inr, otherwise, string_eq,
}
use multi_agent_ad_optimizer.Prelude.Dict.{Dict, get}
use multi_agent_ad_optimizer.Prelude.Text.{concat, clip}
use multi_agent_ad_optimizer.Scheduling.Plan.{PullPlan, plan_window}
use multi_agent_ad_optimizer.Scheduling.Leases.{
  Watermark, Lease, Outcome, advance, acquire, record_outcome,
}

pub data TickResult : Type 0 where
  ran skipped lost_lease failed : TickResult

-- The settings of the scheduler with its process's name.
pub record IngestSettings : Type 0 where
  pub sources : List String
  pub lookback_days : ℕ
  pub max_catchup_days : ℕ
  pub lease_ttl_seconds : ℕ
  pub dry_run : Bool
  pub holder : String

-- What a tick uses of a report of the ingest.
pub record IngestReport : Type 0 where
  pub batch_id : Option String
  pub received : ℕ

-- The tables: those of the scheduler, and `world` for those that the ingest works on.
pub record Schedule (W : Type 0) : Type 0 where
  pub marks : Dict String Watermark
  pub leases : Dict String Lease
  pub world : W

-- The ingest of a window: the feed, its two ends and whether to rehearse. The tables come back on an
-- exception too, as the session then holds them.
abbrev pub Ingest : Type 0 → Type 0
Ingest W = String → ℕ → ℕ → Bool → W → (String ⊎ IngestReport) × W

-- `_unit`: where the body raised, the tables are what they were before it.
abbrev pub unit : {A T : Type 0} → T → (String ⊎ A) × T → (String ⊎ A) × T
unit before (inl error, after) = (inl error, before)
unit before (inr answer, after) = (inr answer, after)

abbrev pub lease_name : String → String
lease_name source = concat ("ingest:" ∷ source ∷ [])

abbrev pub span_of : Option Watermark → Option (ℕ × ℕ)
span_of none = none
span_of (some row) = some (row.window_start, row.window_end)

-- The parts of `TickOut` that a caller decides on.
pub record TickOut : Type 0 where
  pub outcome : TickResult
  pub plan : PullPlan
  pub error : Option String

-- `detail` is the text of a plan for people.
module _ {W : Type 0} (settings : IngestSettings) (ingest : Ingest W)
    (detail : PullPlan → String) where
  -- `_plan_with_watermark`
  abbrev pub plan_for : String → ℕ → Schedule W → PullPlan
  plan_for source today s =
      plan_window today settings.lookback_days settings.max_catchup_days
        (span_of (get source s.marks))

  -- The body of `_pull`, for what the ingest left.
  abbrev pub pulled :
      String
      → PullPlan
      → Bool
      → Dict String Watermark
      → (String ⊎ IngestReport) × W
      → (String ⊎ IngestReport) × (Dict String Watermark × W)
  pulled source plan rehearsal marks (inl error, world) = (inl error, (marks, world))
  pulled source plan rehearsal marks (inr report, world) = (
    inr report,
    (advance source plan.start plan.end report.batch_id report.received rehearsal marks, world),
  )

  -- `_pull`: the ingest and the watermark are one unit of work.
  unfoldable pub pull :
      String → PullPlan → Bool → Schedule W → (String ⊎ IngestReport) × (Dict String Watermark × W)
  pull source plan rehearsal s =
      unit (s.marks, s.world)
        (pulled source plan rehearsal s.marks (ingest source plan.start plan.end rehearsal s.world))

  -- `_release`
  abbrev pub release : String → Outcome → ℕ → Dict String Lease → Dict String Lease
  release source o now leases = (record_outcome (lease_name source) settings.holder o now leases).1

  -- What `tick` records of a pull that raised, and of one that did not.
  abbrev pub failure : String → Outcome
  failure error = record {
    outcome = "failed";
    message = clip 300 error;
    batch_id = none;
    failed = true;
  }

  abbrev pub success : PullPlan → IngestReport → Outcome
  success plan report = record {
    outcome = "ran";
    message = detail plan;
    batch_id = report.batch_id;
    failed = false;
  }

  -- `tick` after the pull.
  unfoldable pub conclude :
      String
      → PullPlan
      → ℕ
      → Schedule W
      → (String ⊎ IngestReport) × (Dict String Watermark × W)
      → TickOut × Schedule W
  conclude source plan now s (inl error, (marks, world)) = (
    record { outcome = TickResult.failed; plan = plan; error = some (clip 300 error) },
    record { marks = marks; leases = release source (failure error) now s.leases; world = world },
  )
  conclude source plan now s (inr report, (marks, world)) = (
    record { outcome = TickResult.ran; plan = plan; error = none },
    record {
      marks = marks;
      leases = release source (success plan report) now s.leases;
      world = world;
    },
  )

  -- `tick` once the lease is asked for.
  unfoldable pub tick_with :
      String → PullPlan → Bool → ℕ → Schedule W → Bool × Dict String Lease → TickOut × Schedule W
  tick_with source plan rehearsal now s (false, leases) = (
    record { outcome = TickResult.lost_lease; plan = plan; error = none },
    record s { leases = leases },
  )
  tick_with source plan rehearsal now s (true, leases) =
      let held = record s { leases = leases } in
      conclude source plan now held (pull source plan rehearsal held)

  -- `tick`: `now` is the instant of the claim, `later` that of the release.
  unfoldable pub tick : ℕ → ℕ → String → ℕ → Option Bool → Bool → Schedule W → TickOut × Schedule W
  tick now later source today dry_run force s =
      let plan = plan_for source today s in
      if plan.covered && not force
      then (record { outcome = TickResult.skipped; plan = plan; error = none }, s)
      else tick_with source plan (otherwise settings.dry_run dry_run) later s
          (acquire (lease_name source) settings.holder settings.lease_ttl_seconds now s.leases)

  -- `tick_all`: every feed in its turn; the clock gives each its two instants.
  unfoldable pub tick_each :
      (String → ℕ × ℕ)
      → ℕ
      → Option Bool
      → Bool
      → List String
      → Schedule W
      → List TickOut × Schedule W
  tick_each clock today dry_run force [] s = ([], s)
  tick_each clock today dry_run force (source ∷ rest) s =
      let (now, later) = clock source in
      let (out, s') = tick now later source today dry_run force s in
      let (outs, s'') = tick_each clock today dry_run force rest s' in (out ∷ outs, s'')
