-- ===== src/Scheduling/Outcomes.antt =====
-- What a tick of services/scheduling.py leaves behind.
use multi_agent_ad_optimizer.Prelude.{
  ℕ, ◌-◌, ◌≤◌, String, Bool, true, false, not, ◌&&◌, Option, none, some, leb, ◌⊎◌, inl, inr,
  otherwise, string_eq, ◌≡◌, refl, ap, ◌∙◌, subst, arith, Bool-cases, Option-cases,
}
use multi_agent_ad_optimizer.Prelude.Text.{clip}
use multi_agent_ad_optimizer.Prelude.Dict.{Dict, get, get-put_self}
use multi_agent_ad_optimizer.Scheduling.Plan.{PullPlan, plan_after, plan_window}
use multi_agent_ad_optimizer.Scheduling.Leases.{
  Watermark, Lease, advance, widened, acquire, acquire_row, is_free,
}
use multi_agent_ad_optimizer.Scheduling.Tick.{
  TickResult, TickOut, IngestSettings, IngestReport, Schedule, Ingest, lease_name, span_of,
  plan_for, unit, pull, pulled, release, failure, success, conclude, tick_with, tick,
}

pub acquire-lost :
    (name holder : String) (ttl now : ℕ) (leases : Dict String Lease)
    → ((acquire name holder ttl now leases).0 ≡ true)
      ⊎ (acquire name holder ttl now leases ≡ (false, leases))
unfolding acquire acquire_row
acquire-lost name holder ttl now leases = elim (Option-cases (get name leases)) [
  | inl missing ↦ rw missing (inl refl)
  | inr (row, found) ↦ rw found (elim (Bool-cases (is_free now row)) [
    | inl free ↦ rw free (inl refl)
    | inr taken ↦ rw taken (inr refl)
  ])
]

-- The stored span reaches over a window.
abbrev pub covers : ℕ → ℕ → Option Watermark → Bool
covers start end none = false
covers start end (some row) = leb row.window_start start && leb end row.window_end

covers-plan :
    (today lookback_days max_catchup_days : ℕ) (o : Option Watermark)
    → covers (today - (lookback_days - 1)) today o ≡ true
    → (plan_window today lookback_days max_catchup_days (span_of o)).covered ≡ true
unfolding plan_window plan_after
covers-plan today lookback_days max_catchup_days none h = ground (arith, h)
covers-plan today lookback_days max_catchup_days (some row) h = rw h refl

plan-reach :
    (today lookback_days max_catchup_days : ℕ) (o : Option (ℕ × ℕ))
    → lookback_days ≤ max_catchup_days
    → ((plan_window today lookback_days max_catchup_days o).start ≤ today - (lookback_days - 1))
      × ((plan_window today lookback_days max_catchup_days o).end ≡ today)
unfolding plan_window plan_after
plan-reach today lookback_days max_catchup_days none wider = (omega arith, refl)
plan-reach today lookback_days max_catchup_days (some (a, b)) wider =
    (ground (arith, wider), ground arith)

widened-covers :
    (o : Option Watermark) (start end low batch : ℕ) (id : Option String)
    → start ≤ low
    → covers low end (some (widened o start end id batch)) ≡ true
widened-covers none start end low batch id le = ground (arith, le)
widened-covers (some row) start end low batch id le = ground (arith, le)

module _ {W : Type 0} (settings : IngestSettings) (ingest : Ingest W)
    (detail : PullPlan → String) where
  -- What the pull of a plan came to, of the leases and the tables it began with: what the ingest
  -- answered is reported and recorded with the lease, and its tables are kept with the advanced
  -- watermark if it did not raise, and dropped if it did.
  abbrev pub Concludes :
      String
      → PullPlan
      → Bool
      → ℕ
      → Dict String Lease
      → Schedule W
      → (String ⊎ IngestReport) × W
      → TickOut × Schedule W
      → Type 0
  Concludes source plan rehearsal later leases s (inl error, world) r =
      (r.0 ≡ record { outcome = TickResult.failed; plan = plan; error = some (clip 300 error) })
      × ((r.1.marks ≡ s.marks)
          × ((r.1.world ≡ s.world)
              × (r.1.leases
                  ≡ release settings ingest detail source (failure settings ingest detail error)
                      later leases)))
  Concludes source plan rehearsal later leases s (inr report, world) r =
      (r.0 ≡ record { outcome = TickResult.ran; plan = plan; error = none })
      × ((r.1.marks
            ≡ advance source plan.start plan.end report.batch_id report.received rehearsal s.marks)
          × ((r.1.world ≡ world)
              × (r.1.leases
                  ≡ release settings ingest detail source
                      (success settings ingest detail plan report) later leases)))

  -- A covered feed is skipped and a lost lease reported, and both leave everything; otherwise the
  -- lease is won and the pull concludes as the ingest answered.
  abbrev pub RanOrKept :
      ℕ → ℕ → String → PullPlan → Bool → Bool → Schedule W → TickOut × Schedule W → Type 0
  RanOrKept now later source plan rehearsal due s r =
      let answer =
        acquire (lease_name source) settings.holder settings.lease_ttl_seconds now s.leases in
      ((due ≡ false)
        × (r ≡ (record { outcome = TickResult.skipped; plan = plan; error = none }, s)))
      ⊎ (((due ≡ true)
            × ((answer.0 ≡ false)
                × (r ≡ (record { outcome = TickResult.lost_lease; plan = plan; error = none }, s))))
          ⊎ ((due ≡ true)
              × ((answer.0 ≡ true)
                  × Concludes source plan rehearsal later answer.1 s
                      (ingest source plan.start plan.end rehearsal s.world) r)))

  conclude-Concludes :
      (source : String) (plan : PullPlan) (rehearsal : Bool) (later : ℕ) (s : Schedule W)
      (leases : Dict String Lease) (answer : (String ⊎ IngestReport) × W)
      → Concludes source plan rehearsal later leases s answer (
          conclude settings ingest detail source plan later
            (record s { leases = leases })
            (unit
              (s.marks, s.world)
              (pulled settings ingest detail source plan rehearsal s.marks answer)))
  unfolding conclude
  conclude-Concludes source plan rehearsal later s leases (inl error, world) =
      (refl, (refl, (refl, refl)))
  conclude-Concludes source plan rehearsal later s leases (inr report, world) =
      (refl, (refl, (refl, refl)))

  -- Whatever the ingest does: a tick of a covered feed that is not forced is skipped, one that does not
  -- win the lease says so, and both leave everything as it was; every other tick is reported as failed
  -- exactly where the ingest raised, with its text clipped, the watermarks and tables as they were, and
  -- as run without an error exactly where it answered, with the watermark advanced over the plan and
  -- the tables the ingest left; either way the lease is released with that outcome.
  pub tick-RanOrKept :
      (now later : ℕ) (source : String) (today : ℕ) (dry_run : Option Bool) (force : Bool)
      (s : Schedule W)
      → let plan = plan_for settings ingest detail source today s in
        RanOrKept now later source plan
          (otherwise settings.dry_run dry_run)
          (not (plan.covered && not force))
          s
          (tick settings ingest detail now later source today dry_run force s)
  unfolding tick tick_with pull
  tick-RanOrKept now later source today dry_run force s =
      let plan = plan_for settings ingest detail source today s in
      let rehearsal = otherwise settings.dry_run dry_run in
      let answer =
        acquire (lease_name source) settings.holder settings.lease_ttl_seconds now s.leases in
      elim (Bool-cases (plan.covered && not force)) [
        | inl done ↦ rw done (inl (refl, refl))
        | inr due ↦
            rw due
              (elim (acquire-lost (lease_name source) settings.holder settings.lease_ttl_seconds now
                s.leases) [
                  | inl won ↦ rw won (
                      inr (
                        inr (
                          refl,
                          (
                            refl,
                            conclude-Concludes source plan rehearsal later s answer.1
                                (ingest source plan.start plan.end rehearsal s.world),
                          ),
                        )))
                  | inr lost ↦ rw lost (inr (inl (refl, (refl, refl))))
                ])
      ]

  -- The watermark of a feed reaches over a window.
  abbrev Marked : String → ℕ → ℕ → Schedule W → Type 0
  Marked source start end t = covers start end (get source t.marks) ≡ true

  conclude-Marked :
      (source : String) (plan : PullPlan) (now low today : ℕ) (held : Schedule W)
      (answer : (String ⊎ IngestReport) × W)
      → plan.start ≤ low
      → plan.end ≡ today
      → let r = conclude settings ingest detail source plan now held (
          unit
            (held.marks, held.world)
            (pulled settings ingest detail source plan false held.marks answer)) in
        (r.0.outcome ≡ TickResult.failed) ⊎ Marked source low today r.1
  unfolding conclude advance
  conclude-Marked source plan now low today held (inl error, world) le ends = inl refl
  conclude-Marked source plan now low today held (inr report, world) le ends =
      let row =
        widened (get source held.marks) plan.start plan.end report.batch_id report.received in
      let wide : covers low plan.end (some row) ≡ true =
        widened-covers (get source held.marks) plan.start plan.end low report.received
          report.batch_id le in
      inr (
        rw (get-put_self source row held.marks)
          (subst (λ d. covers low d (some row) ≡ true) ends wide))

  module _ (wider : settings.lookback_days ≤ settings.max_catchup_days) where
    ran-Marked :
        (now later : ℕ) (source : String) (today : ℕ) (force : Bool) (s : Schedule W)
        → (tick settings ingest detail now later source today (some false) force s).0.outcome
          ≡ TickResult.ran
        → Marked source
            (today - (settings.lookback_days - 1))
            today
            (tick settings ingest detail now later source today (some false) force s).1
    unfolding tick tick_with pull
    ran-Marked now later source today force s =
        let plan = plan_for settings ingest detail source today s in
        let answer =
          acquire (lease_name source) settings.holder settings.lease_ttl_seconds now s.leases in
        let (reach, ends) =
          plan-reach today settings.lookback_days settings.max_catchup_days
            (span_of (get source s.marks)) wider in
        elim (Bool-cases (plan.covered && not force)) [
          | inl done ↦ rw done (λ ran. absurd (ground (arith, ran)))
          | inr due ↦ rw due (elim (Bool-cases answer.0) [
            | inl won ↦ rw won (λ ran.
                let held = record s { leases = answer.1 } in
                elim (conclude-Marked source plan later (today - (settings.lookback_days - 1)) today
                  held (ingest source plan.start plan.end false s.world) reach ends) [
                    | inl failed ↦ absurd (ground (arith, ran, failed))
                    | inr marked ↦ marked
                  ])
            | inr lost ↦ rw lost (λ ran. absurd (ground (arith, ran)))
          ])
        ]

    -- Where the catch-up limit is no smaller than the lookback, a feed whose tick ran for real is done
    -- for the day: the next tick that is not forced skips it and leaves everything, at whatever instant.
    pub tick-settles :
        (now later now' later' : ℕ) (source : String) (today : ℕ) (force : Bool)
        (dry_run : Option Bool) (s t : Schedule W) (out : TickOut)
        → tick settings ingest detail now later source today (some false) force s ≡ (out, t)
        → out.outcome ≡ TickResult.ran
        → ((tick settings ingest detail now' later' source today dry_run false t).0.outcome
            ≡ TickResult.skipped)
          × ((tick settings ingest detail now' later' source today dry_run false t).1 ≡ t)
    unfolding tick
    tick-settles now later now' later' source today force dry_run s t out done ran =
        let low = today - (settings.lookback_days - 1) in
        let marked : Marked source low today t =
          subst (λ r. Marked source low today r.1) done
            (ran-Marked now later source today force s (ap (λ r. r.0.outcome) done ∙ ran)) in
        rw
          (covers-plan today settings.lookback_days settings.max_catchup_days (get source t.marks)
            marked)
          (refl, refl)
