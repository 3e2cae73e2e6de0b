-- ===== src/Ingest/Scheduled.antt =====
-- The scheduler of services/scheduling.py over the ingest of services/ingest.py: what the ticks of all
-- feeds do to the metrics.
use multi_agent_ad_optimizer.Prelude.{
  ℕ, String, Bool, true, not, ◌&&◌, Option, List, [], ◌∷◌, ◌⊎◌, inl, inr, otherwise, string_eq, ◌≡◌,
  refl, sym, ◌∙◌, subst, Bool-cases, map,
}
use multi_agent_ad_optimizer.Prelude.Dict.{Dict}
use multi_agent_ad_optimizer.Scheduling.Plan.{PullPlan}
use multi_agent_ad_optimizer.Scheduling.Leases.{Watermark, advance, acquire}
use multi_agent_ad_optimizer.Scheduling.Outcomes.{acquire-lost}
use multi_agent_ad_optimizer.Scheduling.Tick.{
  IngestSettings, IngestReport, Schedule, Ingest, lease_name, plan_for, unit, pull, pulled,
  conclude, tick_with, tick, tick_each,
}
use multi_agent_ad_optimizer.Ingest.Records.{Builtins, SourceRecord}
use multi_agent_ad_optimizer.Ingest.Batch.{ingest}
use multi_agent_ad_optimizer.Ingest.Books.{Books, Request, IngestReportOut, IngestError}
use multi_agent_ad_optimizer.Ingest.Upsert.{IsKeyed}
use multi_agent_ad_optimizer.Ingest.Report.{ingest-rehearses, ingest-IsSettled}
use multi_agent_ad_optimizer.Ingest.Source.{
  MetricSource, to_metric_input, told, take_in, pull_feed, for_scheduler, scheduled,
}

-- The part of a schedule that a statement about watermarks and the world reads.
abbrev pub Stays : {W : Type 0} → (Dict String Watermark → W → Type 0) → Schedule W → Type 0
Stays P s = P s.marks s.world

module _ {W : Type 0} (settings : IngestSettings) (ingest : Ingest W) (detail : PullPlan → String)
    (P : Dict String Watermark → W → Type 0) where
  -- What an ingest answers keeps the statement, whichever plan the tick had.
  abbrev pub AnswerKeeps :
      String → ℕ → ℕ → Bool → Dict String Watermark → (String ⊎ IngestReport) × W → Type 0
  AnswerKeeps source start end rehearsal marks (inl error, world) = Unit
  AnswerKeeps source start end rehearsal marks (inr report, world) =
      P (advance source start end report.batch_id report.received rehearsal marks) world

  abbrev pub IngestKeeps : Bool → Type 0
  IngestKeeps rehearsal =
      (source : String) (start end : ℕ) (marks : Dict String Watermark) (world : W)
      → P marks world
      → AnswerKeeps source start end rehearsal marks (ingest source start end rehearsal world)

  conclude-Stays :
      (source : String) (plan : PullPlan) (rehearsal : Bool) (now : ℕ) (held : Schedule W)
      (answer : (String ⊎ IngestReport) × W)
      → Stays P held
      → AnswerKeeps source plan.start plan.end rehearsal held.marks answer
      → Stays P
          (conclude settings ingest detail source plan now held (
            unit
              (held.marks, held.world)
              (pulled settings ingest detail source plan rehearsal held.marks answer))).1
  unfolding conclude
  conclude-Stays source plan rehearsal now held (inl error, world) was keeps = was
  conclude-Stays source plan rehearsal now held (inr report, world) was keeps = keeps

  tick-Stays :
      (now later : ℕ) (source : String) (today : ℕ) (dry_run : Option Bool) (force : Bool)
      (s : Schedule W)
      → IngestKeeps (otherwise settings.dry_run dry_run)
      → Stays P s
      → Stays P (tick settings ingest detail now later source today dry_run force s).1
  unfolding tick tick_with pull
  tick-Stays now later source today dry_run force s keeps was =
      let plan = plan_for settings ingest detail source today s in
      let rehearsal = otherwise settings.dry_run dry_run in
      let answer =
        acquire (lease_name source) settings.holder settings.lease_ttl_seconds now s.leases in
      elim (Bool-cases (plan.covered && not force)) [
        | inl done ↦ rw done was
        | inr due ↦
            rw due
              (elim (acquire-lost (lease_name source) settings.holder settings.lease_ttl_seconds now
                s.leases) [
                  | inl won ↦ rw won (
                      let held = record s { leases = answer.1 } in
                      conclude-Stays source plan rehearsal later held
                        (ingest source plan.start plan.end rehearsal s.world) was
                        (keeps source plan.start plan.end s.marks s.world was))
                  | inr lost ↦ rw lost was
                ])
      ]

  -- What every ingest keeps, the ticks of all feeds keep.
  pub tick_each-Stays :
      (clock : String → ℕ × ℕ) (today : ℕ) (dry_run : Option Bool) (force : Bool)
      (sources : List String) (s : Schedule W)
      → IngestKeeps (otherwise settings.dry_run dry_run)
      → Stays P s
      → Stays P (tick_each settings ingest detail clock today dry_run force sources s).1
  unfolding tick_each
  tick_each-Stays clock today dry_run force [] s keeps was = was
  tick_each-Stays clock today dry_run force (source ∷ rest) s keeps was =
      tick_each-Stays clock today dry_run force rest _ keeps
        (tick-Stays (clock source).0 (clock source).1 source today dry_run force s keeps was)

module _ {F : Type 0} (builtins : Builtins F) (sources : Dict String (MetricSource F))
    (str_exc : IngestError → String) (settings : IngestSettings) (detail : PullPlan → String) where
  abbrev pub feed : ℕ → Ingest (Books F)
  feed today = scheduled builtins sources str_exc settings.holder today

  module _ (metrics : Books F → Type 0) where
    -- An answer whose books keep a statement.
    abbrev Kept : IngestError ⊎ (IngestReportOut × Books F) → Type 0
    Kept (inl error) = Unit
    Kept (inr (report, books)) = metrics books

    abbrev Told : (String ⊎ IngestReport) × Books F → Type 0
    Told (inl error, books) = Unit
    Told (inr report, books) = metrics books

    Told-told :
        (before : Books F) (answer : IngestError ⊎ (IngestReportOut × Books F))
        → Kept answer
        → Told
            (for_scheduler builtins sources str_exc before (told builtins sources str_exc answer))
    Told-told before (inl error) kept = tt
    Told-told before (inr (report, books)) kept = kept

    take_in-Told :
        (name actor : String) (rehearsal : Bool) (today : ℕ) (books : Books F)
        (answer : String ⊎ List (SourceRecord F))
        → ((request : Request F)
            → request.dry_run ≡ rehearsal
            → Kept (ingest builtins request books))
        → Told (
            for_scheduler builtins sources str_exc books
              (take_in builtins sources str_exc name rehearsal actor today books answer))
    unfolding take_in
    take_in-Told name actor rehearsal today books (inl error) keeps = tt
    take_in-Told name actor rehearsal today books (inr records) keeps =
        Told-told books
          (ingest builtins
            (record {
              records = map to_metric_input records;
              source = name;
              dry_run = rehearsal;
              actor = actor;
              today = today;
            })
            books)
          (keeps _ refl)

    -- What every ingest of the service keeps, every ingest of the scheduler keeps.
    scheduled-Keeps :
        (P : Dict String Watermark → Books F → Type 0) (rehearsal : Bool) (today : ℕ)
        → ((marks : Dict String Watermark) (books : Books F) (request : Request F)
            → P marks books
            → request.dry_run ≡ rehearsal
            → Kept (ingest builtins request books))
        → ((source : String) (start end received : ℕ) (batch_id : Option String)
              (marks : Dict String Watermark) (before after : Books F)
            → P marks before
            → metrics after
            → P (advance source start end batch_id received rehearsal marks) after)
        → IngestKeeps settings (feed today) detail P rehearsal
    unfolding scheduled pull_feed
    scheduled-Keeps P rehearsal today keeps advances source start end marks books was =
        lift
          (for_scheduler builtins sources str_exc books
            (take_in builtins sources str_exc source rehearsal _ today books _))
          (take_in-Told source _ rehearsal today books _
            (λ request same. keeps marks books request was same))
      where
        lift :
            (answer : (String ⊎ IngestReport) × Books F)
            → Told answer
            → AnswerKeeps settings (feed today) detail P source start end rehearsal marks answer
        lift (inl error, after) kept = tt
        lift (inr report, after) kept =
            advances source start end report.received report.batch_id marks books after was kept

  -- Where a scheduler rehearses, the ticks of all feeds, in whatever order, however their ingests
  -- end and whichever leases they get, leave every watermark and every stored metric as it was.
  pub rehearsed_ticks :
      (clock : String → ℕ × ℕ) (today : ℕ) (dry_run : Option Bool) (force : Bool)
      (names : List String) (s : Schedule (Books F))
      → otherwise settings.dry_run dry_run ≡ true
      → let after = (tick_each settings (feed today) detail clock today dry_run force names s).1 in
        (after.marks ≡ s.marks) × (after.world.metrics ≡ s.world.metrics)
  unfolding advance
  rehearsed_ticks clock today dry_run force names s rehearses =
      tick_each-Stays settings (feed today) detail
        (λ marks books. (marks ≡ s.marks) × (books.metrics ≡ s.world.metrics)) clock today dry_run
        force names s
        (subst (IngestKeeps settings (feed today) detail _) (sym rehearses) (
          scheduled-Keeps (λ books. books.metrics ≡ s.world.metrics)
            (λ marks books. (marks ≡ s.marks) × (books.metrics ≡ s.world.metrics)) true today
            (λ marks books request was dry.
              let (report, after, done, same) = ingest-rehearses builtins request books dry in
              rw done (same ∙ was.1))
            (λ source start end received id marks before after was kept. (was.0, kept))))
        (refl, refl)

  -- The ticks of all feeds keep the table of metrics free of a slot with two rows.
  pub ticks-IsKeyed :
      (clock : String → ℕ × ℕ) (today : ℕ) (dry_run : Option Bool) (force : Bool)
      (names : List String) (s : Schedule (Books F))
      → IsKeyed s.world.metrics
      → IsKeyed
          (tick_each settings (feed today) detail clock today dry_run force names s).1.world.metrics
  ticks-IsKeyed clock today dry_run force names s keyed =
      tick_each-Stays settings (feed today) detail (λ marks books. IsKeyed books.metrics) clock
        today dry_run force names s
        (scheduled-Keeps (λ books. IsKeyed books.metrics) (λ marks books. IsKeyed books.metrics)
          (otherwise settings.dry_run dry_run) today
          (λ marks books request was same.
            let (report, after, done, settled) = ingest-IsSettled builtins request books was in
            rw done settled.keyed)
          (λ source start end received id marks before after was kept. kept))
        keyed
