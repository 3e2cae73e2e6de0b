-- ===== src/Ingest/Examples.antt =====
-- The ingest of services/ingest.py at work on a small batch, with integers for floats.
use multi_agent_ad_optimizer.Prelude.{
  ℕ, ◌+◌, true, false, none, some, List, [], ◌∷◌, ◌⊎◌, inl, inr, length-keep-le, All, if◌then◌else◌,
  ◌≡◌, refl, ◌==◌, pair_eq, option_eq, nat_eq, string_eq,
}
use multi_agent_ad_optimizer.Domain.Enums.{Platform}
use multi_agent_ad_optimizer.Prelude.Text.{concat}
use multi_agent_ad_optimizer.Scheduling.Tick.{IngestSettings, Schedule, tick_each}
use multi_agent_ad_optimizer.Ingest.Records.{
  ℤ, pos, ltb_ℤ, Builtins, Measurements, MetricRecordIn, CampaignRow, DailyMetric,
  measurements_present,
}
use multi_agent_ad_optimizer.Ingest.Tables.{
  metric_slot, ids_by_external, matches_pairs, note_pairs, found_pairs, pick_pairs, existing_ids,
  owners_of, campaign_by_id, existing_slots, fresh_row, revised, update_slot, upsert_among,
  upsert_daily, opened_batch, flush_batch,
}
use multi_agent_ad_optimizer.Ingest.Attribution.{
  screen, semantic_problem, negative, identity, resolve_campaign, resolve_from, by_id, by_pair,
  sorted_set, insert_distinct, settle_on,
}
use multi_agent_ad_optimizer.Ingest.Placing.{
  attribute, lookups, those_present, place_each, place_with, owned_by, group_slots, collisions,
  split_slots, reject_duplicate_slots,
}
use multi_agent_ad_optimizer.Prelude.Dict.{get, put}
use multi_agent_ad_optimizer.Ingest.Batch.{
  ingest, sort_out, close, write_batch, write_each, write, reconciles,
}
use multi_agent_ad_optimizer.Ingest.Books.{Request, Books, IngestReportOut, IngestError}
use multi_agent_ad_optimizer.Ingest.Accounts.{of_issues, of_items}
use multi_agent_ad_optimizer.Ingest.Upsert.{IsKeyed}
use multi_agent_ad_optimizer.Ingest.Report.{ingest-IsSettled, ingest-IsStored, IsSettled, IsStored}
use multi_agent_ad_optimizer.Ingest.Disposed.{one_at, disposed_once}
use multi_agent_ad_optimizer.Ingest.Again.{IsRepeated, ingest-again}
use multi_agent_ad_optimizer.Ingest.Addressed.{IsRightful, sort_out-IsRightful}
use multi_agent_ad_optimizer.Ingest.Source.{MetricSource}
use multi_agent_ad_optimizer.Ingest.Scheduled.{feed, rehearsed_ticks}

abbrev builtins : Builtins ℤ
builtins = record {
  zero = pos 0;
  is_negative = λ n. ltb_ℤ n (pos 0);
  isoformat = λ day. "a day";
  str = λ n. "a number";
  new_id = λ kind n. if n == 0 then kind else concat (kind ∷ "+" ∷ []);
}

abbrev nothing_measured : Measurements ℤ
nothing_measured = record {
  impressions = none;
  clicks = none;
  conversions = none;
  cost = none;
  revenue = none;
  unique_reach = none;
}

abbrev cost_only : Measurements ℤ
cost_only = record nothing_measured { cost = some (pos 25) }

abbrev too_many_clicks : Measurements ℤ
too_many_clicks = record nothing_measured { impressions = some (pos 3); clicks = some (pos 7) }

-- A record for the campaign `g-1` of Google.
abbrev for_google : ℕ → Measurements ℤ → MetricRecordIn ℤ
for_google day measured = record {
  platform = some Platform.google;
  external_id = some "g-1";
  campaign_id = none;
  creative_id = none;
  stat_date = day;
  measured = measured;
}

abbrev drifted : MetricRecordIn ℤ
drifted = record (for_google 10 cost_only) { campaign_id = some "c2" }

abbrev campaigns : List CampaignRow
campaigns =
    (record { id = "c1"; name = "spring"; platform = "google"; external_id = some "g-1" })
    ∷ (record { id = "c2"; name = "autumn"; platform = "meta"; external_id = some " m-1" })
    ∷ []

abbrev stored_row : DailyMetric ℤ
stored_row = record {
  id = "met0";
  campaign_id = "c1";
  creative_id = none;
  stat_date = 10;
  impressions = pos 100;
  clicks = pos 5;
  conversions = pos 1;
  cost = pos 20;
  revenue = pos 40;
  unique_reach = pos 80;
  source = none;
  batch_id = none;
}

abbrev books : Books ℤ
books = record {
  campaigns = campaigns;
  creatives = [];
  metrics = stored_row ∷ [];
  batches = [];
  trail = [];
  drawn = 0;
}

abbrev batch : Request ℤ
batch = record {
  records =
      for_google 10 cost_only
      ∷ for_google 9 too_many_clicks
      ∷ drifted
      ∷ for_google 11 cost_only
      ∷ for_google 12 cost_only
      ∷ for_google 8 cost_only
      ∷ for_google 8 cost_only
      ∷ [];
  source = "network";
  dry_run = false;
  actor = "tester";
  today = 10;
}

books-IsKeyed : IsKeyed books.metrics
books-IsKeyed s = length-keep-le (λ row. metric_slot row == s) books.metrics

abbrev counts : IngestError ⊎ (IngestReportOut × Books ℤ) → List ℕ
counts (inl error) = []
counts (inr (report, after)) =
    report.received ∷ report.created ∷ report.updated ∷ report.rejected_count
    ∷ report.unresolved_count ∷ []

-- Of seven records one is new, one updates a slot, four are rejected and one is unresolved.
counts_test : counts (ingest builtins batch books) ≡ 7 ∷ 1 ∷ 1 ∷ 4 ∷ 1 ∷ []
unfolding ingest close write_batch write_each write reconciles sort_out screen semantic_problem
    negative measurements_present identity attribute lookups those_present place_each place_with
    owned_by resolve_campaign resolve_from by_id by_pair sorted_set insert_distinct settle_on
    ids_by_external matches_pairs note_pairs found_pairs pick_pairs existing_ids owners_of
    campaign_by_id existing_slots fresh_row revised update_slot upsert_among upsert_daily
    opened_batch flush_batch group_slots collisions split_slots reject_duplicate_slots get put
counts_test = refl

disposed_once_example :
    of_issues (one_at 2) (sort_out builtins batch books).rejected
      + of_issues (one_at 2) (sort_out builtins batch books).unresolved
      + of_items (one_at 2) (sort_out builtins batch books).attributed
    ≡ 1
disposed_once_example = disposed_once builtins batch books 2

ingest-IsSettled_example :
    (report : IngestReportOut) × (after : Books ℤ) × (ingest builtins batch books
      ≡ inr (report, after))
    × IsSettled builtins batch books report after
ingest-IsSettled_example = ingest-IsSettled builtins batch books books-IsKeyed

ingest-IsStored_example :
    (report : IngestReportOut) × (after : Books ℤ) × (ingest builtins batch books
      ≡ inr (report, after))
    × IsStored builtins batch books report after
ingest-IsStored_example = ingest-IsStored builtins batch books books-IsKeyed refl

ingest-again_example :
    (one two : IngestReportOut) × (after last : Books ℤ) × (ingest builtins batch books
      ≡ inr (one, after))
    × (ingest builtins batch after ≡ inr (two, last))
    × IsRepeated one two
ingest-again_example = ingest-again builtins batch books books-IsKeyed refl

sort_out-IsRightful_example :
    All (IsRightful builtins 10 campaigns []) (sort_out builtins batch books).attributed
sort_out-IsRightful_example = sort_out-IsRightful builtins batch books

-- A feed that reports the same cost for every target of the window's last day.
abbrev flat_feed : MetricSource ℤ
flat_feed = record {
  name = "network";
  fetch = λ start end targets. inr (
      (record {
        stat_date = end;
        platform = some Platform.google;
        external_id = some "g-1";
        campaign_id = none;
        creative_id = none;
        measured = cost_only;
      })
      ∷ []);
}

abbrev settings : IngestSettings
settings = record {
  sources = "network" ∷ "shop" ∷ [];
  lookback_days = 3;
  max_catchup_days = 14;
  lease_ttl_seconds = 1800;
  dry_run = true;
  holder = "a";
}

abbrev schedule : Schedule (Books ℤ)
schedule = record { marks = []; leases = []; world = books }

abbrev ticked : Schedule (Books ℤ)
ticked =
    (tick_each settings
      (feed builtins (("network", flat_feed) ∷ []) (λ e. "ingest failed") settings (λ plan. "") 10)
      (λ plan. "") (λ source. (5, 6)) 10 none false settings.sources schedule).1

rehearsed_ticks_example : (ticked.marks ≡ []) × (ticked.world.metrics ≡ stored_row ∷ [])
rehearsed_ticks_example =
    rehearsed_ticks builtins (("network", flat_feed) ∷ []) (λ e. "ingest failed") settings
      (λ plan. "") (λ source. (5, 6)) 10 none false settings.sources schedule refl
