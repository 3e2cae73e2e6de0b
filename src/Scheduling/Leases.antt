-- ===== src/Scheduling/Leases.antt =====
-- repositories/scheduling.py: the watermark of a feed and the lease of a pull. Instants are seconds.
-- The conditional update of `acquire` and the insert of a missing row are one step here, as the
-- database's row lock and the primary key make them.
use multi_agent_ad_optimizer.Prelude.{
  ℕ, ◌+◌, min, max, String, Bool, true, false, Option, none, some, ltb, if◌then◌else◌, ◌==◌,
  string_eq,
}
use multi_agent_ad_optimizer.Prelude.Text.{clip}
use multi_agent_ad_optimizer.Prelude.Dict.{Dict, get, put}

pub record Watermark : Type 0 where
  pub window_start : ℕ
  pub window_end : ℕ
  pub batch_id : Option String
  pub received : ℕ

pub record Lease : Type 0 where
  pub holder : String
  pub acquired_at : ℕ
  pub expires_at : Option ℕ
  pub last_outcome : String
  pub last_message : String
  pub last_batch_id : Option String
  pub last_finished_at : Option ℕ
  pub consecutive_failures : ℕ

abbrev pub widened : Option Watermark → ℕ → ℕ → Option String → ℕ → Watermark
widened none start end batch_id received = record {
  window_start = start;
  window_end = end;
  batch_id = batch_id;
  received = received;
}
widened (some row) start end batch_id received = record {
  window_start = min row.window_start start;
  window_end = max row.window_end end;
  batch_id = batch_id;
  received = received;
}

-- `WatermarkRepository.advance`
unfoldable pub advance :
    String → ℕ → ℕ → Option String → ℕ → Bool → Dict String Watermark → Dict String Watermark
advance source start end batch_id received dry_run marks =
    if dry_run
    then marks
    else put source (widened (get source marks) start end batch_id received) marks

-- The condition of the update: no expiry, or one that has passed.
abbrev pub is_free : ℕ → Lease → Bool
is_free now row = elim row.expires_at [ none ↦ true | some until ↦ ltb until now ]

abbrev pub claimed : String → ℕ → ℕ → Lease → Lease
claimed holder now ttl row = record row {
  holder = holder;
  acquired_at = now;
  expires_at = some (now + ttl);
}

abbrev pub new_lease : String → ℕ → ℕ → Lease
new_lease holder now ttl = record {
  holder = holder;
  acquired_at = now;
  expires_at = some (now + ttl);
  last_outcome = "";
  last_message = "";
  last_batch_id = none;
  last_finished_at = none;
  consecutive_failures = 0;
}

unfoldable pub acquire_row :
    String → String → ℕ → ℕ → Option Lease → Dict String Lease → Bool × Dict String Lease
acquire_row name holder ttl now none leases = (true, put name (new_lease holder now ttl) leases)
acquire_row name holder ttl now (some row) leases =
    if is_free now row
    then (true, put name (claimed holder now ttl row) leases)
    else (false, leases)

-- `LeaseRepository.acquire`
unfoldable pub acquire : String → String → ℕ → ℕ → Dict String Lease → Bool × Dict String Lease
acquire name holder ttl now leases = acquire_row name holder ttl now (get name leases) leases

-- What `record_outcome` is told.
pub record Outcome : Type 0 where
  pub outcome : String
  pub message : String
  pub batch_id : Option String
  pub failed : Bool

abbrev pub finished : Outcome → ℕ → Lease → Lease
finished o now row = record row {
  holder = "";
  expires_at = none;
  last_outcome = o.outcome;
  last_message = clip 300 o.message;
  last_batch_id = o.batch_id;
  last_finished_at = some now;
  consecutive_failures = if o.failed then row.consecutive_failures + 1 else 0;
}

unfoldable pub record_row :
    String → String → Outcome → ℕ → Option Lease → Dict String Lease → Bool × Dict String Lease
record_row name holder o now none leases = (false, leases)
record_row name holder o now (some row) leases =
    if row.holder == holder then (true, put name (finished o now row) leases) else (false, leases)

-- `LeaseRepository.record_outcome`
unfoldable pub record_outcome :
    String → String → Outcome → ℕ → Dict String Lease → Bool × Dict String Lease
record_outcome name holder o now leases = record_row name holder o now (get name leases) leases
