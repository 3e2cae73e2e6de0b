-- ===== src/Ingest/Records.antt =====
-- The rows that services/ingest.py reads and writes (infra/db/models.py), the records of a feed
-- (infra/ingest/base.py) and the wire contract (schemas/ingest.py). A date is its ordinal, `F` is the
-- type of floats. Rounding a count that a feed sends as a double is left out.
use multi_agent_ad_optimizer.Prelude.{
  ℕ, String, Bool, true, false, not, Option, none, some, List, [], ◌∷◌, ◌++◌, if◌then◌else◌, ltb,
  ◌==◌, string_eq, nat_eq,
}
use multi_agent_ad_optimizer.Prelude.Text.{strip}
use multi_agent_ad_optimizer.Domain.Enums.{Platform}

-- Python's `int`.
pub data ℤ : Type 0 where
  pos negsuc : ℕ → ℤ

-- `a < b`
abbrev pub ltb_ℤ : ℤ → ℤ → Bool
ltb_ℤ (pos a) (pos b) = ltb a b
ltb_ℤ (pos a) (negsuc b) = false
ltb_ℤ (negsuc a) (pos b) = true
ltb_ℤ (negsuc a) (negsuc b) = ltb b a

-- What the service uses of Python's floats, dates and printing, and the draws of `new_id`.
pub record Builtins (F : Type 0) : Type 0 where
  pub zero : F
  pub is_negative : F → Bool
  pub isoformat : ℕ → String
  pub str : ℕ → String
  pub new_id : String → ℕ → String

-- The columns that a feed can measure.
pub record Measurements (F : Type 0) : Type 0 where
  pub impressions : Option ℤ
  pub clicks : Option ℤ
  pub conversions : Option ℤ
  pub cost : Option F
  pub revenue : Option F
  pub unique_reach : Option ℤ

pub record SourceRecord (F : Type 0) : Type 0 where
  pub stat_date : ℕ
  pub platform : Option Platform
  pub external_id : Option String
  pub campaign_id : Option String
  pub creative_id : Option String
  pub measured : Measurements F

pub record MetricRecordIn (F : Type 0) : Type 0 where
  pub platform : Option Platform
  pub external_id : Option String
  pub campaign_id : Option String
  pub creative_id : Option String
  pub stat_date : ℕ
  pub measured : Measurements F

-- `_blank_is_absent`
unfoldable pub blank_is_absent : Option String → Option String
blank_is_absent none = none
blank_is_absent (some value) =
    let stripped = strip value in if stripped == "" then none else some stripped

-- `bool(value)` of a text that may be absent.
abbrev pub is_filled : Option String → Bool
is_filled none = false
is_filled (some value) = not (value == "")

abbrev pub name_of : {A : Type 0} → String → Option A → List String
name_of name none = []
name_of name (some _) = name ∷ []

-- `measurements_present`
unfoldable pub measurements_present : {F : Type 0} → MetricRecordIn F → List String
measurements_present r =
    let m = r.measured in
    name_of "impressions" m.impressions
    ++ name_of "clicks" m.clicks
    ++ name_of "conversions" m.conversions
    ++ name_of "cost" m.cost
    ++ name_of "revenue" m.revenue
    ++ name_of "unique_reach" m.unique_reach

-- What a row points at: a campaign, its creative if the row is one of the breakdown, a day.
abbrev pub MetricSlot : Type 0
MetricSlot = String × (Option String × ℕ)

pub record IngestIssue : Type 0 where
  pub index : ℕ
  pub reason : String
  pub identity : String
  pub stat_date : ℕ

pub record CampaignRow : Type 0 where
  pub id : String
  pub name : String
  pub platform : String
  pub external_id : Option String

pub record CreativeRow : Type 0 where
  pub id : String
  pub campaign_id : String

pub record IngestBatch : Type 0 where
  pub id : String
  pub source : String
  pub actor : String
  pub received : ℕ
  pub created : ℕ
  pub updated : ℕ
  pub rejected : ℕ
  pub unresolved : ℕ
  pub dry_run : Bool
  pub window_start : Option ℕ
  pub window_end : Option ℕ

pub record DailyMetric (F : Type 0) : Type 0 where
  pub id : String
  pub campaign_id : String
  pub creative_id : Option String
  pub stat_date : ℕ
  pub impressions : ℤ
  pub clicks : ℤ
  pub conversions : ℤ
  pub cost : F
  pub revenue : F
  pub unique_reach : ℤ
  pub source : Option String
  pub batch_id : Option String
