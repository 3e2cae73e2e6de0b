-- ===== src/Ingest/Attribution.antt =====
-- `_semantic_problem`, `_resolve_campaign`, `IngestService._attribute` and `_reject_duplicate_slots` of
-- services/ingest.py. A list that the code appends to is handed back with what was appended.
use multi_agent_ad_optimizer.Prelude.{
  ℕ, suc, ◌+◌, String, Bool, true, false, not, ◌||◌, Option, none, some, List, [], ◌∷◌, ◌++◌, elem,
  if◌then◌else◌, ltb, ◌==◌, string_eq, nat_eq, pair_eq, option_eq,
}
use Prim.Native.Nat.{Ordering}
use Prim.Native.String.{compare as compare_text}
use multi_agent_ad_optimizer.Prelude.Dict.{Dict, get}
use multi_agent_ad_optimizer.Prelude.Text.{concat, join}
use multi_agent_ad_optimizer.Domain.Enums.{Platform, platform_value}
use multi_agent_ad_optimizer.Ingest.Records.{
  ℤ, pos, ltb_ℤ, Builtins, MetricRecordIn, IngestIssue, is_filled, measurements_present,
}
use multi_agent_ad_optimizer.Ingest.Tables.{is_empty}

-- `MAX_FUTURE_DAYS`
abbrev pub max_future_days : ℕ
max_future_days = 1

-- The two values are there and the first is greater.
abbrev pub exceeds : Option ℤ → Option ℤ → Bool
exceeds (some a) (some b) = ltb_ℤ b a
exceeds _ _ = false

abbrev pub is_below_zero : {A : Type 0} → (A → Bool) → Option A → Bool
is_below_zero test none = false
is_below_zero test (some value) = test value

abbrev pub negative_name : {A : Type 0} → String → (A → Bool) → Option A → List String
negative_name name test value = if is_below_zero test value then name ∷ [] else []

abbrev pub is_negative_count : ℤ → Bool
is_negative_count n = ltb_ℤ n (pos 0)

-- `a < b`
abbrev pub precedes : String → String → Bool
precedes a b = elim (compare_text a b) [ Ordering.lt ↦ true | _ ↦ false ]

-- `sorted(set(texts))`
unfoldable pub insert_distinct : String → List String → List String
insert_distinct a [] = a ∷ []
insert_distinct a (b ∷ rest) =
    let later = b ∷ insert_distinct a rest in
    if a == b then b ∷ rest else if precedes a b then a ∷ b ∷ rest else later

unfoldable pub sorted_set : List String → List String
sorted_set [] = []
sorted_set (a ∷ rest) = insert_distinct a (sorted_set rest)

-- The value of a text that is there and not empty.
abbrev pub filled : Option String → Option String
filled value = if is_filled value then value else none

-- The platform and the external id, where a record has both.
abbrev pub addressed_pair : Option Platform → Option String → Option (String × String)
addressed_pair none external = none
addressed_pair (some p) none = none
addressed_pair (some p) (some e) = if e == "" then none else some (platform_value p, e)

module _ {F : Type 0} where
  abbrev pub pair_of : MetricRecordIn F → Option (String × String)
  pair_of r = addressed_pair r.platform r.external_id

  -- `MetricRecordIn.identity`
  unfoldable pub identity : MetricRecordIn F → String
  identity r = elim (filled r.campaign_id) [
    | some id ↦ concat ("campaign_id=" ∷ id ∷ [])
    | none ↦ elim (pair_of r) [
      | some pair ↦ concat (pair.0 ∷ "/" ∷ pair.1 ∷ [])
      | none ↦ "unaddressed"
    ]
  ]

  -- `_issue`
  abbrev pub issue : ℕ → MetricRecordIn F → String → IngestIssue
  issue index r reason = record {
    index = index;
    reason = reason;
    identity = identity r;
    stat_date = r.stat_date;
  }

  abbrev pub is_addressed : MetricRecordIn F → Bool
  is_addressed r = is_filled r.campaign_id || elim (pair_of r) [ none ↦ false | some _ ↦ true ]

  -- The names of the negative measurements.
  unfoldable pub negative : Builtins F → MetricRecordIn F → List String
  negative builtins r =
      let m = r.measured in
      negative_name "impressions" is_negative_count m.impressions
      ++ negative_name "clicks" is_negative_count m.clicks
      ++ negative_name "conversions" is_negative_count m.conversions
      ++ negative_name "cost" builtins.is_negative m.cost
      ++ negative_name "revenue" builtins.is_negative m.revenue
      ++ negative_name "unique_reach" is_negative_count m.unique_reach

  -- `_semantic_problem`
  unfoldable pub semantic_problem : Builtins F → ℕ → MetricRecordIn F → Option String
  semantic_problem builtins today r =
      if not (is_addressed r)
      then some (
          concat (
            "record carries neither campaign_id nor platform+external_id, "
            ∷ "so it cannot be attributed to a campaign" ∷ []))
      else if not (is_empty (negative builtins r))
      then some (concat ("negative value for " ∷ join ", " (negative builtins r) ∷ []))
      else if exceeds r.measured.clicks r.measured.impressions
      then some "clicks exceed impressions within one record"
      else if exceeds r.measured.conversions r.measured.clicks
      then some "conversions exceed clicks within one record"
      else if is_empty (measurements_present r)
      then some "record asserts no measurements; every column is absent"
      else if ltb (today + max_future_days) r.stat_date
      then some (
          concat (
            "stat_date "
            ∷ builtins.isoformat r.stat_date
            ∷ " is more than "
            ∷ builtins.str max_future_days
            ∷ " day(s) ahead of today"
            ∷ []))
      else none

  -- The loop of `ingest` over the records: the rejected ones and the validated ones with their index.
  unfoldable pub screen :
      Builtins F → ℕ → ℕ → List (MetricRecordIn F) → List IngestIssue × List (ℕ × MetricRecordIn F)
  screen builtins today index [] = ([], [])
  screen builtins today index (r ∷ rest) =
      let (rejected, validated) = screen builtins today (suc index) rest in
      elim (semantic_problem builtins today r) [
        | some problem ↦ (issue index r problem ∷ rejected, validated)
        | none ↦ (rejected, (index, r) ∷ validated)
      ]

-- The candidates and the problems of an internal id.
unfoldable pub by_id : Option String → List String → List String × List String
by_id none known = ([], [])
by_id (some id) known =
    if elem id known then (id ∷ [], []) else ([], concat ("no campaign has id " ∷ id ∷ []) ∷ [])

-- The candidates and the problems of the platform coordinates.
unfoldable pub by_pair :
    Option (String × String) → Dict (String × String) String → List String × List String
by_pair none external_map = ([], [])
by_pair (some pair) external_map = elim (get pair external_map) [
  | some mapped ↦ (mapped ∷ [], [])
  | none ↦ ([], concat ("no campaign matches " ∷ pair.0 ∷ "/" ∷ pair.1 ∷ []) ∷ [])
]

-- The end of `_resolve_campaign`, for the distinct candidates.
unfoldable pub settle_on : List String → Option String × Option String
settle_on [] = (none, some "record could not be resolved to a campaign")
settle_on (id ∷ []) = (some id, none)
settle_on (id ∷ other ∷ rest) = (
  none,
  some (
      concat (
        "record addresses two different campaigns ("
        ∷ join " and " (id ∷ other ∷ rest)
        ∷ "); the internal id and the platform coordinates disagree"
        ∷ [])),
)

unfoldable pub resolve_from :
    List String × List String → List String × List String → Option String × Option String
resolve_from (ids, problems) (mapped, more) =
    if is_empty (problems ++ more)
    then settle_on (sorted_set (ids ++ mapped))
    else (none, some (join "; " (problems ++ more)))

module _ {F : Type 0} where
  -- `_resolve_campaign`
  unfoldable pub resolve_campaign :
      List String → Dict (String × String) String → MetricRecordIn F → Option String × Option String
  resolve_campaign known_campaigns external_map r =
      resolve_from (by_id (filled r.campaign_id) known_campaigns) (by_pair (pair_of r) external_map)
