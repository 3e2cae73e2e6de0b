-- ===== src/Critic/Rules.antt =====
-- The passes of `CriticAgent` in agents/critic.py. The set of withheld ids is passed from one to
-- the next, and each pass returns its findings with the set that it leaves.
use multi_agent_ad_optimizer.Prelude.{
  ℕ, ◌+◌, String, Bool, true, false, not, ◌&&◌, List, [], ◌∷◌, ◌++◌, map, keep, elem, length, ltb,
  if◌then◌else◌, ◌==◌, string_eq, nat_eq, pair_eq,
}
use multi_agent_ad_optimizer.Prelude.Dict.{Dict}
use multi_agent_ad_optimizer.Critic.Proposal.{
  Number, Proposal, action_id, action_type, direction, reference, iteration_of, campaign_of,
  creative_of, is_unexecutable, confidence, rank_lt, outranks, spend_actions, ConflictRule,
}
use multi_agent_ad_optimizer.Critic.Sets.{
  add, add_all, group_from, max_from, sort_desc, enumerate_from,
}
use multi_agent_ad_optimizer.Critic.Finding.{
  Finding, refused_in_rehearsal, proposed_times, outweighs, supersedes, opposing, brief, standing,
}

-- Findings, with the set of withheld ids after them.
abbrev pub Verdicts : Type 0 → Type 0
Verdicts F = List (Finding F) × List String

abbrev pub RepeatKey : Type 0
RepeatKey = (String × String) × String

abbrev pub scope_of : String → String
scope_of creative = if creative == "" then "campaign" else "creative"

module _ {F : Type 0} where
  abbrev pub ids_of : List (Proposal F) → List String
  ids_of = map action_id

  abbrev pub is_live : List String → Proposal F → Bool
  is_live suppressed a = not (elem (action_id a) suppressed)

  abbrev pub conflict_key : Proposal F → String × String
  conflict_key a = (campaign_of a, creative_of a)

  abbrev pub takes_part : Bool → List String → Proposal F → Bool
  takes_part by_creative suppressed a =
      is_live suppressed a && not (by_creative && creative_of a == "")

  abbrev pub is_spend : List String → Proposal F → Bool
  is_spend suppressed a = is_live suppressed a && elem (action_type a) spend_actions

module _ {F : Type 0} ⦃n : Number F⦄ where
  -- `_unexecutable`
  abbrev pub unexecutable_finding : ℕ → Proposal F → Finding F
  unexecutable_finding iteration a = record {
    kind = "unexecutable_proposal";
    scope = scope_of (creative_of a);
    campaign = campaign_of a;
    creative = creative_of a;
    kept_id = "";
    kept_type = "none";
    kept_confidence = n.zero;
    suppressed = brief a ∷ [];
    reason = refused_in_rehearsal (action_type a) (campaign_of a) (creative_of a) a.preflight;
    iteration = iteration;
    escalate = false;
  }

  unfoldable pub unexecutable : ℕ → List (Proposal F) → List String → Verdicts F
  unexecutable iteration [] suppressed = ([], suppressed)
  unexecutable iteration (a ∷ rest) suppressed =
      let withheld = if is_unexecutable a then add (action_id a) suppressed else suppressed in
      let (findings, ids) = unexecutable iteration rest withheld in
      (if is_unexecutable a then unexecutable_finding iteration a ∷ findings else findings, ids)

  -- The sort key of `_repeats`, as a strict order: rank, then iteration, then the earlier index.
  unfoldable pub member_lt : ℕ × Proposal F → ℕ × Proposal F → Bool
  member_lt (i, a) (j, b) =
      if rank_lt a b
      then true
      else if rank_lt b a
      then false
      else if iteration_of a == iteration_of b
      then ltb j i
      else ltb (iteration_of a) (iteration_of b)

  abbrev pub repeat_key : ℕ × Proposal F → RepeatKey
  repeat_key (i, a) = ((campaign_of a, creative_of a), action_type a)

  abbrev pub repeat_finding : ℕ → RepeatKey → ℕ → Proposal F → List (Proposal F) → Finding F
  repeat_finding iteration ((campaign, creative), type) times keeper losers = record {
    kind = "duplicate_proposal";
    scope = scope_of creative;
    campaign = campaign;
    creative = creative;
    kept_id = action_id keeper;
    kept_type = type;
    kept_confidence = confidence keeper;
    suppressed = map brief losers;
    reason = proposed_times type times campaign creative (confidence keeper);
    iteration = iteration;
    escalate = false;
  }

  -- One group of `_repeats`, its members sorted.
  unfoldable pub collapse : ℕ → RepeatKey → List (ℕ × Proposal F) → List String → Verdicts F
  collapse iteration key [] suppressed = ([], suppressed)
  collapse iteration key (_ ∷ []) suppressed = ([], suppressed)
  collapse iteration key ((_, keeper) ∷ loser ∷ losers) suppressed =
      let withheld = map (λ m. m.1) (loser ∷ losers) in
      (
        repeat_finding iteration key (length losers + 2) keeper withheld ∷ [],
        add_all (ids_of withheld) suppressed,
      )

  unfoldable pub collapse_all :
      ℕ → Dict RepeatKey (List (ℕ × Proposal F)) → List String → Verdicts F
  collapse_all iteration [] suppressed = ([], suppressed)
  collapse_all iteration ((key, members) ∷ groups) suppressed =
      let (found, ids) = collapse iteration key (sort_desc member_lt members) suppressed in
      let (more, ids') = collapse_all iteration groups ids in (found ++ more, ids')

  -- `_repeats`
  unfoldable pub repeats : ℕ → List (Proposal F) → List String → Verdicts F
  repeats iteration actions suppressed =
      collapse_all iteration
        (group_from repeat_key [] (keep (λ m. is_live suppressed m.1) (enumerate_from 0 actions)))
        suppressed

  -- `_resolve`, for a group that holds live proposals of both sides.
  unfoldable pub settle :
      ℕ
      → ConflictRule
      → String × String
      → Proposal F
      → List (Proposal F)
      → Proposal F
      → List (Proposal F)
      → List String
      → Verdicts F
  settle iteration rule (campaign, creative) s strong w weak suppressed =
      let keeper = max_from rank_lt s strong in
      let challenger = max_from rank_lt w weak in
      let overturned = outranks challenger keeper in
      let losers = if overturned then s ∷ strong else w ∷ weak in
      let winner = if overturned then challenger else keeper in
      (
        record {
          kind = rule.kind;
          scope = scope_of creative;
          campaign = campaign;
          creative = creative;
          kept_id = action_id winner;
          kept_type = action_type winner;
          kept_confidence = confidence winner;
          suppressed = map brief losers;
          reason =
              if overturned
              then outweighs (standing challenger) (standing keeper) campaign creative
                  (map action_type losers)
              else supersedes (standing keeper) (map action_type losers) campaign creative;
          iteration = iteration;
          escalate = false;
        }
            ∷ [],
        add_all (ids_of losers) suppressed,
      )

  abbrev pub settle_if_both :
      ℕ
      → ConflictRule
      → String × String
      → List (Proposal F)
      → List (Proposal F)
      → List String
      → Verdicts F
  settle_if_both iteration rule key [] weak suppressed = ([], suppressed)
  settle_if_both iteration rule key (s ∷ strong) [] suppressed = ([], suppressed)
  settle_if_both iteration rule key (s ∷ strong) (w ∷ weak) suppressed =
      settle iteration rule key s strong w weak suppressed

  abbrev pub strong_of : ConflictRule → List String → List (Proposal F) → List (Proposal F)
  strong_of rule suppressed group =
      keep (λ a. action_type a == rule.dominant) (keep (is_live suppressed) group)

  abbrev pub weak_of : ConflictRule → List String → List (Proposal F) → List (Proposal F)
  weak_of rule suppressed group =
      keep (λ a. elem (action_type a) rule.contradicted) (keep (is_live suppressed) group)

  unfoldable pub resolve :
      ℕ → ConflictRule → String × String → List (Proposal F) → List String → Verdicts F
  resolve iteration rule key group suppressed =
      settle_if_both iteration rule key (strong_of rule suppressed group)
        (weak_of rule suppressed group) suppressed

  -- The two loops of `_conflicts`: the rules of one group, then the groups.
  unfoldable pub resolve_rules :
      ℕ → List ConflictRule → String × String → List (Proposal F) → List String → Verdicts F
  resolve_rules iteration [] key group suppressed = ([], suppressed)
  resolve_rules iteration (rule ∷ rules) key group suppressed =
      let (found, ids) = resolve iteration rule key group suppressed in
      let (more, ids') = resolve_rules iteration rules key group ids in (found ++ more, ids')

  unfoldable pub resolve_groups :
      ℕ → List ConflictRule → Dict (String × String) (List (Proposal F)) → List String → Verdicts F
  resolve_groups iteration rules [] suppressed = ([], suppressed)
  resolve_groups iteration rules ((key, group) ∷ groups) suppressed =
      let (found, ids) = resolve_rules iteration rules key group suppressed in
      let (more, ids') = resolve_groups iteration rules groups ids in (found ++ more, ids')

  -- `_conflicts`
  unfoldable pub conflicts :
      ℕ → List ConflictRule → Bool → List (Proposal F) → List String → Verdicts F
  conflicts iteration rules by_creative actions suppressed =
      resolve_groups iteration rules
        (group_from conflict_key [] (keep (takes_part by_creative suppressed) actions)) suppressed

  abbrev pub opposing_finding :
      ℕ → String → List (Proposal F) → List (Proposal F) → List (Proposal F) → List (Finding F)
  opposing_finding iteration campaign group [] cuts = []
  opposing_finding iteration campaign group (r ∷ rises) [] = []
  opposing_finding iteration campaign group (r ∷ rises) (c ∷ cuts) =
      record {
        kind = "opposing_spend_intent";
        scope = "campaign";
        campaign = campaign;
        creative = "";
        kept_id = "";
        kept_type = "none";
        kept_confidence = n.zero;
        suppressed = [];
        reason =
            opposing campaign (map action_type (r ∷ rises)) (map action_type (c ∷ cuts))
              (map reference (keep (λ a. not (reference a == "")) group));
        iteration = iteration;
        escalate = true;
      }
      ∷ []

  -- `_spend_direction`: the finding for one campaign, if its live spend proposals disagree.
  unfoldable pub oppose : ℕ → String → List (Proposal F) → List (Finding F)
  oppose iteration campaign group =
      opposing_finding iteration campaign group (keep (λ a. direction a == "increase") group)
        (keep (λ a. direction a == "decrease") group)

  unfoldable pub oppose_all : ℕ → Dict String (List (Proposal F)) → List (Finding F)
  oppose_all iteration [] = []
  oppose_all iteration ((campaign, group) ∷ groups) =
      oppose iteration campaign group ++ oppose_all iteration groups

  unfoldable pub spend_direction : ℕ → List (Proposal F) → List String → List (Finding F)
  spend_direction iteration actions suppressed =
      oppose_all iteration (group_from campaign_of [] (keep (is_spend suppressed) actions))
