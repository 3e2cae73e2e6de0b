-- ===== src/Critic/Marks.antt =====
-- What the passes withhold, and what they record: after each pass the set of withheld ids is the
-- set before it with the ids that its findings name.
use multi_agent_ad_optimizer.Prelude.{
  ℕ, String, Bool, true, false, ◌||◌, List, [], ◌∷◌, ◌++◌, map, ◌≡◌, refl, arith, elem, any-append,
  keep, ◌==◌, string_eq, pair_eq, Bool-cases, inl, inr, if◌then◌else◌, ap,
}
use text.Mathlib.TextEquality.{eq_iff}
use multi_agent_ad_optimizer.Prelude.Dict.{Dict}
use multi_agent_ad_optimizer.Critic.Proposal.{
  Number, Proposal, action_id, campaign_of, ConflictRule, outranks, is_unexecutable, rank_lt,
  direction, campaign_conflicts, creative_conflicts,
}
use multi_agent_ad_optimizer.Critic.Finding.{Finding, suppressed_action_ids, brief}
use multi_agent_ad_optimizer.Critic.Sets.{
  add, add_all, max_from, sort_desc, group_from, enumerate_from,
}
use multi_agent_ad_optimizer.Critic.Rules.{
  Verdicts, ids_of, unexecutable, collapse, collapse_all, repeats, RepeatKey, member_lt, settle,
  settle_if_both, strong_of, weak_of, resolve, resolve_rules, resolve_groups, conflicts, oppose,
  oppose_all, spend_direction, conflict_key, takes_part, repeat_key, is_live, is_spend,
  opposing_finding,
}
use multi_agent_ad_optimizer.Critic.Review.{review}

pub elem-add : (y x : String) (ids : List String) → elem y (add x ids) ≡ (x == y || elem y ids)
unfolding add
elem-add y x ids = ground (arith, eq_iff x y, any-append (λ z. z == y) ids (x ∷ []))

pub elem-add_all :
    (y : String) (xs ids : List String) → elem y (add_all xs ids) ≡ (elem y xs || elem y ids)
unfolding add_all
elem-add_all y [] ids = refl
elem-add_all y (x ∷ xs) ids = ground (arith, elem-add_all y xs (add x ids), elem-add y x ids)

module _ {F : Type 0} where
  -- The ids that findings name: `suppressed_action_ids` of orchestrator/state.py.
  abbrev pub marked : List (Finding F) → List String
  marked [] = []
  marked (f ∷ fs) = suppressed_action_ids f ++ marked fs

  pub marked-append :
      (y : String) (fs gs : List (Finding F))
      → elem y (marked (fs ++ gs)) ≡ (elem y (marked fs) || elem y (marked gs))
  marked-append y [] gs = refl
  marked-append y (f ∷ fs) gs = ground (
    arith,
    marked-append y fs gs,
    any-append (λ x. x == y) (suppressed_action_ids f) (marked (fs ++ gs)),
    any-append (λ x. x == y) (suppressed_action_ids f) (marked fs),
  )

  -- `v` records exactly what it adds to `ids`.
  abbrev pub Marks : List String → Verdicts F → Type 0
  Marks ids v = (y : String) → elem y v.1 ≡ (elem y (marked v.0) || elem y ids)

  pub Marks-keep :
      (ids : List String) (v : Verdicts F)
      → Marks ids v
      → (y : String) → elem y ids ≡ true
      → elem y v.1 ≡ true
  Marks-keep ids v m y h = ground (arith, m y)

module _ {F : Type 0} ⦃n : Number F⦄ where
  ids-brief : (losers : List (Proposal F)) → map (λ b. b.id) (map brief losers) ≡ ids_of losers
  ids-brief [] = refl
  ids-brief (a ∷ losers) = ap (λ l. action_id a ∷ l) (ids-brief losers)

  elem-ids_brief :
      (y : String) (losers : List (Proposal F)) (ids : List String)
      → elem y (add_all (ids_of losers) ids)
        ≡ (elem y (map (λ b. b.id) (map brief losers) ++ []) || elem y ids)
  elem-ids_brief y losers ids = ground (
    arith,
    elem-add_all y (ids_of losers) ids,
    ids-brief losers,
    any-append (λ x. x == y) (map (λ b. b.id) (map brief losers)) [],
  )

  Marks-then :
      (ids : List String) (v w : Verdicts F)
      → Marks ids v
      → Marks v.1 w
      → Marks ids (v.0 ++ w.0, w.1)
  Marks-then ids v w m k y = ground (arith, m y, k y, marked-append y v.0 w.0)

  pub unexecutable-Marks :
      (i : ℕ) (actions : List (Proposal F)) (ids : List String)
      → Marks ids (unexecutable i actions ids)
  unfolding unexecutable
  unexecutable-Marks i [] ids y = refl
  unexecutable-Marks i (a ∷ rest) ids y = elim (Bool-cases (is_unexecutable a)) [
    | inl refused ↦ rw refused (
        ground (
          arith,
          unexecutable-Marks i rest (add (action_id a) ids) y,
          elem-add y (action_id a) ids,
        ))
    | inr fine ↦ rw fine (unexecutable-Marks i rest ids y)
  ]

  settle-Marks :
      (i : ℕ) (rule : ConflictRule) (key : String × String) (s : Proposal F)
      (strong : List (Proposal F)) (w : Proposal F) (weak : List (Proposal F)) (ids : List String)
      → Marks ids (settle i rule key s strong w weak ids)
  unfolding settle
  settle-Marks i rule (c, d) s strong w weak ids y =
      let overturned = outranks (max_from rank_lt w weak) (max_from rank_lt s strong) in
      elem-ids_brief y (if overturned then s ∷ strong else w ∷ weak) ids

  pub resolve-Marks :
      (i : ℕ) (rule : ConflictRule) (key : String × String) (group : List (Proposal F))
      (ids : List String)
      → Marks ids (resolve i rule key group ids)
  unfolding resolve
  resolve-Marks i rule key group ids = both (strong_of rule ids group) (weak_of rule ids group)
    where
      both :
          (strong weak : List (Proposal F)) → Marks ids (settle_if_both i rule key strong weak ids)
      both [] weak = λ y. refl
      both (s ∷ strong) [] = λ y. refl
      both (s ∷ strong) (w ∷ weak) = settle-Marks i rule key s strong w weak ids

  pub resolve_rules-Marks :
      (i : ℕ) (rules : List ConflictRule) (key : String × String) (group : List (Proposal F))
      (ids : List String)
      → Marks ids (resolve_rules i rules key group ids)
  unfolding resolve_rules
  resolve_rules-Marks i [] key group ids = λ y. refl
  resolve_rules-Marks i (rule ∷ rules) key group ids =
      Marks-then ids (resolve i rule key group ids)
        (resolve_rules i rules key group (resolve i rule key group ids).1)
        (resolve-Marks i rule key group ids)
        (resolve_rules-Marks i rules key group (resolve i rule key group ids).1)

  pub resolve_groups-Marks :
      (i : ℕ) (rules : List ConflictRule) (groups : Dict (String × String) (List (Proposal F)))
      (ids : List String)
      → Marks ids (resolve_groups i rules groups ids)
  unfolding resolve_groups
  resolve_groups-Marks i rules [] ids = λ y. refl
  resolve_groups-Marks i rules ((key, group) ∷ groups) ids =
      Marks-then ids (resolve_rules i rules key group ids)
        (resolve_groups i rules groups (resolve_rules i rules key group ids).1)
        (resolve_rules-Marks i rules key group ids)
        (resolve_groups-Marks i rules groups (resolve_rules i rules key group ids).1)

  pub conflicts-Marks :
      (i : ℕ) (rules : List ConflictRule) (by_creative : Bool) (actions : List (Proposal F))
      (ids : List String)
      → Marks ids (conflicts i rules by_creative actions ids)
  unfolding conflicts
  conflicts-Marks i rules by_creative actions ids =
      resolve_groups-Marks i rules
        (group_from conflict_key [] (keep (takes_part by_creative ids) actions)) ids

  collapse-Marks :
      (i : ℕ) (key : RepeatKey) (members : List (ℕ × Proposal F)) (ids : List String)
      → Marks ids (collapse i key members ids)
  unfolding collapse
  collapse-Marks i key [] ids y = refl
  collapse-Marks i key (m ∷ []) ids y = refl
  collapse-Marks i ((c, d), t) ((j, keeper) ∷ loser ∷ losers) ids y =
      elem-ids_brief y (map (λ m. m.1) (loser ∷ losers)) ids

  collapse_all-Marks :
      (i : ℕ) (groups : Dict RepeatKey (List (ℕ × Proposal F))) (ids : List String)
      → Marks ids (collapse_all i groups ids)
  unfolding collapse_all
  collapse_all-Marks i [] ids = λ y. refl
  collapse_all-Marks i ((key, members) ∷ groups) ids =
      let sorted = sort_desc member_lt members in
      Marks-then ids (collapse i key sorted ids)
        (collapse_all i groups (collapse i key sorted ids).1) (collapse-Marks i key sorted ids)
        (collapse_all-Marks i groups (collapse i key sorted ids).1)

  pub repeats-Marks :
      (i : ℕ) (actions : List (Proposal F)) (ids : List String) → Marks ids (repeats i actions ids)
  unfolding repeats
  repeats-Marks i actions ids =
      collapse_all-Marks i
        (group_from repeat_key [] (keep (λ m. is_live ids m.1) (enumerate_from 0 actions))) ids

  oppose_unmarked :
      (i : ℕ) (campaign : String) (group : List (Proposal F)) (y : String)
      → elem y (marked (oppose i campaign group)) ≡ false
  unfolding oppose
  oppose_unmarked i campaign group y =
      either (keep (λ a. direction a == "increase") group)
        (keep (λ a. direction a == "decrease") group)
    where
      either :
          (rises cuts : List (Proposal F))
          → elem y (marked (opposing_finding i campaign group rises cuts)) ≡ false
      either [] cuts = refl
      either (r ∷ rises) [] = refl
      either (r ∷ rises) (c ∷ cuts) = refl

  oppose_all_unmarked :
      (i : ℕ) (groups : Dict String (List (Proposal F))) (y : String)
      → elem y (marked (oppose_all i groups)) ≡ false
  unfolding oppose_all
  oppose_all_unmarked i [] y = refl
  oppose_all_unmarked i ((campaign, group) ∷ groups) y = ground (
    arith,
    marked-append y (oppose i campaign group) (oppose_all i groups),
    oppose_unmarked i campaign group y,
    oppose_all_unmarked i groups y,
  )

  -- An escalation leaves every proposal in the queue.
  pub spend_direction_unmarked :
      (i : ℕ) (actions : List (Proposal F)) (ids : List String) (y : String)
      → elem y (marked (spend_direction i actions ids)) ≡ false
  unfolding spend_direction
  spend_direction_unmarked i actions ids y =
      oppose_all_unmarked i (group_from campaign_of [] (keep (is_spend ids) actions)) y

  -- The ids that the critic withholds are the ids that its findings name.
  pub review-Marks :
      (i : ℕ) (actions : List (Proposal F)) (y : String)
      → elem y (review i actions).suppressed ≡ elem y (marked (review i actions).findings)
  unfolding review
  review-Marks i actions y =
      let v1 = unexecutable i actions [] in
      let v2 = repeats i actions v1.1 in
      let v3 = conflicts i campaign_conflicts false actions v2.1 in
      let v4 = conflicts i creative_conflicts true actions v3.1 in
      let escalated = spend_direction i actions v4.1 in
      ground (
        arith,
        unexecutable-Marks i actions [] y,
        repeats-Marks i actions v1.1 y,
        conflicts-Marks i campaign_conflicts false actions v2.1 y,
        conflicts-Marks i creative_conflicts true actions v3.1 y,
        spend_direction_unmarked i actions v4.1 y,
        marked-append y v1.0 (v2.0 ++ (v3.0 ++ (v4.0 ++ escalated))),
        marked-append y v2.0 (v3.0 ++ (v4.0 ++ escalated)),
        marked-append y v3.0 (v4.0 ++ escalated),
        marked-append y v4.0 escalated,
      )
