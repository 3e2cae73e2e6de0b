-- ===== src/Llm/Spending.antt =====
-- The tallies of llm/gateway.py and the rows of the ledger of llm/ledger.py.
use multi_agent_ad_optimizer.Prelude.{
  ℕ, zero, suc, String, Bool, false, not, Option, none, some, List, [], ◌∷◌, ◌++◌, ◌⊎◌, inl, inr,
  if◌then◌else◌, ◌≡◌, ◌≢◌, refl, sym, ap, ◌∙◌, arith, Bool-cases, Option-cases, Sum-cases, ◌==◌,
  string_eq, option_eq, ==_sound,
}
use multi_agent_ad_optimizer.Prelude.Dict.{Dict, get_or, get_or-put}
use multi_agent_ad_optimizer.Prelude.Text.{strip}
use multi_agent_ad_optimizer.Llm.Gateway.{
  usage, judged, give_up, attempt, call_with_retry, enforce_budget, read_cache, settle_call,
  complete_within, complete_after, complete, complete_all, no_usage, tally_add, tally_usage, spend,
}
use multi_agent_ad_optimizer.Llm.Records.{
  CompletionResult, ProviderError, unavailable, unexpected, GatewayError, SpendRecord, Tally, Call,
  Hub, Parts,
}

module _ {F R C W : Type 0} (g : Parts F R C W) where
  -- The provider never says that its answer came from a cache.
  abbrev pub IsUncached : Type 0
  IsUncached =
      (request : R) (streams : Bool) (w : W) (result : CompletionResult F)
      → (g.primary request streams w).0 ≡ inr result
      → result.cached ≡ false

  -- The tally of a run's rows.
  unfoldable pub tallied : String → List (SpendRecord F) → Tally F → Tally F
  tallied run [] t = t
  tallied run (row ∷ rows) t =
      tallied run rows (if row.run_id == some run then tally_add g row.usage t else t)

  -- What the gateway reports of a run is what the ledger's rows of the run add up to.
  abbrev pub Agrees : String → Hub F C W → Type 0
  Agrees run h = usage g run h ≡ tallied run h.rows (no_usage g)

  tallied-append :
      (run : String) (rows : List (SpendRecord F)) (row : SpendRecord F) (t : Tally F)
      → tallied run (rows ++ row ∷ []) t ≡ (
          if row.run_id == some run
          then tally_add g row.usage (tallied run rows t)
          else tallied run rows t)
  unfolding tallied
  tallied-append run [] row t = refl
  tallied-append run (r ∷ rows) row t = tallied-append run rows row _

  abbrev IsFresh : GatewayError ⊎ CompletionResult F → Type 0
  IsFresh (inl e) = Unit
  IsFresh (inr result) = result.cached ≡ false

  judged-inr :
      (answer : ProviderError ⊎ CompletionResult F) (result : CompletionResult F)
      → judged g answer ≡ inr result
      → answer ≡ inr result
  judged-inr (inl e) result same = absurd (ground (arith, same))
  judged-inr (inr r) result same = elim (Bool-cases (strip r.text == "")) [
    | inl empty ↦ absurd (ground (arith, rw (empty, judged) at same))
    | inr full ↦ rw (full, judged) at same
  ]

  module _ (uncached : IsUncached) where
    attempt-IsFresh :
        (request : R) (streams : Bool) (left : ℕ) (last_error : Option String) (w : W)
        → IsFresh (attempt g request streams left last_error w).0
    unfolding attempt give_up
    attempt-IsFresh request streams zero last_error w =
        elim (Bool-cases g.settings.fail_open_to_mock) [
          | inl opens ↦ rw opens refl
          | inr closed ↦ rw closed tt
        ]
    attempt-IsFresh request streams (suc left) last_error w =
        elim (Sum-cases (judged g (g.primary request streams w).0)) [
          | inl (e, failed) ↦
              elim e
                  as (λ e.
                    judged g (g.primary request streams w).0 ≡ inl e
                    → IsFresh (attempt g request streams (suc left) last_error w).0) [
                      | unavailable text ↦ λ failed.
                          rw (failed, attempt) (attempt-IsFresh request false left (some text) _)
                      | unexpected text ↦ λ failed. rw (failed, attempt) tt
                    ]
                failed
          | inr (result, fine) ↦
              rw (fine, attempt) (uncached request streams w result (judged-inr _ result fine))
        ]

    module _ (run : String) (named : run ≢ "") where
      -- One more row and one more call of the tally.
      tally_usage-row :
          (id : Option String) (agent : String) (result : CompletionResult F) (now : ℕ)
          (tallies : Dict String (Tally F)) (rows : List (SpendRecord F))
          → get_or run (no_usage g) tallies ≡ tallied run rows (no_usage g)
          → get_or run (no_usage g) (tally_usage g id result tallies)
            ≡ tallied run
                (rows
                  ++ (record {
                    run_id = id;
                    agent = agent;
                    usage = result.usage;
                    degraded = result.degraded;
                    created_at = now;
                  })
                    ∷ [])
                (no_usage g)
      unfolding tally_usage
      tally_usage-row none agent result now tallies rows agrees =
          agrees ∙ sym (tallied-append run rows _ (no_usage g))
      tally_usage-row (some id) agent result now tallies rows agrees =
          let appended =
            tallied-append run rows
              (record {
                run_id = some id;
                agent = agent;
                usage = result.usage;
                degraded = result.degraded;
                created_at = now;
              })
              (no_usage g) in
          elim (Bool-cases (id == run)) [
            | inl same ↦
                let filled' : (id == "") ≡ false =
                  ground (arith, string_eq.decides id "", string_eq.decides id run, same, named) in
                rw filled' (
                  get_or-put id run (no_usage g) _ tallies
                  ∙ rw same (
                      ap (tally_add g result.usage)
                        (ap (λ k. get_or k (no_usage g) tallies) (==_sound id run same) ∙ agrees)
                      ∙ sym (rw same at appended)))
            | inr apart ↦
                let kept : get_or run (no_usage g) (tally_usage g (some id) result tallies)
                    ≡ get_or run (no_usage g) tallies =
                  elim (Bool-cases (id == "")) [
                    | inl blank ↦ rw (blank, tally_usage) refl
                    | inr filled' ↦
                        rw (filled', tally_usage)
                          (get_or-put id run (no_usage g) _ tallies ∙ rw apart refl)
                  ] in
                kept ∙ agrees ∙ sym (rw apart at appended)
          ]

      settle_call-Agrees :
          (call : Call R) (h : Hub F C W) (answer : (GatewayError ⊎ CompletionResult F) × W)
          → IsFresh answer.0
          → Agrees run h
          → Agrees run (settle_call g call h answer).1
      unfolding settle_call usage spend
      settle_call-Agrees call h (inl e, w) fresh agrees = agrees
      settle_call-Agrees call h (inr result, w) fresh agrees =
          elim (Bool-cases (not call.ledger_up)) [
            | inl down ↦ rw down agrees
            | inr up ↦ rw up (
                simp (fresh) (
                  tally_usage-row call.run_id call.agent result call.now h.usage_by_run h.rows
                    agrees))
          ]

      complete_after-Agrees :
          (call : Call R) (h : Hub F C W) (verdict : Option GatewayError × Bool)
          → Agrees run h
          → Agrees run (complete_after g call h verdict).1
      unfolding complete_after complete_within call_with_retry usage
      complete_after-Agrees call h (some e, exceeded) agrees = agrees
      complete_after-Agrees call h (none, exceeded) agrees =
          elim (Option-cases (read_cache g call.cache_key h.cache)) [
            | inl missed ↦
                rw (missed, complete_within)
                  (settle_call-Agrees call (record h { exceeded = exceeded }) _
                    (attempt-IsFresh call.request _ _ none h.world) agrees)
            | inr (hit, found) ↦ rw (found, complete_within) agrees
          ]

  -- Where the provider never says that its answer came from a cache, and the gateway's figures of a
  -- run agree with the ledger's rows of the run, they agree after any calls, those that are
  -- refused, served from the cache, degraded or lost to the ledger's database included.
  pub complete_all-Agrees :
      (run : String) (asked : List (Call R)) (h : Hub F C W)
      → IsUncached
      → run ≢ ""
      → Agrees run h
      → Agrees run (complete_all g asked h).1
  unfolding complete_all complete
  complete_all-Agrees run [] h uncached named agrees = agrees
  complete_all-Agrees run (call ∷ asked) h uncached named agrees =
      complete_all-Agrees run asked _ uncached named
        (complete_after-Agrees uncached run named call h (enforce_budget g call h) agrees)
