-- ===== src/Llm/Attempts.antt =====
-- How often `LLMGateway.complete` of llm/gateway.py calls the provider, and when it answers.
use multi_agent_ad_optimizer.Prelude.{
  ℕ, zero, suc, max, String, Bool, true, false, not, Option, none, some, ◌⊎◌, inl, inr, ◌≡◌, ◌≢◌,
  refl, sym, subst, arith, Bool-cases, Option-cases, Sum-cases, ◌==◌, string_eq,
}
use multi_agent_ad_optimizer.Prelude.Text.{strip}
use multi_agent_ad_optimizer.Llm.Gateway.{
  judged, give_up, attempt, call_with_retry, enforce_budget, read_cache, settle_call,
  complete_within, complete_after, complete, month_to_date,
}
use multi_agent_ad_optimizer.Llm.Records.{
  CompletionResult, ProviderError, unavailable, unexpected, GatewayError, budget_exceeded, Call,
  Hub, Parts,
}

module _ {F R C W : Type 0} (g : Parts F R C W) where
  -- The second world is reached from the first by at most so many calls of the provider.
  pub data Reached : ℕ → W → W → Type 0 where
    stays : (n : ℕ) (w : W) → Reached n w w
    asks :
        (n : ℕ) (request : R) (streams : Bool) (w w' : W)
        → Reached n (g.primary request streams w).1 w'
        → Reached (suc n) w w'

  -- The provider raises nothing but `ExternalServiceError`.
  abbrev pub IsTame : Type 0
  IsTame =
      (request : R) (streams : Bool) (w : W) (text : String)
      → (g.primary request streams w).0 ≢ inl (unexpected text)

  -- An answer, or the refusal of the budget.
  abbrev pub IsAnswered : GatewayError ⊎ CompletionResult F → Type 0
  IsAnswered (inl budget_exceeded) = Unit
  IsAnswered (inl _) = ⊥
  IsAnswered (inr result) = Unit

  judged-tame :
      (answer : ProviderError ⊎ CompletionResult F) (text : String)
      → judged g answer ≡ inl (unexpected text)
      → answer ≡ inl (unexpected text)
  judged-tame (inl e) text same = same
  judged-tame (inr result) text same = elim (Bool-cases (strip result.text == "")) [
    | inl empty ↦ absurd (ground (arith, rw (empty, judged) at same))
    | inr full ↦ absurd (ground (arith, rw (full, judged) at same))
  ]

  attempt-Reached :
      (request : R) (streams : Bool) (left : ℕ) (last_error : Option String) (w : W)
      → Reached left w (attempt g request streams left last_error w).1
  unfolding attempt
  attempt-Reached request streams zero last_error w = stays zero w
  attempt-Reached request streams (suc left) last_error w =
      asks left request streams w _ (elim (Sum-cases (judged g (g.primary request streams w).0)) [
        | inl (e, failed) ↦
            elim e
                as (λ e.
                  judged g (g.primary request streams w).0 ≡ inl e
                  → Reached left (g.primary request streams w).1
                      (attempt g request streams (suc left) last_error w).1) [
                        | unavailable text ↦ λ failed.
                            rw (failed, attempt) (attempt-Reached request false left (some text) _)
                        | unexpected text ↦ λ failed. rw (failed, attempt) (stays left _)
                      ]
              failed
        | inr (result, fine) ↦ rw (fine, attempt) (stays left _)
      ])

  -- The budget refuses, and remembers it, or lets the call pass.
  abbrev Lawful : Option GatewayError × Bool → Type 0
  Lawful verdict = (verdict ≡ (some budget_exceeded, true)) ⊎ (verdict ≡ (none, false))

  enforce_budget-Lawful :
      (call : Call R) (h : Hub F C W) → call.ledger_up ≡ true → Lawful (enforce_budget g call h)
  unfolding enforce_budget
  enforce_budget-Lawful call h up = elim (Bool-cases h.exceeded) [
    | inl over ↦ inl (simp (over) refl)
    | inr under ↦ elim (Bool-cases (g.money.leb g.settings.monthly_budget_usd g.money.zero)) [
      | inl free ↦ inr (simp (under, free) refl)
      | inr capped ↦
          elim (Bool-cases
            (g.money.leb g.settings.monthly_budget_usd (month_to_date g call.now h.rows))) [
              | inl reached ↦ inl (simp (under, capped, up, reached) refl)
              | inr below ↦ inr (simp (under, capped, up, below) refl)
            ]
    ]
  ]

  module _ (tame : IsTame) (opens : g.settings.fail_open_to_mock ≡ true) where
    give_up-IsAnswered :
        (request : R) (last_error : Option String) → IsAnswered (give_up g request last_error)
    unfolding give_up
    give_up-IsAnswered request last_error = rw opens tt

    -- The loop ends with a result.
    attempt-IsAnswered :
        (request : R) (streams : Bool) (left : ℕ) (last_error : Option String) (w : W)
        → IsAnswered (attempt g request streams left last_error w).0
    unfolding attempt
    attempt-IsAnswered request streams zero last_error w = give_up-IsAnswered request last_error
    attempt-IsAnswered request streams (suc left) last_error w =
        elim (Sum-cases (judged g (g.primary request streams w).0)) [
          | inl (e, failed) ↦
              elim e
                  as (λ e.
                    judged g (g.primary request streams w).0 ≡ inl e
                    → IsAnswered (attempt g request streams (suc left) last_error w).0) [
                      | unavailable text ↦ λ failed.
                          rw (failed, attempt) (attempt-IsAnswered request false left (some text) _)
                      | unexpected text ↦
                          λ failed. absurd (tame request streams w text (judged-tame _ text failed))
                    ]
                failed
          | inr (result, fine) ↦ rw (fine, attempt) tt
        ]

    settle_call-IsAnswered :
        (call : Call R) (h : Hub F C W) (answer : (GatewayError ⊎ CompletionResult F) × W)
        → call.ledger_up ≡ true
        → IsAnswered answer.0
        → IsAnswered (settle_call g call h answer).0
    unfolding settle_call
    settle_call-IsAnswered call h (inl e, w) up answered = answered
    settle_call-IsAnswered call h (inr result, w) up answered = rw up tt

    complete_within-IsAnswered :
        (call : Call R) (h : Hub F C W) (hit : Option (CompletionResult F))
        → call.ledger_up ≡ true
        → IsAnswered (complete_within g call h hit).0
    unfolding complete_within call_with_retry
    complete_within-IsAnswered call h (some hit) up = tt
    complete_within-IsAnswered call h none up =
        settle_call-IsAnswered call h _ up (attempt-IsAnswered call.request _ _ none h.world)

    complete_after-IsAnswered :
        (call : Call R) (h : Hub F C W) (verdict : Option GatewayError × Bool)
        → call.ledger_up ≡ true
        → Lawful verdict
        → IsAnswered (complete_after g call h verdict).0
    unfolding complete_after
    complete_after-IsAnswered call h verdict up (inl refused) = rw (refused, complete_after) tt
    complete_after-IsAnswered call h verdict up (inr passed) =
        rw (passed, complete_after)
          (complete_within-IsAnswered call (record h { exceeded = false }) _ up)

  settle_call-world :
      (call : Call R) (h : Hub F C W) (answer : (GatewayError ⊎ CompletionResult F) × W)
      → (settle_call g call h answer).1.world ≡ answer.1
  unfolding settle_call
  settle_call-world call h (inl e, w) = refl
  settle_call-world call h (inr result, w) = elim (Bool-cases (not call.ledger_up)) [
    | inl down ↦ rw down refl
    | inr up ↦ rw up refl
  ]

  complete_after-Reached :
      (call : Call R) (h : Hub F C W) (verdict : Option GatewayError × Bool)
      → Reached (max 1 g.settings.max_retries) h.world (complete_after g call h verdict).1.world
  unfolding complete_after complete_within call_with_retry
  complete_after-Reached call h (some e, exceeded) = stays _ _
  complete_after-Reached call h (none, exceeded) =
      elim (Option-cases (read_cache g call.cache_key h.cache)) [
        | inl missed ↦
            rw (missed, complete_within)
              (subst (Reached _ h.world)
                (sym (settle_call-world call (record h { exceeded = exceeded }) _))
                (attempt-Reached call.request _ _ none h.world))
        | inr (hit, found) ↦ rw (found, complete_within) (stays _ _)
      ]

  -- Where the provider raises nothing but `ExternalServiceError`, the ledger's database answers and
  -- the gateway may fall back to the mock model, every call answers with a result or is refused by
  -- the budget, and the provider is called at most `max(1, max_retries)` times.
  pub complete-answers :
      (call : Call R) (h : Hub F C W)
      → IsTame
      → g.settings.fail_open_to_mock ≡ true
      → call.ledger_up ≡ true
      → IsAnswered (complete g call h).0
        × Reached (max 1 g.settings.max_retries) h.world (complete g call h).1.world
  unfolding complete
  complete-answers call h tame opens up = (
    complete_after-IsAnswered tame opens call h (enforce_budget g call h) up
        (enforce_budget-Lawful call h up),
    complete_after-Reached call h (enforce_budget g call h),
  )
