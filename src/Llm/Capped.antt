-- ===== src/Llm/Capped.antt =====
-- The budget guard of `LLMGateway` in llm/gateway.py once the cap is reached.
use multi_agent_ad_optimizer.Prelude.{
  true, false, List, [], ◌∷◌, inl, inr, map, ◌≡◌, refl, Bool-cases, string_eq,
}
use multi_agent_ad_optimizer.Llm.Gateway.{
  enforce_budget, complete_after, complete, complete_all, month_to_date,
}
use multi_agent_ad_optimizer.Llm.Records.{budget_exceeded, Call, Hub, Parts}

module _ {F R C W : Type 0} (g : Parts F R C W) where
  -- What the budget refuses changes nothing but the memory of it.
  complete-refused :
      (call : Call R) (h : Hub F C W)
      → h.exceeded ≡ true
      → complete g call h ≡ (inl budget_exceeded, record h { exceeded = true })
  unfolding complete complete_after enforce_budget
  complete-refused call h over = simp (over) refl

  complete-capped :
      (call : Call R) (h : Hub F C W)
      → g.money.leb g.settings.monthly_budget_usd g.money.zero ≡ false
      → call.ledger_up ≡ true
      → g.money.leb g.settings.monthly_budget_usd (month_to_date g call.now h.rows) ≡ true
      → complete g call h ≡ (inl budget_exceeded, record h { exceeded = true })
  unfolding complete complete_after enforce_budget
  complete-capped call h capped up reached = elim (Bool-cases h.exceeded) [
    | inl over ↦ complete-refused call h over
    | inr under ↦ simp (under, capped, up, reached) refl
  ]

  complete_all-refused :
      (calls : List (Call R)) (h : Hub F C W)
      → complete_all g calls (record h { exceeded = true })
        ≡ (map (λ _. inl budget_exceeded) calls, record h { exceeded = true })
  unfolding complete_all
  complete_all-refused [] h = refl
  complete_all-refused (call ∷ calls) h =
      rw (complete-refused call (record h { exceeded = true }) refl)
        (rw (complete_all-refused calls h) refl)

  -- Where a cap is set and a call finds it reached in the ledger, that call and all later ones,
  -- whenever they come, in a later month too, are refused: the provider is not called again, and
  -- the ledger, the cache and the tallies stay as they are.
  pub complete_all-capped :
      (call : Call R) (calls : List (Call R)) (h : Hub F C W)
      → g.money.leb g.settings.monthly_budget_usd g.money.zero ≡ false
      → call.ledger_up ≡ true
      → g.money.leb g.settings.monthly_budget_usd (month_to_date g call.now h.rows) ≡ true
      → complete_all g (call ∷ calls) h
        ≡ (map (λ _. inl budget_exceeded) (call ∷ calls), record h { exceeded = true })
  unfolding complete_all
  complete_all-capped call calls h capped up reached =
      rw (complete-capped call h capped up reached) (rw (complete_all-refused calls h) refl)
