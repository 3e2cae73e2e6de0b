-- ===== src/Events/Queues.antt =====
-- The queues of the subscribers in orchestrator/events.py.
use multi_agent_ad_optimizer.Prelude.{
  ℕ, suc, ◌+◌, ◌-◌, ◌≤◌, ◌<◌, true, false, Option, none, some, [], ◌∷◌, ◌++◌, inl, inr, length, leb,
  ◌≡◌, refl, arith, Bool-cases, nat_eq,
}
use multi_agent_ad_optimizer.Events.Bus.{AgentEvent, Queue, drop, is_full, put_nowait, offer}

module _ (queue_size : ℕ) (sized : 0 < queue_size) where
  put_nowait-room :
      (item : Option AgentEvent) (queue : Queue)
      → length queue < queue_size
      → put_nowait queue_size item queue ≡ some (queue ++ item ∷ [])
  unfolding put_nowait
  put_nowait-room item queue room =
      let free : is_full queue_size queue ≡ false = ground (arith, room) in rw free refl

  put_nowait-full :
      (item : Option AgentEvent) (queue : Queue)
      → length queue ≡ queue_size
      → put_nowait queue_size item queue ≡ none
  unfolding put_nowait
  put_nowait-full item queue same =
      let full : is_full queue_size queue ≡ true = ground (arith, same, sized) in rw full refl

  -- Where a queue has a bound and keeps to it, the fan-out leaves the latest items that fit, the new
  -- event the last of them: only the oldest is ever dropped, and only from a full queue.
  pub offer_latest :
      (event : AgentEvent) (queue : Queue)
      → length queue ≤ queue_size
      → offer queue_size event queue
        ≡ drop (length queue + 1 - queue_size) (queue ++ some event ∷ [])
  unfolding offer drop
  offer_latest event [] fits =
      let none' : 0 + 1 - queue_size ≡ 0 = omega (arith, sized) in
      rw (put_nowait-room (some event) [] sized, offer, none') refl
  offer_latest event (item ∷ rest) fits =
      elim (Bool-cases (leb queue_size (length (item ∷ rest)))) [
        | inl full ↦
            let same : suc (length rest) ≡ queue_size = ground (arith, full, fits) in
            let one : suc (length rest) + 1 - queue_size ≡ 1 = omega (arith, same) in
            rw
              (
                put_nowait-full (some event) (item ∷ rest) same,
                put_nowait-room (some event) rest (omega (arith, same)),
                offer,
                one,
              )
              refl
        | inr room ↦
            let less : suc (length rest) < queue_size = ground (arith, room) in
            let none' : suc (length rest) + 1 - queue_size ≡ 0 = omega (arith, less) in
            rw (put_nowait-room (some event) (item ∷ rest) less, offer, none') refl
      ]
