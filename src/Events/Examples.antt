-- ===== src/Events/Examples.antt =====
-- The bus at work on one run with one subscriber.
use multi_agent_ad_optimizer.Prelude.{
  ℕ, none, some, List, [], ◌∷◌, ◌≡◌, refl, arith, nat_eq, string_eq,
}
use multi_agent_ad_optimizer.Prelude.Dict.{get, put, get_or}
use multi_agent_ad_optimizer.Events.Bus.{
  AgentEvent, timed_out, got, announce, deliver, pick, fan_out, offer, put_nowait, subscribe, trim,
  drop, stream, stream_replay, stream_live, replay,
}
use multi_agent_ad_optimizer.Events.Order.{IsHistory, YieldsRise}
use multi_agent_ad_optimizer.Events.Runs.{
  Operation, announces, delivers, subscribes, perform, perform_all, new_bus, streams_rise,
}
use multi_agent_ad_optimizer.Events.Queues.{offer_latest}

abbrev event : ℕ → AgentEvent
event n = record { run_id = "r"; seq = n; event_type = "agent.started"; agent = "monitor" }

-- Two publishers of one run: the second one's sink is faster.
abbrev overtaken : List Operation
overtaken =
    subscribes "r" "s"
    ∷ announces "r" "agent.started" "monitor"
    ∷ announces "r" "agent.started" "monitor"
    ∷ delivers 1
    ∷ delivers 0
    ∷ []

-- The subscriber gets the later event first.
overtaken_queue :
    (perform_all 512 overtaken new_bus).subscribers
    ≡ ("r:s", some (event 2) ∷ some (event 1) ∷ []) ∷ []
unfolding perform_all perform subscribe announce deliver pick fan_out offer put_nowait trim get put
overtaken_queue = refl

-- A stream that started before the events never yields the earlier one.
overtaken_stream :
    stream "r" 0 none new_bus (got (some (event 2)) ∷ got (some (event 1)) ∷ timed_out ∷ [])
    ≡ some (event 2) ∷ none ∷ []
unfolding stream stream_replay stream_live replay get
overtaken_stream = refl

streams_rise_example :
    IsHistory
      (get_or "r" 0 (perform_all 512 overtaken new_bus).counters)
      (get_or "r" [] (perform_all 512 overtaken new_bus).history)
    × YieldsRise 1 (
        stream "r" 1
          (some 3)
          (perform_all 512 overtaken new_bus)
          (got (some (event 2)) ∷ timed_out ∷ got none ∷ []))
streams_rise_example =
    streams_rise 512 overtaken "r" 1 (some 3) (got (some (event 2)) ∷ timed_out ∷ got none ∷ [])

offer_latest_example :
    offer 2 (event 3) (some (event 1) ∷ some (event 2) ∷ []) ≡ some (event 2) ∷ some (event 3) ∷ []
unfolding drop
offer_latest_example =
    offer_latest 2 (omega arith) (event 3) (some (event 1) ∷ some (event 2) ∷ []) (omega arith)
