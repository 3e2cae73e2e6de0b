-- ===== src/Events/Bus.antt =====
-- `EventBus` of orchestrator/events.py. `publish` awaits the sink between its first and its second half,
-- so other tasks may run there: the two halves are two operations, and an event that is in between
-- stands in `in_flight`. What the sink does, logs and the times of events are left out.
use multi_agent_ad_optimizer.Prelude.{
  ℕ, zero, suc, ◌+◌, ◌-◌, max, String, Bool, true, false, not, ◌&&◌, Option, none, some, List, [],
  ◌∷◌, ◌++◌, keep, elem, length, if◌then◌else◌, ltb, leb, ◌==◌, nat_eq, string_eq,
}
use text.Mathlib.Text.{starts_with}
use multi_agent_ad_optimizer.Prelude.Dict.{Dict, get, put, get_or}
use multi_agent_ad_optimizer.Prelude.Text.{concat}

pub record AgentEvent : Type 0 where
  pub run_id : String
  pub seq : ℕ
  pub event_type : String
  pub agent : String

-- The queue of a subscriber; `none` is the sentinel.
abbrev pub Queue : Type 0
Queue = List (Option AgentEvent)

pub record EventBus : Type 0 where
  pub counters : Dict String ℕ
  pub history : Dict String (List AgentEvent)
  pub subscribers : Dict String Queue
  pub in_flight : List AgentEvent

abbrev pub history_limit : ℕ
history_limit = 2000

-- `TERMINAL_EVENTS`
abbrev pub is_terminal_event : AgentEvent → Bool
is_terminal_event event =
    elem event.event_type ("run.succeeded" ∷ "run.failed" ∷ "run.cancelled" ∷ [])

-- `del xs[:n]`
unfoldable pub drop : {A : Type 0} → ℕ → List A → List A
drop zero xs = xs
drop (suc n) [] = []
drop (suc n) (_ ∷ xs) = drop n xs

-- `m.pop(k, None)`
unfoldable pub remove : {V : Type 0} → String → Dict String V → Dict String V
remove k [] = []
remove k ((j, v) ∷ m) = if j == k then remove k m else (j, v) ∷ remove k m

unfoldable pub trim : List AgentEvent → List AgentEvent
trim events =
    if ltb history_limit (length events)
    then drop (length events - history_limit) events
    else events

-- `next_seq` and the first half of `publish`, up to the sink.
unfoldable pub announce : String → String → String → EventBus → EventBus
announce run_id event_type agent bus =
    let seq = get_or run_id 0 bus.counters + 1 in
    let event : AgentEvent = record {
      run_id = run_id;
      seq = seq;
      event_type = event_type;
      agent = agent;
    } in
    record bus {
      counters = put run_id seq bus.counters;
      history = put run_id (trim (get_or run_id [] bus.history ++ event ∷ [])) bus.history;
      in_flight = bus.in_flight ++ event ∷ [];
    }

-- `asyncio.Queue.full`: a size of 0 is no bound.
abbrev pub is_full : ℕ → Queue → Bool
is_full queue_size queue = not (queue_size == 0) && leb queue_size (length queue)

-- `put_nowait`
unfoldable pub put_nowait : ℕ → Option AgentEvent → Queue → Option Queue
put_nowait queue_size item queue =
    if is_full queue_size queue then none else some (queue ++ item ∷ [])

-- The fan-out to one subscriber: `_drop_oldest` makes room, and a second failure drops the event.
unfoldable pub offer : ℕ → AgentEvent → Queue → Queue
offer queue_size event queue = elim (put_nowait queue_size (some event) queue) [
  | some queue' ↦ queue'
  | none ↦ elim (put_nowait queue_size (some event) (drop 1 queue)) [
    | some queue' ↦ queue'
    | none ↦ drop 1 queue
  ]
]

abbrev pub listens_to : String → String → Bool
listens_to run_id subscriber_id = starts_with subscriber_id (concat (run_id ∷ ":" ∷ []))

-- The second half of `publish`.
unfoldable pub fan_out : ℕ → AgentEvent → Dict String Queue → Dict String Queue
fan_out queue_size event [] = []
fan_out queue_size event ((id, queue) ∷ rest) =
    (id, if listens_to event.run_id id then offer queue_size event queue else queue)
    ∷ fan_out queue_size event rest

-- The event in flight at a place, and the others.
unfoldable pub pick : ℕ → List AgentEvent → Option AgentEvent × List AgentEvent
pick n [] = (none, [])
pick zero (event ∷ rest) = (some event, rest)
pick (suc n) (event ∷ rest) = let (chosen, others) = pick n rest in (chosen, event ∷ others)

unfoldable pub deliver : ℕ → ℕ → EventBus → EventBus
deliver queue_size n bus =
    let (chosen, others) = pick n bus.in_flight in
    elim chosen [
      | none ↦ bus
      | some event ↦ record bus {
        subscribers = fan_out queue_size event bus.subscribers;
        in_flight = others;
      }
    ]

-- `subscribe`, with the id drawn. Every queue of a bus has the bound of the bus, which the operations
-- that put into a queue take as `queue_size`.
unfoldable pub subscribe : String → String → EventBus → EventBus
subscribe run_id drawn bus = record bus {
  subscribers = put (concat (run_id ∷ ":" ∷ drawn ∷ [])) [] bus.subscribers;
}

-- `unsubscribe`
unfoldable pub unsubscribe : String → EventBus → EventBus
unsubscribe subscriber_id bus = record bus { subscribers = remove subscriber_id bus.subscribers }

-- The `queue.get` of a stream.
unfoldable pub dequeue : String → EventBus → EventBus
dequeue subscriber_id bus = elim (get subscriber_id bus.subscribers) [
  | none ↦ bus
  | some queue ↦ record bus { subscribers = put subscriber_id (drop 1 queue) bus.subscribers }
]

-- The loop of `close_run`: it ends at the first full queue with `QueueFull`.
unfoldable pub close_queues : ℕ → String → Dict String Queue → Bool × Dict String Queue
close_queues queue_size run_id [] = (true, [])
close_queues queue_size run_id ((id, queue) ∷ rest) =
    let (closed, others) = close_queues queue_size run_id rest in
    if not (listens_to run_id id)
    then (closed, (id, queue) ∷ others)
    else elim (put_nowait queue_size none queue) [
      | none ↦ (false, (id, queue) ∷ rest)
      | some queue' ↦ (closed, (id, queue') ∷ others)
    ]

-- `close_run`: whether it came through, and the bus.
unfoldable pub close_run : ℕ → String → EventBus → Bool × EventBus
close_run queue_size run_id bus =
    let (closed, queues) = close_queues queue_size run_id bus.subscribers in
    if closed
    then (
      true,
      record bus {
        subscribers = queues;
        history = remove run_id bus.history;
        counters = remove run_id bus.counters;
      },
    )
    else (false, record bus { subscribers = queues })

-- `replay`
unfoldable pub replay : String → ℕ → EventBus → List AgentEvent
replay run_id after_seq bus = keep (λ e. ltb after_seq e.seq) (get_or run_id [] bus.history)

-- What a stream's `wait_for(queue.get())` comes back with.
pub data Wait : Type 0 where
  timed_out : Wait
  got : Option AgentEvent → Wait

-- `heartbeat_limit is not None and heartbeats >= heartbeat_limit`
abbrev pub is_idle : Option ℕ → ℕ → Bool
is_idle none heartbeats = false
is_idle (some limit) heartbeats = leb limit heartbeats

-- The endless loop of `stream` over what its waits come back with; a heartbeat is `none`.
unfoldable pub stream_live : Option ℕ → ℕ → ℕ → List Wait → List (Option AgentEvent)
stream_live limit heartbeats seen [] = []
stream_live limit heartbeats seen (timed_out ∷ waits) =
    let rest = stream_live limit (suc heartbeats) seen waits in
    none ∷ (if is_idle limit (suc heartbeats) then [] else rest)
stream_live limit heartbeats seen (got none ∷ waits) = []
stream_live limit heartbeats seen (got (some event) ∷ waits) =
    let skipped = stream_live limit heartbeats seen waits in
    let rest = stream_live limit heartbeats event.seq waits in
    if leb event.seq seen
    then skipped
    else some event ∷ (if is_terminal_event event then [] else rest)

-- The loop of `stream` over the replayed events, and then the live ones.
unfoldable pub stream_replay : Option ℕ → ℕ → List AgentEvent → List Wait → List (Option AgentEvent)
stream_replay limit seen [] waits = stream_live limit 0 seen waits
stream_replay limit seen (event ∷ events) waits =
    let rest = stream_replay limit (max seen event.seq) events waits in
    some event ∷ (if is_terminal_event event then [] else rest)

-- `stream`, on a bus that it has subscribed to.
unfoldable pub stream : String → ℕ → Option ℕ → EventBus → List Wait → List (Option AgentEvent)
stream run_id after_seq heartbeat_limit bus waits =
    stream_replay heartbeat_limit after_seq (replay run_id after_seq bus) waits
