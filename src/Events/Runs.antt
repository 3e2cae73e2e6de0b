-- ===== src/Events/Runs.antt =====
-- The bus of orchestrator/events.py through any interleaving of its operations.
use multi_agent_ad_optimizer.Prelude.{
  ℕ, ◌+◌, String, Option, List, [], ◌∷◌, ◌++◌, inl, inr, if◌then◌else◌, ◌==◌, ◌≡◌, subst, arith,
  Bool-cases, Option-cases, nat_eq, string_eq,
}
use multi_agent_ad_optimizer.Prelude.Dict.{Dict, get, get_or, get_or-put}
use multi_agent_ad_optimizer.Events.Bus.{
  AgentEvent, EventBus, remove, trim, announce, pick, deliver, subscribe, unsubscribe, dequeue,
  close_queues, close_run, Wait, stream,
}
use multi_agent_ad_optimizer.Events.Order.{
  UpTo, Rises-append, UpTo-append, IsHistory, trim-IsHistory, IsOrdered, YieldsRise,
  stream-YieldsRise,
}

-- What tasks do to the bus. `delivers n` is the second half of a `publish`, of the n-th event in flight.
pub data Operation : Type 0 where
  announces : (run_id event_type agent : String) → Operation
  delivers : ℕ → Operation
  subscribes : (run_id drawn : String) → Operation
  unsubscribes : String → Operation
  dequeues : String → Operation
  closes : String → Operation

unfoldable pub perform : ℕ → Operation → EventBus → EventBus
perform queue_size (announces run_id event_type agent) bus = announce run_id event_type agent bus
perform queue_size (delivers n) bus = deliver queue_size n bus
perform queue_size (subscribes run_id drawn) bus = subscribe run_id drawn bus
perform queue_size (unsubscribes id) bus = unsubscribe id bus
perform queue_size (dequeues id) bus = dequeue id bus
perform queue_size (closes run_id) bus = (close_run queue_size run_id bus).1

unfoldable pub perform_all : ℕ → List Operation → EventBus → EventBus
perform_all queue_size [] bus = bus
perform_all queue_size (operation ∷ rest) bus =
    perform_all queue_size rest (perform queue_size operation bus)

abbrev pub new_bus : EventBus
new_bus = record { counters = []; history = []; subscribers = []; in_flight = [] }

get_or-remove :
    {V : Type 0} (k j : String) (d : V) (m : Dict String V)
    → get_or j d (remove k m) ≡ (if k == j then d else get_or j d m)
unfolding remove get
get_or-remove k j d [] = ground arith
get_or-remove k j d ((i, v) ∷ m) = ground (
  arith,
  get_or-remove k j d m,
  string_eq.decides i k,
  string_eq.decides i j,
  string_eq.decides k j,
)

empty-IsHistory : IsHistory 0 []
empty-IsHistory = record { rises = tt; below = tt; bounded = omega arith }

announce-IsOrdered :
    (run_id event_type agent : String) (bus : EventBus)
    → IsOrdered bus
    → IsOrdered (announce run_id event_type agent bus)
unfolding announce
announce-IsOrdered run_id event_type agent bus ordered other =
    let counter = get_or run_id 0 bus.counters in
    let events = get_or run_id [] bus.history in
    let event : AgentEvent = record {
      run_id = run_id;
      seq = counter + 1;
      event_type = event_type;
      agent = agent;
    } in
    let grown : IsHistory (counter + 1) (trim (events ++ event ∷ [])) =
      trim-IsHistory (counter + 1) (events ++ event ∷ [])
        (Rises-append 0 counter events event (ordered run_id).rises (ordered run_id).below
          (omega arith) (omega arith))
        (subst (λ n. UpTo n (events ++ event ∷ [])) (omega arith)
          (UpTo-append counter events event (ordered run_id).below (omega arith))) in
    rw
      (
        get_or-put run_id other 0 (counter + 1) bus.counters,
        get_or-put run_id other [] (trim (events ++ event ∷ [])) bus.history,
      )
      (elim (Bool-cases (run_id == other)) [
        | inl same ↦ rw same grown
        | inr apart ↦ rw apart (ordered other)
      ])

-- `deliver`, `dequeue` and the others leave counters and histories.
deliver-IsOrdered :
    (queue_size n : ℕ) (bus : EventBus) → IsOrdered bus → IsOrdered (deliver queue_size n bus)
unfolding deliver
deliver-IsOrdered queue_size n bus ordered = elim (Option-cases (pick n bus.in_flight).0) [
  | inl none' ↦ rw (none', deliver) ordered
  | inr (event, chosen) ↦ rw (chosen, deliver) ordered
]

dequeue-IsOrdered : (id : String) (bus : EventBus) → IsOrdered bus → IsOrdered (dequeue id bus)
unfolding dequeue
dequeue-IsOrdered id bus ordered = elim (Option-cases (get id bus.subscribers)) [
  | inl none' ↦ rw (none', dequeue) ordered
  | inr (queue, there) ↦ rw (there, dequeue) ordered
]

close_run-IsOrdered :
    (queue_size : ℕ) (run_id : String) (bus : EventBus)
    → IsOrdered bus
    → IsOrdered (close_run queue_size run_id bus).1
unfolding close_run
close_run-IsOrdered queue_size run_id bus ordered other =
    elim (Bool-cases (close_queues queue_size run_id bus.subscribers).0) [
      | inl closed ↦
          rw (closed, close_run)
            (rw
              (get_or-remove run_id other 0 bus.counters, get_or-remove run_id other [] bus.history)
              (elim (Bool-cases (run_id == other)) [
                | inl same ↦ rw same empty-IsHistory
                | inr apart ↦ rw apart (ordered other)
              ]))
      | inr stuck ↦ rw (stuck, close_run) (ordered other)
    ]

perform-IsOrdered :
    (queue_size : ℕ) (operation : Operation) (bus : EventBus)
    → IsOrdered bus
    → IsOrdered (perform queue_size operation bus)
unfolding perform subscribe unsubscribe
perform-IsOrdered queue_size (announces run_id event_type agent) bus ordered =
    announce-IsOrdered run_id event_type agent bus ordered
perform-IsOrdered queue_size (delivers n) bus ordered = deliver-IsOrdered queue_size n bus ordered
perform-IsOrdered queue_size (subscribes run_id drawn) bus ordered = ordered
perform-IsOrdered queue_size (unsubscribes id) bus ordered = ordered
perform-IsOrdered queue_size (dequeues id) bus ordered = dequeue-IsOrdered id bus ordered
perform-IsOrdered queue_size (closes run_id) bus ordered =
    close_run-IsOrdered queue_size run_id bus ordered

perform_all-IsOrdered :
    (queue_size : ℕ) (operations : List Operation) (bus : EventBus)
    → IsOrdered bus
    → IsOrdered (perform_all queue_size operations bus)
unfolding perform_all
perform_all-IsOrdered queue_size [] bus ordered = ordered
perform_all-IsOrdered queue_size (operation ∷ rest) bus ordered =
    perform_all-IsOrdered queue_size rest (perform queue_size operation bus)
      (perform-IsOrdered queue_size operation bus ordered)

-- After any interleaving of operations on a new bus, every run's history is numbered in rising order,
-- none of its numbers is above the run's counter, and it holds at most 2000 events; and a stream that
-- starts then yields events with rising numbers above its cursor, hence none twice, whatever its
-- queue brings and however often it waits in vain.
pub streams_rise :
    (queue_size : ℕ) (operations : List Operation) (run_id : String) (after_seq : ℕ)
    (limit : Option ℕ) (waits : List Wait)
    → let bus = perform_all queue_size operations new_bus in
      IsHistory (get_or run_id 0 bus.counters) (get_or run_id [] bus.history)
      × YieldsRise after_seq (stream run_id after_seq limit bus waits)
unfolding get
streams_rise queue_size operations run_id after_seq limit waits =
    let ordered = perform_all-IsOrdered queue_size operations new_bus (λ _. empty-IsHistory) in
    (ordered run_id, stream-YieldsRise run_id after_seq limit _ waits ordered)
