-- ===== src/Events/Order.antt =====
-- The order of the events of a run in orchestrator/events.py, in the history and in a stream.
use multi_agent_ad_optimizer.Prelude.{
  ℕ, zero, suc, ◌-◌, ◌≤◌, ◌<◌, max, String, Option, none, some, List, [], ◌∷◌, ◌++◌, inl, inr, keep,
  length, All, ltb, leb, ◌≡◌, subst, arith, Bool-cases, nat_eq, string_eq,
}
use multi_agent_ad_optimizer.Prelude.Dict.{get_or}
use multi_agent_ad_optimizer.Events.Bus.{
  AgentEvent, EventBus, history_limit, is_terminal_event, drop, trim, replay, Wait, timed_out, got,
  is_idle, stream_live, stream_replay, stream,
}

-- The sequence numbers rise, from above `n` on.
abbrev pub Rises : ℕ → List AgentEvent → Type 0
Rises n [] = Unit
Rises n (event ∷ events) = (n < event.seq) × Rises event.seq events

-- The same of what a stream yields, heartbeats aside.
abbrev pub YieldsRise : ℕ → List (Option AgentEvent) → Type 0
YieldsRise n [] = Unit
YieldsRise n (none ∷ yields) = YieldsRise n yields
YieldsRise n (some event ∷ yields) = (n < event.seq) × YieldsRise event.seq yields

abbrev pub UpTo : ℕ → List AgentEvent → Type 0
UpTo n events = All (λ e. e.seq ≤ n) events

Rises-weaken : (m n : ℕ) (events : List AgentEvent) → m ≤ n → Rises n events → Rises m events
Rises-weaken m n [] le rises = tt
Rises-weaken m n (event ∷ events) le (above, rises) = (omega (arith, le, above), rises)

pub Rises-append :
    (m n : ℕ) (events : List AgentEvent) (event : AgentEvent)
    → Rises m events
    → UpTo n events
    → m ≤ n
    → event.seq ≡ suc n
    → Rises m (events ++ event ∷ [])
Rises-append m n [] event rises below le next = (omega (arith, le, next), tt)
Rises-append m n (e ∷ events) event (above, rises) (low, below) le next =
    (above, Rises-append e.seq n events event rises below low next)

pub UpTo-append :
    (n : ℕ) (events : List AgentEvent) (event : AgentEvent)
    → UpTo n events
    → event.seq ≡ suc n
    → UpTo (suc n) (events ++ event ∷ [])
UpTo-append n [] event below next = (omega (arith, next), tt)
UpTo-append n (e ∷ events) event (low, below) next =
    (omega (arith, low), UpTo-append n events event below next)

Rises-drop : (m k : ℕ) (events : List AgentEvent) → Rises m events → Rises m (drop k events)
unfolding drop
Rises-drop m zero events rises = rises
Rises-drop m (suc k) [] rises = tt
Rises-drop m (suc k) (e ∷ events) (above, rises) =
    Rises-weaken m e.seq (drop k events) (omega (arith, above)) (Rises-drop e.seq k events rises)

UpTo-drop : (n k : ℕ) (events : List AgentEvent) → UpTo n events → UpTo n (drop k events)
unfolding drop
UpTo-drop n zero events below = below
UpTo-drop n (suc k) [] below = tt
UpTo-drop n (suc k) (e ∷ events) (low, below) = UpTo-drop n k events below

pub length-drop : {A : Type 0} (k : ℕ) (xs : List A) → length (drop k xs) ≡ length xs - k
unfolding drop
length-drop zero xs = omega arith
length-drop (suc k) [] = omega arith
length-drop (suc k) (x ∷ xs) = omega (arith, length-drop k xs)

-- A history: numbered in order, none above the counter, and no longer than the limit.
pub record IsHistory (counter : ℕ) (events : List AgentEvent) : Type 0 where
  pub rises : Rises 0 events
  pub below : UpTo counter events
  pub bounded : length events ≤ history_limit

pub trim-IsHistory :
    (counter : ℕ) (events : List AgentEvent)
    → Rises 0 events
    → UpTo counter events
    → IsHistory counter (trim events)
unfolding trim
trim-IsHistory counter events rises below = elim (Bool-cases (ltb history_limit (length events))) [
  | inl long ↦ rw long (record {
    rises = Rises-drop 0 (length events - history_limit) events rises;
    below = UpTo-drop counter (length events - history_limit) events below;
    bounded = ground (arith, long, length-drop (length events - history_limit) events);
  })
  | inr short ↦ rw short (record { rises = rises; below = below; bounded = ground (arith, short) })
]

-- What a replay leaves of rising events rises from the cursor on.
Rises-keep :
    (after n : ℕ) (events : List AgentEvent)
    → Rises n events
    → Rises (max after n) (keep (λ e. ltb after e.seq) events)
Rises-keep after n [] rises = tt
Rises-keep after n (e ∷ events) (above, rises) =
    let ih = Rises-keep after e.seq events rises in
    elim (Bool-cases (ltb after e.seq)) [
      | inl later ↦ rw later (
        ground (arith, above, later),
        subst (λ k. Rises k (keep (λ e. ltb after e.seq) events)) (ground (arith, later)) ih,
      )
      | inr earlier ↦ rw earlier (
          subst (λ k. Rises k (keep (λ e. ltb after e.seq) events)) (ground (arith, earlier, above))
            ih)
    ]

stream_live-YieldsRise :
    (limit : Option ℕ) (heartbeats seen : ℕ) (waits : List Wait)
    → YieldsRise seen (stream_live limit heartbeats seen waits)
unfolding stream_live
stream_live-YieldsRise limit heartbeats seen [] = tt
stream_live-YieldsRise limit heartbeats seen (timed_out ∷ waits) =
    elim (Bool-cases (is_idle limit (suc heartbeats))) [
      | inl idle ↦ rw idle tt
      | inr busy ↦ rw busy (stream_live-YieldsRise limit (suc heartbeats) seen waits)
    ]
stream_live-YieldsRise limit heartbeats seen (got none ∷ waits) = tt
stream_live-YieldsRise limit heartbeats seen (got (some event) ∷ waits) =
    elim (Bool-cases (leb event.seq seen)) [
      | inl stale ↦ rw stale (stream_live-YieldsRise limit heartbeats seen waits)
      | inr new ↦ rw new (elim (Bool-cases (is_terminal_event event)) [
        | inl last ↦ rw last (ground (arith, new), tt)
        | inr more ↦
            rw more (ground (arith, new), stream_live-YieldsRise limit heartbeats event.seq waits)
      ])
    ]

stream_replay-YieldsRise :
    (limit : Option ℕ) (seen : ℕ) (events : List AgentEvent) (waits : List Wait)
    → Rises seen events
    → YieldsRise seen (stream_replay limit seen events waits)
unfolding stream_replay
stream_replay-YieldsRise limit seen [] waits rises = stream_live-YieldsRise limit 0 seen waits
stream_replay-YieldsRise limit seen (event ∷ events) waits (above, rises) =
    let cursor : max seen event.seq ≡ event.seq = omega (arith, above) in
    elim (Bool-cases (is_terminal_event event)) [
      | inl last ↦ rw last (above, tt)
      | inr more ↦
          rw (more, cursor) (above, stream_replay-YieldsRise limit event.seq events waits rises)
    ]

-- The history of every run.
abbrev pub IsOrdered : EventBus → Type 0
IsOrdered bus =
    (run_id : String) → IsHistory (get_or run_id 0 bus.counters) (get_or run_id [] bus.history)

-- A stream of an ordered bus yields rising events, whatever its waits come back with.
pub stream-YieldsRise :
    (run_id : String) (after_seq : ℕ) (limit : Option ℕ) (bus : EventBus) (waits : List Wait)
    → IsOrdered bus
    → YieldsRise after_seq (stream run_id after_seq limit bus waits)
unfolding stream replay
stream-YieldsRise run_id after_seq limit bus waits ordered =
    stream_replay-YieldsRise limit after_seq _ waits (
      subst (λ k. Rises k (keep (λ e. ltb after_seq e.seq) (get_or run_id [] bus.history)))
        (omega arith)
        (Rises-keep after_seq 0 (get_or run_id [] bus.history) (ordered run_id).rises))
