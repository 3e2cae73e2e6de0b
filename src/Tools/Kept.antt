-- ===== src/Tools/Kept.antt =====
-- What the tool layer keeps between two calls: its registry, its settings, its replay table.
use text.Mathlib.TextLemmas.{append-eq-nil_iff}
use text.Mathlib.TextEquality.{eq_iff}
use multi_agent_ad_optimizer.Prelude.{
  String, some, List, [], ◌∷◌, ◌⊎◌, inl, inr, ◌≡◌, ◌≢◌, refl, ◌∙◌, arith, string_eq, ◌==◌,
  Bool-cases, ==_sound,
}
use multi_agent_ad_optimizer.Prelude.Dict.{get, put, get-put}
use multi_agent_ad_optimizer.Tools.Spec.{ToolOutcome, ToolRequest, ToolResult}
use multi_agent_ad_optimizer.Tools.Executor.{Timer, Executor, Invocation}
use multi_agent_ad_optimizer.Tools.Call.{replay_key, charged, call}
use multi_agent_ad_optimizer.Tools.Finish.{registry-noted, settings-noted, replays-noted}
use multi_agent_ad_optimizer.Tools.Interlock.{call_cases}
use multi_agent_ad_optimizer.Tools.Advance.{Settles, call-Advances}
use multi_agent_ad_optimizer.Tools.Accounting.{session}

pub replay_key-ne-empty :
    {J : Type 0} (request : ToolRequest J) → request.idempotency_key ≢ "" → replay_key request ≢ ""
unfolding replay_key
replay_key-ne-empty request given = λ e. elim (Bool-cases (request.idempotency_key == "")) [
  | inl blank ↦ given (==_sound _ _ blank)
  | inr keyed ↦
      given (append-eq-nil_iff.0 (append-eq-nil_iff.0 (append-eq-nil_iff.0 (rw keyed at e)).1).1).0
]

module _ {J V W : Type 0} where
  -- What a caller relies on being fixed between two calls.
  pub record SameSetup (s t : Executor J V W) : Type 0 where
    pub registry : t.registry ≡ s.registry
    pub settings : t.settings ≡ s.settings

  Settles-SameSetup :
      (timer : Timer) (request : ToolRequest J) (s : Executor J V W) {i : Invocation J V W}
      → Settles timer request s i
      → SameSetup s i.executor
  Settles-SameSetup timer request s {i} r = record {
    registry = ground (arith, r.ends, r.registry, registry-noted r.base request r.spec i.result);
    settings = ground (arith, r.ends, r.settings, settings-noted r.base request r.spec i.result);
  }

  pub call-SameSetup :
      (timer : Timer) (request : ToolRequest J) (s : Executor J V W) (world : W)
      → SameSetup s (call timer request s world).executor
  call-SameSetup timer request s world = elim (call-Advances timer request s world) [
    | inl r ↦ Settles-SameSetup timer request s r
    | inr (_, r) ↦
        let same = Settles-SameSetup timer request (charged timer request s) r in
        record { registry = same.registry; settings = same.settings }
  ]

  -- The replay table after a call: as before, or with the result of this very success.
  call_replays_cases :
      (timer : Timer) (request : ToolRequest J) (s : Executor J V W) (world : W)
      → ((call timer request s world).executor.replays ≡ s.replays)
        ⊎ ((call timer request s world).result.outcome ≡ ToolOutcome.success)
          × ((call timer request s world).executor.replays
              ≡ put (replay_key request) (call timer request s world).result s.replays)
  call_replays_cases timer request s world = elim (call-Advances timer request s world) [
    | inl r ↦ ground (
      arith,
      r.ends,
      r.replays,
      replays-noted r.base request r.spec (call timer request s world).result,
    )
    | inr (_, r) ↦ ground (
      arith,
      r.ends,
      r.replays,
      replays-noted r.base request r.spec (call timer request s world).result,
    )
  ]

  call_keeps :
      (timer : Timer) (request : ToolRequest J) (s : Executor J V W) (world : W) (key : String)
      (kept : ToolResult J V W)
      → key ≢ ""
      → get key s.replays ≡ some kept
      → get key (call timer request s world).executor.replays ≡ some kept
  call_keeps timer request s world key kept named found =
      elim (call_replays_cases timer request s world) [
        | inl same ↦ rw same found
        | inr (success, wrote) ↦ elim (call_cases timer request s world) [
          | inr stays ↦ absurd (stays.no_success success)
          | inl reaches ↦ elim reaches.is_new [
            | inl blank ↦
                rw
                  (
                    wrote,
                    get-put (replay_key request) key (call timer request s world).result s.replays,
                  )
                  (ground (arith, blank, eq_iff (replay_key request) key))
            | inr new ↦
                rw
                  (
                    wrote,
                    get-put (replay_key request) key (call timer request s world).result s.replays,
                  )
                  (ground (arith, new, eq_iff (replay_key request) key))
          ]
        ]
      ]

  pub session_keeps :
      (calls : List (Timer × ToolRequest J)) (s : Executor J V W) (world : W) (key : String)
      (kept : ToolResult J V W)
      → key ≢ ""
      → get key s.replays ≡ some kept
      → get key (session calls s world).0.replays ≡ some kept
  unfolding session
  session_keeps [] s world key kept named found = found
  session_keeps ((timer, request) ∷ rest) s world key kept named found =
      session_keeps rest _ _ key kept named (call_keeps timer request s world key kept named found)

  pub session-SameSetup :
      (calls : List (Timer × ToolRequest J)) (s : Executor J V W) (world : W)
      → SameSetup s (session calls s world).0
  unfolding session
  session-SameSetup [] s world = record { registry = refl; settings = refl }
  session-SameSetup ((timer, request) ∷ rest) s world =
      let one = call-SameSetup timer request s world in
      let more =
        session-SameSetup rest (call timer request s world).executor
          (call timer request s world).world in
      record { registry = more.registry ∙ one.registry; settings = more.settings ∙ one.settings }
  -- The answer of a call whose key is in the table.
