-- ===== src/Limits/Window.antt =====
-- `InMemoryRateLimiter` of core/middleware.py. Instants are whole seconds, as the limiter reads them.
use multi_agent_ad_optimizer.Prelude.{
  ℕ, ◌+◌, ◌-◌, max, String, Bool, true, false, Option, none, some, keep, not, length, ltb, leb,
  if◌then◌else◌, ◌==◌, nat_eq, string_eq,
}
use Prim.Native.Nat.{◌%◌}
use multi_agent_ad_optimizer.Prelude.Dict.{Dict, get, put}

-- `_windows`: the start of the window of a key, with the requests counted in it.
abbrev pub Windows : Type 0
Windows = Dict String (ℕ × ℕ)

abbrev pub window_start : ℕ → ℕ → ℕ
window_start now window_seconds = now - now % window_seconds

-- `_prune`
unfoldable pub prune : ℕ → Windows → Windows
prune now windows =
    if ltb (length windows) 4096 then windows else keep (λ entry. leb (now - 300) entry.1.0) windows

-- A first request in a window.
abbrev pub opened : String → ℕ → ℕ → ℕ → Windows → (Bool × ℕ) × Windows
opened key now start window_seconds windows =
    ((true, window_seconds), prune now (put key (start, 1) windows))

unfoldable pub allow_in : String → ℕ → ℕ → ℕ → ℕ → Option (ℕ × ℕ) → Windows → (Bool × ℕ) × Windows
allow_in key limit window_seconds now start none windows =
    opened key now start window_seconds windows
allow_in key limit window_seconds now start (some (from, count)) windows =
    if not (from == start)
    then opened key now start window_seconds windows
    else if leb limit count
    then ((false, max 1 (start + window_seconds - now)), windows)
    else ((true, window_seconds), put key (start, count + 1) windows)

-- `allow`
unfoldable pub allow : String → ℕ → ℕ → ℕ → Windows → (Bool × ℕ) × Windows
allow key limit window_seconds now windows =
    allow_in key limit window_seconds now (window_start now window_seconds) (get key windows)
      windows
