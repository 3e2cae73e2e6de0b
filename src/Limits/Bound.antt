-- ===== src/Limits/Bound.antt =====
-- How many requests of one key the limiter of core/middleware.py lets through in a window.
use multi_agent_ad_optimizer.Prelude.{
  ℕ, ◌+◌, ◌-◌, ◌≤◌, max, String, Bool, true, false, Option, none, some, List, [], ◌∷◌, keep, All,
  length, ltb, leb, if◌then◌else◌, ◌==◌, nat_eq, string_eq, ◌≡◌, refl, arith, inl, inr, Bool-cases,
  ==_refl,
}
use multi_agent_ad_optimizer.Prelude.Dict.{get, put, get-put_self}
use multi_agent_ad_optimizer.Limits.Window.{Windows, window_start, prune, opened, allow_in, allow}

-- The first entry of a key stays under a filter that it passes.
get-keep :
    (key : String) (test : ℕ → Bool) (windows : Windows) (start count : ℕ)
    → get key windows ≡ some (start, count)
    → test start ≡ true
    → get key (keep (λ entry. test entry.1.0) windows) ≡ some (start, count)
unfolding get
get-keep key test [] start count found passes = absurd (ground (arith, found))
get-keep key test ((j, (from, n)) ∷ rest) start count found passes = elim (Bool-cases (j == key)) [
  | inl here ↦ ground (arith, found, here, passes)
  | inr there ↦ elim (Bool-cases (test from)) [
    | inl kept ↦
        rw (kept, there) (get-keep key test rest start count (ground (arith, found, there)) passes)
    | inr dropped ↦
        rw dropped (get-keep key test rest start count (ground (arith, found, there)) passes)
  ]
]

-- The requests counted for a key in the window that starts at an instant.
abbrev pub used : ℕ → Option (ℕ × ℕ) → ℕ
used start none = 0
used start (some (from, count)) = if from == start then count else 0

abbrev pub counted : Bool → ℕ
counted true = 1
counted false = 0

module _ (key : String) (limit window_seconds start : ℕ) where
  -- Requests of the key at the given instants, one after the other: how many are let through.
  unfoldable pub allowed : List ℕ → Windows → ℕ
  allowed [] windows = 0
  allowed (now ∷ rest) windows =
      let (answer, next) = allow key limit window_seconds now windows in
      counted answer.0 + allowed rest next

  -- An instant of the window, within the five minutes that the pruning spares.
  abbrev pub InWindow : ℕ → Type 0
  InWindow now = (window_start now window_seconds ≡ start) × (now ≤ start + 300)

  opened-get :
      (now : ℕ) (windows : Windows)
      → now ≤ start + 300
      → get key (opened key now start window_seconds windows).1 ≡ some (start, 1)
  unfolding prune
  opened-get now windows recent =
      let put' = put key (start, 1) windows in
      elim (Bool-cases (ltb (length put') 4096)) [
        | inl small ↦ rw small (get-put_self key (start, 1) windows)
        | inr large ↦ rw large (
            get-keep key (λ from. leb (now - 300) from) put' start 1
              (get-put_self key (start, 1) windows) (ground (arith, recent)))
      ]

  -- A request adds to the count what it lets through, and the count stays within the limit.
  abbrev Adds : ℕ → (Bool × ℕ) × Windows → Type 0
  Adds before r =
      (used start (get key r.1) ≡ before + counted r.0.0) × (used start (get key r.1) ≤ max 1 limit)

  allow_in-Adds :
      (now : ℕ) (o : Option (ℕ × ℕ)) (windows : Windows)
      → now ≤ start + 300
      → get key windows ≡ o
      → used start o ≤ max 1 limit
      → Adds (used start o) (allow_in key limit window_seconds now start o windows)
  unfolding allow_in
  allow_in-Adds now none windows recent found within =
      rw (opened-get now windows recent) (ground (arith, ==_refl start))
  allow_in-Adds now (some (from, count)) windows recent found within =
      elim (Bool-cases (from == start)) [
        | inl same ↦ rw same (elim (Bool-cases (leb limit count)) [
          | inl full ↦ rw (full, found) (ground (arith, same, within))
          | inr free ↦
              rw (free, get-put_self key (start, count + 1) windows)
                (ground (arith, ==_refl start, free))
        ])
        | inr other ↦ rw (other, opened-get now windows recent) (ground (arith, ==_refl start))
      ]

  allow-Adds :
      (now : ℕ) (windows : Windows)
      → InWindow now
      → used start (get key windows) ≤ max 1 limit
      → Adds (used start (get key windows)) (allow key limit window_seconds now windows)
  unfolding allow
  allow-Adds now windows (same, recent) within =
      rw same (allow_in-Adds now (get key windows) windows recent refl within)

  allowed-bounded :
      (instants : List ℕ) (windows : Windows)
      → All InWindow instants
      → used start (get key windows) ≤ max 1 limit
      → used start (get key windows) + allowed instants windows ≤ max 1 limit
  unfolding allowed
  allowed-bounded [] windows all within = omega (arith, within)
  allowed-bounded (now ∷ rest) windows (in_window, all) within =
      let next = (allow key limit window_seconds now windows).1 in
      let (adds, bound) = allow-Adds now windows in_window within in
      omega (arith, adds, allowed-bounded rest next all bound)

  -- However many requests of one key come one after the other within one window, the limiter lets
  -- through at most as many as the limit, or one where the limit is 0, provided that it has not counted
  -- the key in this window before and that they come within 300 seconds of the window's start.
  pub allowed-limit :
      (instants : List ℕ) (windows : Windows)
      → All InWindow instants
      → used start (get key windows) ≡ 0
      → allowed instants windows ≤ max 1 limit
  allowed-limit instants windows all fresh =
      omega (arith, fresh, allowed-bounded instants windows all (omega (arith, fresh)))
