-- ===== src/Caching/Examples.antt =====
-- The cache of infra/cache.py at concrete calls.
use multi_agent_ad_optimizer.Prelude.{
  ℕ, zero, suc, ◌+◌, ◌≤◌, String, none, some, List, [], ◌∷◌, length, ◌≡◌, refl, arith, ◌⊎◌,
}
use multi_agent_ad_optimizer.Prelude.Dict.{get, put}
use multi_agent_ad_optimizer.Caching.Store.{lookup, set, evict, incr_bucket}
use multi_agent_ad_optimizer.Caching.Forgets.{
  Call, set_call, get_call, delete_call, perform, perform_all, ideal_all, lookup-ideal,
}
use multi_agent_ad_optimizer.Caching.Size.{
  Use, cache_call, incr_call, use_all, use_one, increments, perform_all-bounded,
}

abbrev calls : List (Call String)
calls =
    set_call 0 "a" "1" 10
    ∷ set_call 1 "b" "2" 10
    ∷ set_call 2 "a" "3" 20
    ∷ get_call 12 "b"
    ∷ delete_call "c"
    ∷ []

lookup-ideal_example :
    ((lookup 15 "a" (perform_all 4 calls [])).0 ≡ none)
    ⊎ ((expires_at : ℕ) × (value : String) × ((lookup 15 "a" (perform_all 4 calls [])).0
          ≡ some value)
        × (ideal_all calls (λ k. none) "a" ≡ some (expires_at, value))
        × (15 ≤ expires_at))
lookup-ideal_example = lookup-ideal 4 calls 15 "a"

abbrev unary : ℕ → String
unary zero = ""
unary (suc n) = "|"

abbrev crowd : List (Use String)
crowd =
    cache_call (set_call 0 "a" "1" 10)
    ∷ cache_call (set_call 0 "b" "1" 10)
    ∷ cache_call (set_call 0 "c" "1" 10)
    ∷ cache_call (set_call 0 "d" "1" 10)
    ∷ incr_call 5 "e" 60
    ∷ []

-- A counter goes past the limit.
crowded : length (use_all unary (λ v. 0) unary 4 crowd []) ≡ 5
unfolding use_all use_one perform set evict put get incr_bucket
crowded = refl

perform_all-bounded_example :
    length (use_all unary (λ v. 0) unary 4 crowd []) ≤ 4 + increments crowd
perform_all-bounded_example =
    perform_all-bounded 4 (omega arith) unary (λ v. 0) unary crowd [] (omega arith)
