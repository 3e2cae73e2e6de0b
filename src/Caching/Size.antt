-- ===== src/Caching/Size.antt =====
-- How large the cache of infra/cache.py grows.
use Prim.Native.Nat.{◌/◌}
use text.Mathlib.Text.{starts_with}
use multi_agent_ad_optimizer.Prelude.{
  ℕ, ◌+◌, ◌-◌, ◌≤◌, ◌<◌, String, not, Option, none, some, List, [], ◌∷◌, keep, length,
  length-keep-le, ltb, leb, ◌==◌, string_eq, nat_eq, ◌≡◌, refl, arith, inl, inr, Bool-cases, In,
  ==_refl,
}
use multi_agent_ad_optimizer.Prelude.Dict.{get, put}
use multi_agent_ad_optimizer.Caching.Store.{
  Store, pop, pop_all, keys, expired_keys, insert_entry, by_expiry, first_of, evict, set, get_entry,
  lookup, incr_bucket, incr_window, delete_prefix,
}
use multi_agent_ad_optimizer.Caching.Forgets.{Call, set_call, get_call, delete_call, perform}

module _ {V : Type 0} where
  length-put-le :
      (key : String) (e : ℕ × V) (store : Store V) → length (put key e store) ≤ length store + 1
  unfolding put
  length-put-le key e [] = omega arith
  length-put-le key e ((k, f) ∷ rest) = ground (arith, length-put-le key e rest)

  length-pop-le : (key : String) (store : Store V) → length (pop key store) ≤ length store
  unfolding pop
  length-pop-le key store = length-keep-le (λ entry. not (entry.0 == key)) store

  length-pop_all-le :
      (names : List String) (store : Store V) → length (pop_all names store) ≤ length store
  unfolding pop_all
  length-pop_all-le [] store = omega arith
  length-pop_all-le (key ∷ rest) store =
      omega (arith, length-pop_all-le rest (pop key store), length-pop-le key store)

  length-pop-lt :
      (e : String × (ℕ × V)) (store : Store V) → In e store → length (pop e.0 store) < length store
  unfolding pop
  length-pop-lt e [] m = absurd m
  length-pop-lt e (f ∷ rest) (inl same) =
      rw (← same, ==_refl e.0) (ground (arith, length-keep-le (λ entry. not (entry.0 == e.0)) rest))
  length-pop-lt e (f ∷ rest) (inr m) = ground (arith, length-pop-lt e rest m)

  length-get_entry-le :
      (now : ℕ) (key : String) (o : Option (ℕ × V)) (store : Store V)
      → length (get_entry now key o store).1 ≤ length store
  unfolding get_entry
  length-get_entry-le now key none store = omega arith
  length-get_entry-le now key (some (expires_at, value)) store =
      ground (arith, length-pop-le key store)

  by_expiry-head :
      (e : String × (ℕ × V)) (rest : Store V)
      → (f : String × (ℕ × V)) × (more : Store V) × (by_expiry (e ∷ rest) ≡ f ∷ more)
        × In f (e ∷ rest)
  unfolding by_expiry insert_entry
  by_expiry-head e [] = (e, [], refl, inl refl)
  by_expiry-head e (d ∷ rest) =
      let (f, more, sorted, m) = by_expiry-head d rest in
      rw sorted (elim (Bool-cases (ltb f.1.0 e.1.0)) [
        | inl before ↦ rw before (f, insert_entry e more, refl, inr m)
        | inr after ↦ rw after (e, f ∷ more, refl, inl refl)
      ])

  oldest-gone :
      (n : ℕ) (store : Store V)
      → 1 ≤ n
      → 1 ≤ length store
      → length (pop_all (keys (first_of n (by_expiry store))) store) < length store
  unfolding first_of pop_all
  oldest-gone n [] some_out some_in = omega (arith, some_in)
  oldest-gone n (e ∷ rest) some_out some_in =
      let (f, more, sorted, m) = by_expiry-head e rest in
      elim (Bool-cases (n == 0)) [
        | inl zero' ↦ ground (arith, zero', some_out)
        | inr pos ↦
            rw (sorted, pos)
              (omega (
                arith,
                length-pop-lt f (e ∷ rest) m,
                length-pop_all-le (keys (first_of (n - 1) more)) (pop f.0 (e ∷ rest)),
              ))
      ]

-- Every method that writes `_store`: the calls above, `delete_prefix`, and `incr_window` with its
-- instant, key and window.
pub data Use (V : Type 0) : Type 0 where
  cache_call : Call V → Use V
  prefix_call : String → Use V
  incr_call : ℕ → String → ℕ → Use V

module _ {V : Type 0} (str_int : ℕ → String) (decode : V → ℕ) (encode : ℕ → V)
    (max_entries : ℕ) where
  unfoldable pub use_one : Use V → Store V → Store V
  use_one (cache_call c) store = perform max_entries c store
  use_one (prefix_call prefix) store = (delete_prefix prefix store).1
  use_one (incr_call now key window_seconds) store =
      (incr_window str_int decode encode now key window_seconds store).1

  unfoldable pub use_all : List (Use V) → Store V → Store V
  use_all [] store = store
  use_all (u ∷ rest) store = use_all rest (use_one u store)

-- How often `incr_window` is called.
unfoldable pub increments : {V : Type 0} → List (Use V) → ℕ
increments [] = 0
increments (cache_call c ∷ rest) = increments rest
increments (prefix_call prefix ∷ rest) = increments rest
increments (incr_call now key window_seconds ∷ rest) = 1 + increments rest

module _ {V : Type 0} (max_entries : ℕ) (enough : 4 ≤ max_entries) where
  length-evict-lt :
      (limit now : ℕ) (store : Store V)
      → max_entries ≤ limit
      → length store ≤ limit
      → length (evict max_entries now store) < limit
  unfolding evict
  length-evict-lt limit now store over bound =
      let live = pop_all (expired_keys now store) store in
      let fewer : length live ≤ length store = length-pop_all-le (expired_keys now store) store in
      let quarter : 1 ≤ max_entries / 4 = omega (arith, enough) in
      elim (Bool-cases (leb max_entries (length live))) [
        | inl full ↦ rw full (
            let at_least : max_entries ≤ length live = ground (arith, full) in
            omega (
              arith,
              bound,
              fewer,
              oldest-gone (max_entries / 4) live quarter (omega (arith, at_least, enough)),
            ))
        | inr free ↦ rw free (
            let below : length live < max_entries = ground (arith, free) in
            omega (arith, below, over))
      ]

  perform-bounded :
      (limit : ℕ) (c : Call V) (store : Store V)
      → max_entries ≤ limit
      → length store ≤ limit
      → length (perform max_entries c store) ≤ limit
  unfolding perform set lookup
  perform-bounded limit (set_call now key value ttl_seconds) store over bound =
      elim (Bool-cases (leb max_entries (length store))) [
        | inl full ↦ rw full (
            omega (
              arith,
              length-evict-lt limit now store over bound,
              length-put-le key (now + ttl_seconds, value) (evict max_entries now store),
            ))
        | inr free ↦ rw free (
            let fewer : length store < max_entries = ground (arith, free) in
            omega (arith, fewer, over, length-put-le key (now + ttl_seconds, value) store))
      ]
  perform-bounded limit (get_call now key) store over bound =
      omega (arith, bound, length-get_entry-le now key (get key store) store)
  perform-bounded limit (delete_call key) store over bound =
      omega (arith, bound, length-pop-le key store)

  module _ (str_int : ℕ → String) (decode : V → ℕ) (encode : ℕ → V) where
    use_all-bounded :
        (limit : ℕ) (uses : List (Use V)) (store : Store V)
        → max_entries ≤ limit
        → length store ≤ limit
        → length (use_all str_int decode encode max_entries uses store) ≤ limit + increments uses
    unfolding use_all use_one increments incr_bucket
    use_all-bounded limit [] store over bound = omega (arith, bound)
    use_all-bounded limit (cache_call c ∷ rest) store over bound =
        use_all-bounded limit rest (perform max_entries c store) over
          (perform-bounded limit c store over bound)
    use_all-bounded limit (prefix_call prefix ∷ rest) store over bound =
        let names = keys (keep (λ entry. starts_with entry.0 prefix) store) in
        use_all-bounded limit rest (pop_all names store) over
          (omega (arith, bound, length-pop_all-le names store))
    use_all-bounded limit (incr_call now key window_seconds ∷ rest) store over bound =
        let after =
          use_one str_int decode encode max_entries (incr_call now key window_seconds) store in
        let more : length after ≤ length store + 1 = length-put-le _ _ store in
        omega (
          arith,
          use_all-bounded (limit + 1) rest after (omega (arith, over)) (omega (arith, bound, more)),
        )

    -- With room for at least four entries, a cache within its limit stays within it through any
    -- sequence of get, set, delete and delete_prefix; each call of incr_window in the sequence, which
    -- tests no size, takes it at most one entry further, and nothing else does.
    pub perform_all-bounded :
        (uses : List (Use V)) (store : Store V)
        → length store ≤ max_entries
        → length (use_all str_int decode encode max_entries uses store)
          ≤ max_entries + increments uses
    perform_all-bounded uses store bound =
        use_all-bounded max_entries uses store (omega arith) bound
