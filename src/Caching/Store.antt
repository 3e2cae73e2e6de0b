-- ===== src/Caching/Store.antt =====
-- `InMemoryCache` of infra/cache.py. The instant of a call is an argument; values are opaque.
use Prim.Native.Nat.{◌%◌, ◌/◌}
use text.Mathlib.Text.{starts_with}
use multi_agent_ad_optimizer.Prelude.{
  ℕ, ◌+◌, ◌-◌, String, not, Option, none, some, List, [], ◌∷◌, keep, length, ltb, leb,
  if◌then◌else◌, ◌==◌, string_eq, nat_eq,
}
use multi_agent_ad_optimizer.Prelude.Text.{concat}
use multi_agent_ad_optimizer.Prelude.Dict.{Dict, get, put}

-- `_store`: each key with its expiry and value.
abbrev pub Store : Type 0 → Type 0
Store V = Dict String (ℕ × V)

module _ {V : Type 0} where
  -- `self._store.pop(key, None)`
  unfoldable pub pop : String → Store V → Store V
  pop key store = keep (λ entry. not (entry.0 == key)) store

  unfoldable pub pop_all : List String → Store V → Store V
  pop_all [] store = store
  pop_all (key ∷ rest) store = pop_all rest (pop key store)

  abbrev pub keys : Store V → List String
  keys [] = []
  keys ((key, entry) ∷ rest) = key ∷ keys rest

  abbrev pub expired_keys : ℕ → Store V → List String
  expired_keys now store = keys (keep (λ entry. ltb entry.1.0 now) store)

  -- `sorted` by expiry: equal expiries keep their order.
  unfoldable pub insert_entry : String × (ℕ × V) → Store V → Store V
  insert_entry e [] = e ∷ []
  insert_entry e (f ∷ rest) = if ltb f.1.0 e.1.0 then f ∷ insert_entry e rest else e ∷ f ∷ rest

  unfoldable pub by_expiry : Store V → Store V
  by_expiry [] = []
  by_expiry (e ∷ rest) = insert_entry e (by_expiry rest)

  unfoldable pub first_of : ℕ → Store V → Store V
  first_of n [] = []
  first_of n (e ∷ rest) = let more = first_of (n - 1) rest in if n == 0 then [] else e ∷ more

  -- `_evict`
  unfoldable pub evict : ℕ → ℕ → Store V → Store V
  evict max_entries now store =
      let live = pop_all (expired_keys now store) store in
      if leb max_entries (length live)
      then pop_all (keys (first_of (max_entries / 4) (by_expiry live))) live
      else live

  -- `set`
  unfoldable pub set : ℕ → ℕ → String → V → ℕ → Store V → Store V
  set max_entries now key value ttl_seconds store =
      let room = if leb max_entries (length store) then evict max_entries now store else store in
      put key (now + ttl_seconds, value) room

  unfoldable pub get_entry : ℕ → String → Option (ℕ × V) → Store V → Option V × Store V
  get_entry now key none store = (none, store)
  get_entry now key (some (expires_at, value)) store =
      if ltb expires_at now then (none, pop key store) else (some value, store)

  -- `get`
  unfoldable pub lookup : ℕ → String → Store V → Option V × Store V
  lookup now key store = get_entry now key (get key store) store

  -- `delete`
  abbrev pub delete : String → Store V → Store V
  delete key store = pop key store

  -- The counter of `incr_window`'s bucket: what an unexpired entry holds, and one. `decode` reads the
  -- count of a stored value.
  abbrev pub bucket_count : (V → ℕ) → ℕ → Option (ℕ × V) → ℕ
  bucket_count decode now none = 1
  bucket_count decode now (some (expires_at, value)) =
      if ltb now expires_at then decode value + 1 else 1

  -- `incr_window`, with `bucket_start` computed: no test of the size, no eviction.
  unfoldable pub incr_bucket : (V → ℕ) → (ℕ → V) → ℕ → String → ℕ → ℕ → Store V → (ℕ × ℕ) × Store V
  incr_bucket decode encode now bucket_key bucket_start window_seconds store =
      let count = bucket_count decode now (get bucket_key store) in
      let left = bucket_start + window_seconds - now in
      (
        (count, if ltb left 1 then 1 else left),
        put bucket_key (bucket_start + window_seconds, encode count) store,
      )

  -- `incr_window`, for a window of at least a second; `str_int` is Python's text of a number.
  abbrev pub incr_window :
      (ℕ → String) → (V → ℕ) → (ℕ → V) → ℕ → String → ℕ → Store V → (ℕ × ℕ) × Store V
  incr_window str_int decode encode now key window_seconds store =
      let bucket_start = now - now % window_seconds in
      incr_bucket decode encode now (concat (key ∷ ":" ∷ str_int bucket_start ∷ [])) bucket_start
        window_seconds store

  -- `delete_prefix`
  abbrev pub delete_prefix : String → Store V → ℕ × Store V
  delete_prefix prefix store =
      let names = keys (keep (λ entry. starts_with entry.0 prefix) store) in
      (length names, pop_all names store)
