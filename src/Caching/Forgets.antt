-- ===== src/Caching/Forgets.antt =====
-- The cache of infra/cache.py against one that forgets nothing.
use multi_agent_ad_optimizer.Prelude.{
  ℕ, ◌+◌, ◌≤◌, String, Option, none, some, List, [], ◌∷◌, length, ltb, leb, if◌then◌else◌, ◌==◌,
  string_eq, nat_eq, ◌≡◌, refl, sym, ◌∙◌, arith, ◌⊎◌, inl, inr, Bool-cases, Option-cases,
}
use multi_agent_ad_optimizer.Prelude.Dict.{get, get-put}
use multi_agent_ad_optimizer.Caching.Store.{
  Store, pop, pop_all, expired_keys, evict, set, get_entry, lookup, delete,
}

-- The calls that change the cache, with their instants.
pub data Call (V : Type 0) : Type 0 where
  set_call : ℕ → String → V → ℕ → Call V
  get_call : ℕ → String → Call V
  delete_call : String → Call V

module _ {V : Type 0} (max_entries : ℕ) where
  unfoldable pub perform : Call V → Store V → Store V
  perform (set_call now key value ttl_seconds) store =
      set max_entries now key value ttl_seconds store
  perform (get_call now key) store = (lookup now key store).1
  perform (delete_call key) store = delete key store

  unfoldable pub perform_all : List (Call V) → Store V → Store V
  perform_all [] store = store
  perform_all (c ∷ rest) store = perform_all rest (perform c store)

module _ {V : Type 0} where
  -- What a map without expiry and eviction holds after the same calls.
  unfoldable pub ideal : Call V → (String → Option (ℕ × V)) → String → Option (ℕ × V)
  ideal (set_call now key value ttl_seconds) held j =
      if key == j then some (now + ttl_seconds, value) else held j
  ideal (get_call now key) held j = held j
  ideal (delete_call key) held j = if key == j then none else held j

  unfoldable pub ideal_all : List (Call V) → (String → Option (ℕ × V)) → String → Option (ℕ × V)
  ideal_all [] held = held
  ideal_all (c ∷ rest) held = ideal_all rest (ideal c held)

  -- The store holds nothing that the map does not hold.
  abbrev pub Refines : Store V → (String → Option (ℕ × V)) → Type 0
  Refines store held = (key : String) → (get key store ≡ none) ⊎ (get key store ≡ held key)

module _ {V : Type 0} where
  get-pop :
      (key j : String) (store : Store V)
      → get j (pop key store) ≡ (if key == j then none else get j store)
  unfolding get pop
  get-pop key j [] = ground arith
  get-pop key j ((k, e) ∷ rest) = ground (
    arith,
    get-pop key j rest,
    string_eq.decides k key,
    string_eq.decides k j,
    string_eq.decides key j,
  )

  -- An entry is still there or gone.
  abbrev Shrinks : Store V → Store V → Type 0
  Shrinks before after = (key : String) → (get key after ≡ none) ⊎ (get key after ≡ get key before)

  pop-Shrinks : (key : String) (store : Store V) → Shrinks store (pop key store)
  pop-Shrinks key store j = ground (arith, get-pop key j store)

  pop_all-Shrinks : (names : List String) (store : Store V) → Shrinks store (pop_all names store)
  unfolding pop_all
  pop_all-Shrinks [] store j = inr refl
  pop_all-Shrinks (key ∷ rest) store j = elim (pop_all-Shrinks rest (pop key store) j) [
    | inl gone ↦ inl gone
    | inr same ↦ elim (pop-Shrinks key store j) [
      | inl gone ↦ inl (same ∙ gone)
      | inr kept ↦ inr (same ∙ kept)
    ]
  ]

  Shrinks-then : (a b c : Store V) → Shrinks a b → Shrinks b c → Shrinks a c
  Shrinks-then a b c first then' key = elim (then' key) [
    | inl gone ↦ inl gone
    | inr same ↦ elim (first key) [ inl gone ↦ inl (same ∙ gone) | inr kept ↦ inr (same ∙ kept) ]
  ]

  evict-Shrinks :
      (max_entries now : ℕ) (store : Store V) → Shrinks store (evict max_entries now store)
  unfolding evict
  evict-Shrinks max_entries now store =
      let live = pop_all (expired_keys now store) store in
      let first : Shrinks store live = pop_all-Shrinks (expired_keys now store) store in
      elim (Bool-cases (leb max_entries (length live))) [
        | inl full ↦ rw full (Shrinks-then store live _ first (pop_all-Shrinks _ live))
        | inr free ↦ rw free first
      ]

  room-Shrinks :
      (max_entries now : ℕ) (store : Store V)
      → Shrinks store
          (if leb max_entries (length store) then evict max_entries now store else store)
  room-Shrinks max_entries now store = elim (Bool-cases (leb max_entries (length store))) [
    | inl full ↦ rw full (evict-Shrinks max_entries now store)
    | inr free ↦ rw free (λ key. inr refl)
  ]

  lookup-Shrinks :
      (now : ℕ) (key : String) (store : Store V) → Shrinks store (lookup now key store).1
  unfolding lookup get_entry
  lookup-Shrinks now key store j = elim (Option-cases (get key store)) [
    | inl missing ↦ rw missing (inr refl)
    | inr ((expires_at, value), found) ↦ rw found (elim (Bool-cases (ltb expires_at now)) [
      | inl late ↦ rw late (pop-Shrinks key store j)
      | inr fresh ↦ rw fresh (inr refl)
    ])
  ]

  Shrinks-Refines :
      (before after : Store V) (held : String → Option (ℕ × V))
      → Shrinks before after
      → ((key : String) → (get key before ≡ none) ⊎ (get key before ≡ held key))
      → (key : String) → (get key after ≡ none) ⊎ (get key after ≡ held key)
  Shrinks-Refines before after held shrinks refines key = elim (shrinks key) [
    | inl gone ↦ inl gone
    | inr same ↦ elim (refines key) [ inl gone ↦ inl (same ∙ gone) | inr is ↦ inr (same ∙ is) ]
  ]

module _ {V : Type 0} (max_entries : ℕ) where
  perform-Refines :
      (c : Call V) (store : Store V) (held : String → Option (ℕ × V))
      → Refines store held
      → Refines (perform max_entries c store) (ideal c held)
  unfolding perform ideal set
  perform-Refines (set_call now key value ttl_seconds) store held refines j =
      let room = if leb max_entries (length store) then evict max_entries now store else store in
      rw (get-put key j (now + ttl_seconds, value) room) (elim (Bool-cases (key == j)) [
        | inl same ↦ rw same (inr refl)
        | inr other ↦
            rw other
              (Shrinks-Refines store room held (room-Shrinks max_entries now store) refines j)
      ])
  perform-Refines (get_call now key) store held refines j =
      Shrinks-Refines store _ held (lookup-Shrinks now key store) refines j
  perform-Refines (delete_call key) store held refines j =
      rw (get-pop key j store) (elim (Bool-cases (key == j)) [
        | inl same ↦ rw same (inl refl)
        | inr other ↦ rw other (refines j)
      ])

  perform_all-Refines :
      (calls : List (Call V)) (store : Store V) (held : String → Option (ℕ × V))
      → Refines store held
      → Refines (perform_all max_entries calls store) (ideal_all calls held)
  unfolding perform_all ideal_all
  perform_all-Refines [] store held refines = refines
  perform_all-Refines (c ∷ rest) store held refines =
      perform_all-Refines rest (perform max_entries c store) (ideal c held)
        (perform-Refines c store held refines)

  -- After any calls of get, set and delete on an empty cache, a lookup answers nothing, or the value
  -- that a map which never expires or evicts holds under the key, with an expiry that has not passed.
  pub lookup-ideal :
      (calls : List (Call V)) (now : ℕ) (key : String)
      → ((lookup now key (perform_all max_entries calls [])).0 ≡ none)
        ⊎ ((expires_at : ℕ) × (value : V) × ((lookup now key (perform_all max_entries calls [])).0
              ≡ some value)
            × (ideal_all calls (λ k. none) key ≡ some (expires_at, value))
            × (now ≤ expires_at))
  unfolding lookup get_entry get
  lookup-ideal calls now key =
      let store = perform_all max_entries calls [] in
      let refines : Refines store (ideal_all calls (λ k. none)) =
        perform_all-Refines calls [] (λ k. none) (λ k. inl refl) in
      elim (Option-cases (get key store)) [
        | inl missing ↦ rw missing (inl refl)
        | inr ((expires_at, value), found) ↦ rw found (elim (Bool-cases (ltb expires_at now)) [
          | inl late ↦ rw late (inl refl)
          | inr fresh ↦ rw fresh (elim (refines key) [
            | inl gone ↦ absurd (ground (arith, gone, found))
            | inr is ↦ inr (expires_at, value, refl, sym is ∙ found, ground (arith, fresh))
          ])
        ])
      ]
