-- ===== src/Scheduling/Exclusion.antt =====
-- One holder at a time: the leases of repositories/scheduling.py under interleaved callers.
use multi_agent_ad_optimizer.Prelude.{
  ℕ, ◌+◌, ◌≤◌, String, Bool, true, false, Option, none, some, if◌then◌else◌, ◌==◌, string_eq,
  nat_eq, ◌≡◌, refl, arith, ◌⊎◌, inl, inr, Bool-cases, Option-cases, ==_refl, subst,
}
use multi_agent_ad_optimizer.Prelude.Dict.{Dict, get, get-put, get-put_self}
use multi_agent_ad_optimizer.Scheduling.Leases.{
  Lease, Outcome, acquire, acquire_row, record_outcome, record_row, is_free, claimed, new_lease,
  finished,
}

-- The lease is held by the process until an instant.
abbrev pub is_held : String → ℕ → Option Lease → Bool
is_held holder until none = false
is_held holder until (some row) =
    if row.holder == holder
    then elim row.expires_at [ none ↦ false | some t ↦ t == until ]
    else false

abbrev pub Held : String → String → ℕ → Dict String Lease → Type 0
Held name holder until leases = is_held holder until (get name leases) ≡ true

-- What other callers do up to an instant: they claim any lease, under any holder, and they record
-- outcomes as processes other than the holder.
pub data Meanwhile (holder : String) (until : ℕ) (s : Dict String Lease)
    : Dict String Lease → Type 0 where
  nothing : Meanwhile holder until s s
  claims :
      (name caller : String) (ttl now : ℕ) (t : Dict String Lease)
      → now ≤ until
      → Meanwhile holder until s t
      → Meanwhile holder until s (acquire name caller ttl now t).1
  records :
      (name caller : String) (o : Outcome) (now : ℕ) (t : Dict String Lease)
      → (caller == holder) ≡ false
      → Meanwhile holder until s t
      → Meanwhile holder until s (record_outcome name caller o now t).1

module _ (name holder : String) (until : ℕ) where
  acquire-Held :
      (other caller : String) (ttl now : ℕ) (s : Dict String Lease)
      → now ≤ until
      → Held name holder until s
      → Held name holder until (acquire other caller ttl now s).1
  unfolding acquire acquire_row
  acquire-Held other caller ttl now s early held = elim (Option-cases (get other s)) [
    | inl missing ↦ rw missing (
        ground (
          arith,
          missing,
          held,
          string_eq.decides other name,
          get-put other name (new_lease caller now ttl) s,
        ))
    | inr (row, found) ↦ rw found (
        ground (
          arith,
          found,
          held,
          early,
          string_eq.decides other name,
          get-put other name (claimed caller now ttl row) s,
        ))
  ]

  record_outcome-Held :
      (other caller : String) (o : Outcome) (now : ℕ) (s : Dict String Lease)
      → (caller == holder) ≡ false
      → Held name holder until s
      → Held name holder until (record_outcome other caller o now s).1
  unfolding record_outcome record_row
  record_outcome-Held other caller o now s differs held = elim (Option-cases (get other s)) [
    | inl missing ↦ rw missing held
    | inr (row, found) ↦ rw found (
        ground (
          arith,
          found,
          held,
          differs,
          string_eq.decides other name,
          string_eq.decides row.holder caller,
          string_eq.decides row.holder holder,
          string_eq.decides caller holder,
          get-put other name (finished o now row) s,
        ))
  ]

  acquire-refused :
      (caller : String) (ttl now : ℕ) (s : Dict String Lease)
      → now ≤ until
      → Held name holder until s
      → acquire name caller ttl now s ≡ (false, s)
  unfolding acquire acquire_row
  acquire-refused caller ttl now s early held = elim (Option-cases (get name s)) [
    | inl missing ↦ absurd (ground (arith, missing, held))
    | inr (row, found) ↦ rw found (ground (arith, found, held, early))
  ]

  Meanwhile-Held :
      (s t : Dict String Lease)
      → Meanwhile holder until s t
      → Held name holder until s
      → Held name holder until t
  Meanwhile-Held s _ nothing held = held
  Meanwhile-Held s _ (claims other caller ttl now t early steps) held =
      acquire-Held other caller ttl now t early (Meanwhile-Held s t steps held)
  Meanwhile-Held s _ (records other caller o now t differs steps) held =
      record_outcome-Held other caller o now t differs (Meanwhile-Held s t steps held)

acquire-Held_or_lost :
    (name holder : String) (ttl now : ℕ) (s : Dict String Lease)
    → ((acquire name holder ttl now s).0 ≡ false)
      ⊎ Held name holder (now + ttl) (acquire name holder ttl now s).1
unfolding acquire acquire_row
acquire-Held_or_lost name holder ttl now s = elim (Option-cases (get name s)) [
  | inl missing ↦ rw missing (
      inr (
        rw (get-put_self name (new_lease holder now ttl) s)
          (ground (arith, ==_refl holder, ==_refl (now + ttl)))))
  | inr (row, found) ↦ rw found (elim (Bool-cases (is_free now row)) [
    | inl free ↦ rw free (
        inr (
          rw (get-put_self name (claimed holder now ttl row) s)
            (ground (arith, ==_refl holder, ==_refl (now + ttl)))))
    | inr taken ↦ rw taken (inl refl)
  ])
]

acquire-claims :
    (name holder : String) (ttl now : ℕ) (s t : Dict String Lease)
    → acquire name holder ttl now s ≡ (true, t)
    → Held name holder (now + ttl) t
acquire-claims name holder ttl now s t won = elim (acquire-Held_or_lost name holder ttl now s) [
  | inl lost ↦ absurd (ground (arith, won, lost))
  | inr held ↦ subst (λ r. Held name holder (now + ttl) r.1) won held
]

-- Once a process has won a lease, then until it expires, and whatever other callers claim and record
-- meanwhile, every claim of the lease is refused and changes nothing.
pub acquire-exclusive :
    (name holder : String) (ttl now : ℕ) (s t u : Dict String Lease)
    → acquire name holder ttl now s ≡ (true, t)
    → Meanwhile holder (now + ttl) t u
    → (caller : String) (ttl' now' : ℕ) → now' ≤ now + ttl
    → acquire name caller ttl' now' u ≡ (false, u)
acquire-exclusive name holder ttl now s t u won steps caller ttl' now' early =
    acquire-refused name holder (now + ttl) caller ttl' now' u early (
      Meanwhile-Held name holder (now + ttl) t u steps (acquire-claims name holder ttl now s t won))
