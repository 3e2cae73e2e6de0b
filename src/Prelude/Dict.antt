-- ===== src/Prelude/Dict.antt =====
-- Python's `dict` as an association list in insertion order: a write to a present key keeps its
-- place, a write to a new key goes to the end.
use Prim.Native.Nat.{ℕ, ◌+◌}
use mathlib.Core.Path.{◌≡◌, refl}
use mathlib.Core.Option.{Option, none, some}
use mathlib.Core.List.{List, [], ◌∷◌}
use native.Mathlib.Omega.{arith}
use multi_agent_ad_optimizer.Prelude.Tests.{Eq, ◌==◌, if◌then◌else◌, ==_refl}

abbrev pub Dict {ℓ κ} : Type ℓ → Type κ → Type (ℓ ⊔ κ)
Dict K V = List (K × V)

module _ {K V : Type 0} ⦃e : Eq K⦄ where
  -- `m.get(k)`
  unfoldable pub get : K → Dict K V → Option V
  get k [] = none
  get k ((j, v) ∷ m) = if j == k then some v else get k m

  -- `m[k] = v`
  unfoldable pub put : K → V → Dict K V → Dict K V
  put k v [] = (k, v) ∷ []
  put k v ((j, w) ∷ m) = if j == k then (j, v) ∷ m else (j, w) ∷ put k v m

  -- `m.get(k, d)`, and `m[k]` of a `defaultdict`
  abbrev pub get_or : K → V → Dict K V → V
  get_or k d m = elim (get k m) [ none ↦ d | some v ↦ v ]

  pub get_or-none : (k : K) (d : V) (m : Dict K V) → get k m ≡ none → get_or k d m ≡ d
  get_or-none k d m missing = rw (missing, get_or) refl

  pub get_or-some : (k : K) (d v : V) (m : Dict K V) → get k m ≡ some v → get_or k d m ≡ v
  get_or-some k d v m found = rw (found, get_or) refl

  pub get-put :
      (k j : K) (v : V) (m : Dict K V) → get j (put k v m) ≡ (if k == j then some v else get j m)
  unfolding get put
  get-put k j v [] = refl
  get-put k j v ((i, w) ∷ m) =
      ground (arith, get-put k j v m, e.decides i k, e.decides i j, e.decides k j)

  pub get-put_self : (k : K) (v : V) (m : Dict K V) → get k (put k v m) ≡ some v
  get-put_self k v m = ground (arith, get-put k k v m, ==_refl k)

  pub get_or-put :
      (k j : K) (d v : V) (m : Dict K V)
      → get_or j d (put k v m) ≡ (if k == j then v else get_or j d m)
  get_or-put k j d v m = ground (arith, get-put k j v m)

module _ {K : Type 0} ⦃e : Eq K⦄ where
  -- `m[k] = m.get(k, 0) + 1`
  unfoldable pub tally : K → Dict K ℕ → Dict K ℕ
  tally k m = put k (get_or k 0 m + 1) m

  -- The sum of all counters.
  unfoldable pub total : Dict K ℕ → ℕ
  total [] = 0
  total ((_, n) ∷ m) = n + total m

  total-put : (k : K) (n : ℕ) (m : Dict K ℕ) → total (put k n m) + get_or k 0 m ≡ total m + n
  unfolding total put get
  total-put k n [] = omega arith
  total-put k n ((j, w) ∷ m) = ground (arith, total-put k n m)

  pub total-tally : (k : K) (m : Dict K ℕ) → total (tally k m) ≡ total m + 1
  unfolding tally
  total-tally k m = ground (arith, total-put k (get_or k 0 m + 1) m)

  pub get_or-tally :
      (k j : K) (m : Dict K ℕ)
      → get_or j 0 (tally k m) ≡ (if k == j then get_or j 0 m + 1 else get_or j 0 m)
  unfolding tally
  get_or-tally k j m = ground (arith, get-put k j (get_or k 0 m + 1) m, e.decides k j)
