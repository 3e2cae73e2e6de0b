-- ===== src/Prelude/Method.antt =====
-- Methods over a session: they read and write a state and may raise. What was written before an
-- exception stays written; whether it is rolled back or committed is the caller's business.
use mathlib.Core.Logic.{◌⊎◌, inl, inr}
use mathlib.Core.Bool.{Bool, true, false}
use mathlib.Core.Option.{Option, none, some}
use multi_agent_ad_optimizer.Prelude.Tests.{Sum-cases}

abbrev pub Method : Type 0 → Type 0 → Type 0 → Type 0
Method S E A = S → (E ⊎ A) × S

module _ {S E : Type 0} where
  abbrev pub pure : {A : Type 0} → A → Method S E A
  pure a s = (inr a, s)

  abbrev pub raise : {A : Type 0} → E → Method S E A
  raise e s = (inl e, s)

  abbrev pub gets : {A : Type 0} → (S → A) → Method S E A
  gets f s = (inr (f s), s)

  abbrev pub modify : (S → S) → Method S E Unit
  modify f s = (inr tt, f s)

  abbrev pub and_then : {A B : Type 0} → E ⊎ A → (A → Method S E B) → Method S E B
  and_then (inl e) f = raise e
  and_then (inr a) f = f a

  infixl 5 ◌>>=◌ ◌>>◌
  abbrev pub ◌>>=◌ : {A B : Type 0} → Method S E A → (A → Method S E B) → Method S E B
  m >>= f = λ s. let (r, s') = m s in and_then r f s'

  abbrev pub ◌>>◌ : {A B : Type 0} → Method S E A → Method S E B → Method S E B
  m >> k = m >>= λ _. k

  -- `if not test: raise error`
  abbrev pub refuse_unless : Bool → E → Method S E Unit
  refuse_unless true e = pure tt
  refuse_unless false e = raise e

  -- The value, or the error where there is none.
  abbrev pub demand : {A : Type 0} → Option A → E → Method S E A
  demand none e = raise e
  demand (some a) e = pure a

  -- `if test: method`
  abbrev pub when : Bool → Method S E Unit → Method S E Unit
  when true m = m
  when false m = pure tt

  -- A method keeps a statement about the state, whatever its outcome.
  abbrev pub Keeps : {A : Type 0} → (S → Type 0) → Method S E A → Type 0
  Keeps P m = (s : S) → P s → P (m s).1

  module _ (P : S → Type 0) where
    pub bind-Keeps :
        {A B : Type 0} (m : Method S E A) (f : A → Method S E B)
        → Keeps P m
        → ((a : A) → Keeps P (f a))
        → Keeps P (m >>= f)
    bind-Keeps m f first then' s p = elim (Sum-cases (m s).0) [
      | inl (e, raised) ↦ rw raised (first s p)
      | inr (a, done) ↦ rw done (then' a (m s).1 (first s p))
    ]

    pub refuse_unless-Keeps : (test : Bool) (e : E) → Keeps P (refuse_unless test e)
    refuse_unless-Keeps true e s p = p
    refuse_unless-Keeps false e s p = p

    pub demand-Keeps : {A : Type 0} (o : Option A) (e : E) → Keeps P (demand o e)
    demand-Keeps none e s p = p
    demand-Keeps (some a) e s p = p

    pub when-Keeps : (test : Bool) (m : Method S E Unit) → Keeps P m → Keeps P (when test m)
    when-Keeps true m keeps s p = keeps s p
    when-Keeps false m keeps s p = p

    -- A statement that holds before a guarded method and after the method alone holds after both.
    pub guard-after :
        {A : Type 0} (test : Bool) (e : E) (m : Method S E A) (s : S)
        → P s
        → P (m s).1
        → P ((refuse_unless test e >> m) s).1
    guard-after true e m s p after = after
    guard-after false e m s p after = p
