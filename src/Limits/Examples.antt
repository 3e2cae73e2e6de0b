-- ===== src/Limits/Examples.antt =====
-- The limiter of core/middleware.py at concrete requests.
use multi_agent_ad_optimizer.Prelude.{◌≤◌, [], ◌∷◌, ◌≡◌, refl, arith, string_eq}
use multi_agent_ad_optimizer.Prelude.Dict.{get, put}
use multi_agent_ad_optimizer.Limits.Window.{Windows, allow, allow_in, prune}
use multi_agent_ad_optimizer.Limits.Bound.{allowed, allowed-limit}

-- The window before is over: its count does not weigh on this one.
abbrev earlier : Windows
earlier = ("user:1", (60, 2)) ∷ []

three_of_four : allowed "user:1" 3 60 120 (121 ∷ 130 ∷ 140 ∷ 179 ∷ []) earlier ≡ 3
unfolding allowed allow allow_in prune get put
three_of_four = refl

allowed-limit_example : allowed "user:1" 3 60 120 (121 ∷ 130 ∷ 140 ∷ 179 ∷ []) earlier ≤ 3
unfolding get
allowed-limit_example =
    allowed-limit "user:1" 3 60 120 (121 ∷ 130 ∷ 140 ∷ 179 ∷ []) earlier
      ((refl, omega arith), ((refl, omega arith), ((refl, omega arith), ((refl, omega arith), tt))))
      refl
