-- ===== src/Critic/Sets.antt =====
-- The containers of agents/critic.py: the set of withheld ids, the groups that `setdefault` and
-- `append` build, and the library functions `max` and `sorted` by a strict order.
use multi_agent_ad_optimizer.Prelude.{
  ℕ, ◌+◌, String, Bool, List, [], ◌∷◌, ◌++◌, elem, if◌then◌else◌, Eq, string_eq,
}
use multi_agent_ad_optimizer.Prelude.Dict.{Dict, get_or, put}

-- `suppressed.add(id)` on a set.
unfoldable pub add : String → List String → List String
add id ids = if elem id ids then ids else ids ++ id ∷ []

unfoldable pub add_all : List String → List String → List String
add_all [] ids = ids
add_all (x ∷ xs) ids = add_all xs (add x ids)

module _ {K A : Type 0} ⦃e : Eq K⦄ where
  -- `groups.setdefault(key, []).append(a)`
  unfoldable pub file_under : K → A → Dict K (List A) → Dict K (List A)
  file_under k a groups = put k (get_or k [] groups ++ a ∷ []) groups

  unfoldable pub group_from : (A → K) → Dict K (List A) → List A → Dict K (List A)
  group_from key groups [] = groups
  group_from key groups (a ∷ rest) = group_from key (file_under (key a) a groups) rest

module _ {A : Type 0} where
  -- `max(a, *rest)` by a strict order: the first of the greatest.
  unfoldable pub max_from : (A → A → Bool) → A → List A → A
  max_from lt best [] = best
  max_from lt best (x ∷ xs) = max_from lt (if lt best x then x else best) xs

  -- `sorted(xs, reverse=True)` by a strict order: greatest first.
  unfoldable pub insert_desc : (A → A → Bool) → A → List A → List A
  insert_desc lt a [] = a ∷ []
  insert_desc lt a (x ∷ xs) = if lt x a then a ∷ x ∷ xs else x ∷ insert_desc lt a xs

  unfoldable pub sort_desc : (A → A → Bool) → List A → List A
  sort_desc lt [] = []
  sort_desc lt (x ∷ xs) = insert_desc lt x (sort_desc lt xs)

  -- `enumerate`
  unfoldable pub enumerate_from : ℕ → List A → List (ℕ × A)
  enumerate_from i [] = []
  enumerate_from i (x ∷ xs) = (i, x) ∷ enumerate_from (i + 1) xs
