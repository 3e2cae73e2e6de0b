-- ===== src/Critic/Groups.antt =====
-- What `setdefault` and `append` collect: every item stands in the group of its key.
use multi_agent_ad_optimizer.Prelude.{
  some, List, [], ◌∷◌, ◌++◌, inl, inr, ◌≡◌, refl, arith, In, In-append_left, In-append_right, Eq,
  ◌==◌, ==_refl, Bool-cases, subst,
}
use multi_agent_ad_optimizer.Prelude.Dict.{Dict, get, get_or, get-put}
use multi_agent_ad_optimizer.Critic.Sets.{file_under, group_from}

module _ {K A : Type 0} ⦃e : Eq K⦄ where
  -- `a` stands in the group of `k`.
  pub record InGroup (k : K) (a : A) (groups : Dict K (List A)) : Type 0 where
    pub group : List A
    pub found : get k groups ≡ some group
    pub inside : In a group

  file_under-InGroup_self :
      (k : K) (a : A) (groups : Dict K (List A)) → InGroup k a (file_under k a groups)
  unfolding file_under
  file_under-InGroup_self k a groups = record {
    group = get_or k [] groups ++ a ∷ [];
    found = ground (arith, get-put k k (get_or k [] groups ++ a ∷ []) groups, ==_refl k);
    inside = In-append_right a (get_or k [] groups) (a ∷ []) (inl refl);
  }

  file_under-InGroup :
      (k j : K) (a b : A) (groups : Dict K (List A))
      → InGroup j b groups
      → InGroup j b (file_under k a groups)
  unfolding file_under
  file_under-InGroup k j a b groups m = elim (Bool-cases (k == j)) [
    | inl same ↦
        let k≡j : k ≡ j = (e.decides k j).0 same in
        record {
          group = m.group ++ a ∷ [];
          found = ground (arith, get-put k j (get_or k [] groups ++ a ∷ []) groups, k≡j, m.found);
          inside = In-append_left b m.group (a ∷ []) m.inside;
        }
    | inr other ↦ record {
      group = m.group;
      found = ground (arith, get-put k j (get_or k [] groups ++ a ∷ []) groups, other, m.found);
      inside = m.inside;
    }
  ]

  group_from-InGroup_old :
      (key : A → K) (j : K) (b : A) (items : List A) (groups : Dict K (List A))
      → InGroup j b groups
      → InGroup j b (group_from key groups items)
  unfolding group_from
  group_from-InGroup_old key j b [] groups m = m
  group_from-InGroup_old key j b (a ∷ items) groups m =
      group_from-InGroup_old key j b items _ (file_under-InGroup (key a) j a b groups m)

  pub group_from-InGroup :
      (key : A → K) (a : A) (items : List A) (groups : Dict K (List A))
      → In a items
      → InGroup (key a) a (group_from key groups items)
  unfolding group_from
  group_from-InGroup key a [] groups m = absurd m
  group_from-InGroup key a (x ∷ items) groups (inl a≡x) =
      rw a≡x
        (group_from-InGroup_old key (key x) x items _ (file_under-InGroup_self (key x) x groups))
  group_from-InGroup key a (x ∷ items) groups (inr m) =
      group_from-InGroup key a items (file_under (key x) x groups) m

  -- Two items of one key stand in one group.
  pub InGroup-same :
      (k j : K) (a b : A) (groups : Dict K (List A)) (m : InGroup k a groups)
      → j ≡ k
      → InGroup j b groups
      → In b m.group
  InGroup-same k j a b groups m e m' =
      let groups_eq : m'.group ≡ m.group = ground (arith, m.found, m'.found, e) in
      subst (λ g. In b g) groups_eq m'.inside
