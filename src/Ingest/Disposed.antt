-- ===== src/Ingest/Disposed.antt =====
-- Where the records of a batch of services/ingest.py end, and how often.
use multi_agent_ad_optimizer.Prelude.{
  ℕ, zero, suc, ◌+◌, List, [], ◌∷◌, length, ◌≡◌, refl, arith, ltb, ◌==◌, if◌then◌else◌, pair_eq,
  option_eq, nat_eq, string_eq,
}
use multi_agent_ad_optimizer.Ingest.Records.{Builtins, IngestIssue}
use multi_agent_ad_optimizer.Ingest.Placing.{Attributed}
use multi_agent_ad_optimizer.Ingest.Batch.{sort_out}
use multi_agent_ad_optimizer.Ingest.Books.{Request, Books, Sorted}
use multi_agent_ad_optimizer.Ingest.Accounts.{span, of_issues, of_items, of_sort_out}
use multi_agent_ad_optimizer.Ingest.Written.{IsApart}
use multi_agent_ad_optimizer.Ingest.Duplicates.{reject_duplicate_slots-IsApart}

span_ones : (index n : ℕ) → span (λ _. 1) index n ≡ n
unfolding span
span_ones index zero = refl
span_ones index (suc n) = omega (arith, span_ones (suc index) n)

length-of_issues : (issues : List IngestIssue) → of_issues (λ _. 1) issues ≡ length issues
length-of_issues [] = refl
length-of_issues (i ∷ rest) = omega (arith, length-of_issues rest)

-- The weight of one index.
abbrev pub one_at : ℕ → ℕ → ℕ
one_at i j = if j == i then 1 else 0

span-one_at :
    (i index n : ℕ)
    → span (one_at i) index n ≡ (if ltb i index then 0 else if ltb i (index + n) then 1 else 0)
unfolding span
span-one_at i index zero = ground arith
span-one_at i index (suc n) = ground (arith, span-one_at i (suc index) n)

module _ {F : Type 0} where
  length-of_items : (items : List (Attributed F)) → of_items (λ _. 1) items ≡ length items
  length-of_items [] = refl
  length-of_items (item ∷ rest) = omega (arith, length-of_items rest)

  module _ (builtins : Builtins F) (request : Request F) (books : Books F) where
    abbrev result : Sorted F
    result = sort_out builtins request books

    pub length-sort_out :
        length result.rejected + length result.unresolved + length result.attributed
        ≡ length request.records
    length-sort_out = omega (
      arith,
      of_sort_out (λ _. 1) builtins request books,
      span_ones 0 (length request.records),
      length-of_issues result.rejected,
      length-of_issues result.unresolved,
      length-of_items result.attributed,
    )

    -- Whatever the batch and the tables, every record of the batch is rejected, unresolved or
    -- attributed, and it is so exactly once: each index below the number of records occurs once in
    -- the three lists together, and no other index occurs.
    pub disposed_once :
        (i : ℕ)
        → of_issues (one_at i) result.rejected
            + of_issues (one_at i) result.unresolved
            + of_items (one_at i) result.attributed
          ≡ (if ltb i (length request.records) then 1 else 0)
    disposed_once i = ground (
      arith,
      of_sort_out (one_at i) builtins request books,
      span-one_at i 0 (length request.records),
    )

    pub sort_out-IsApart : IsApart result.attributed
    unfolding sort_out
    sort_out-IsApart = reject_duplicate_slots-IsApart builtins.str _
