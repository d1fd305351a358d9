-- ===== src/Candidates/Policy/Ranking.antt =====
-- The order that the policy sorts by, and the items that the global fill prefers.
use a_stock_lens.Base.{
  ◌-◌, ◌≡◌, inl, inr, not, true, false, List, keep, Memᴰ, length, arith, ap, mem-keep_of,
  mem-take_or_drop, text_leb_total, text_leb_trans,
}
use a_stock_lens.Base.Sorting.{
  sort, Total, Transitive, lex, lex-Total, lex-Transitive, mem-sort_of, sort-IsSorted,
  IsSorted-take-drop,
}
use a_stock_lens.Number.{Double, IsOrdered}
use a_stock_lens.Candidates.{CandidateEvidence}
use a_stock_lens.Candidates.Policy.{
  RepresentativeCandidatePolicy, priority_before, filled_items, is_reserved, by_percentile,
  by_count, by_validation, by_symbol,
}

module _ ⦃d : Double⦄ (ordered : IsOrdered d) where
  open ordered use {le_total, le_trans}

  pub priority_before-Total : Total priority_before
  unfolding priority_before
  priority_before-Total =
      lex-Total {f = by_percentile} {g = lex by_count (lex by_validation by_symbol)}
        (λ x y. le_total _ _)
        (lex-Total {f = by_count} {g = lex by_validation by_symbol} (λ x y. ground arith)
          (lex-Total {f = by_validation} {g = by_symbol} (λ x y. ground arith)
            (λ x y. text_leb_total x.symbol y.symbol)))

  pub priority_before-Transitive : Transitive priority_before
  unfolding priority_before
  priority_before-Transitive =
      lex-Transitive {f = by_percentile} {g = lex by_count (lex by_validation by_symbol)}
        (λ x y z. le_trans _ _ _)
        (lex-Transitive {f = by_count} {g = lex by_validation by_symbol} (λ x y z h k. ground arith)
          (lex-Transitive {f = by_validation} {g = by_symbol} (λ x y z h k. ground arith)
            (λ x y z. text_leb_trans x.symbol y.symbol z.symbol)))

  module _ (policy : RepresentativeCandidatePolicy) where
    -- Among floats that are ordered, the global fill takes the best: whichever item it takes is not
    -- behind an item outside the reserve that it leaves, in the order of the priority key.
    pub filled_items-best :
        (eligible : List CandidateEvidence) (x y : CandidateEvidence)
        → Memᴰ x (filled_items policy eligible)
        → Memᴰ y eligible
        → is_reserved policy eligible y ≡ false
        → ¬ Memᴰ y (filled_items policy eligible)
        → priority_before x y ≡ true
    filled_items-best es x y filled there free missed =
        let rest = keep (λ e. not (is_reserved policy es e)) es in
        let k = policy.max_candidates - length (keep (is_reserved policy es) es) in
        elim (mem-take_or_drop k (sort priority_before rest)
          (mem-sort_of priority_before rest (mem-keep_of _ es there (ap not free)))) [
            | inl taken ↦ absurd (missed taken)
            | inr dropped ↦
                IsSorted-take-drop priority_before k (sort priority_before rest)
                  (sort-IsSorted priority_before priority_before-Total priority_before-Transitive
                    rest)
                  filled dropped
          ]
