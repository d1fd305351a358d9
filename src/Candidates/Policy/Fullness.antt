-- ===== src/Candidates/Policy/Fullness.antt =====
-- What `select` leaves out: only what a veto strikes, or what does not fit.
use a_stock_lens.Base.{
  ℕ, zero, suc, ◌-◌, ◌≤◌, ◌≡◌, ◌≢◌, refl, sym, ap, subst, ◌⊎◌, inl, inr, true, false, not, some,
  List, [], ◌∷◌, ◌++◌, length, take, drop, keep, Memᴰ, mem-keep_of, mem-append_left,
  mem-append_right, mem-map_of, length-map, mem-take_or_drop, length-append, Bool-cases, arith,
}
use a_stock_lens.Base.Sorting.{sort, mem-sort_of, length-sort}
use a_stock_lens.Number.{Double}
use a_stock_lens.Domain.{MarketValidation, Signal}
use a_stock_lens.Candidates.{CandidateEvidence, CandidateSelection, ok}
use a_stock_lens.Candidates.Policy.{
  RepresentativeCandidatePolicy, select, selected_evidence, selection_of, is_eligible,
  is_contradicted, is_breakdown, priority_before, reserved_items, filled_items, is_reserved,
}
use a_stock_lens.Candidates.Policy.Selection.{IsPublishable, select-eq-ok}

length-take_of_drop {ℓ} :
    {A : Type ℓ} {a : A} (n : ℕ) (xs : List A) → Memᴰ a (drop n xs) → length (take n xs) ≡ n
length-take_of_drop zero xs m = refl
length-take_of_drop (suc n) [] m = elim m [ ]
length-take_of_drop (suc n) (x ∷ xs) m = ap suc (length-take_of_drop n xs m)

module _ ⦃d : Double⦄ where
  IsPublishable-eligible : (e : CandidateEvidence) → IsPublishable e → is_eligible e ≡ true
  IsPublishable-eligible e p =
      rw (p.validated, p.signalled)
        (ground (arith, kept p.validation p.not_contradicted, heard p.signal p.not_breakdown))
    where
      kept :
          (v : MarketValidation)
          → v ≢ MarketValidation.contradicted
          → is_contradicted (some v) ≡ false
      kept MarketValidation.confirmed h = refl
      kept MarketValidation.neutral h = refl
      kept MarketValidation.contradicted h = absurd (h refl)

      heard : (s : Signal) → s ≢ Signal.breakdown → is_breakdown (some s) ≡ false
      heard s h = ground (arith, h)

  module _ (policy : RepresentativeCandidatePolicy) where
    open policy use {max_candidates}

    selected_or_full :
        (eligible : List CandidateEvidence) (e : CandidateEvidence)
        → Memᴰ e eligible
        → Memᴰ e (selected_evidence policy eligible)
          ⊎ (max_candidates ≤ length (selected_evidence policy eligible))
    unfolding selected_evidence
    selected_or_full es e m = elim (Bool-cases (is_reserved policy es e)) [
      | inl kept ↦ inl (
          mem-sort_of priority_before _ (
            mem-append_left (reserved_items policy es) _
              (mem-keep_of (is_reserved policy es) es m kept)))
      | inr free ↦
          let rest = keep (λ x. not (is_reserved policy es x)) es in
          let k = max_candidates - length (reserved_items policy es) in
          elim (mem-take_or_drop k (sort priority_before rest)
            (mem-sort_of priority_before rest (mem-keep_of _ es m (ap not free)))) [
              | inl taken ↦ inl (
                  mem-sort_of priority_before _
                    (mem-append_right (reserved_items policy es) (filled_items policy es) taken))
              | inr dropped ↦ inr (
                  omega (
                    arith,
                    length-sort priority_before
                        (reserved_items policy es ++ filled_items policy es),
                    length-append (reserved_items policy es) (filled_items policy es),
                    length-take_of_drop k (sort priority_before rest) dropped,
                  ))
            ]
    ]

    -- Nothing is dropped silently: if `select` returns, every item of the evidence that has both
    -- upstream verdicts, of which neither is a veto, is among the selections, or these are as many
    -- as the capacity or more.
    pub select-published_or_full :
        (evidence : List CandidateEvidence) (selections : List CandidateSelection)
        (e : CandidateEvidence)
        → select policy evidence ≡ ok selections
        → Memᴰ e evidence
        → IsPublishable e
        → Memᴰ (selection_of policy e) selections ⊎ (max_candidates ≤ length selections)
    select-published_or_full evidence selections e h m good =
        let eligible = keep is_eligible evidence in
        let made = (select-eq-ok policy evidence h).1 in
        let there = mem-keep_of is_eligible evidence m (IsPublishable-eligible e good) in
        elim (selected_or_full eligible e there) [
          | inl chosen ↦ inl (
              subst (Memᴰ (selection_of policy e)) (sym made)
                (mem-map_of (selection_of policy) _ chosen))
          | inr full ↦ inr (
              rw made (
                omega (
                  arith,
                  full,
                  length-map (selection_of policy) (selected_evidence policy eligible),
                )))
        ]
