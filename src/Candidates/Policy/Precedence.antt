-- ===== src/Candidates/Policy/Precedence.antt =====
-- The order in which `select` publishes, told without the keys that it sorts by.
use a_stock_lens.Base.{
  ◌<◌, ◌≡◌, sym, ◌∙◌, ◌⊎◌, inl, inr, Bool, true, false, leb, some, List, [], ◌∷◌, All, All-each,
  All-mem, Memᴰ, map, keep, mem-keep, text_leb, Bool-cases, arith,
}
use a_stock_lens.Base.Sorting.{IsSorted, lex, sort-IsSorted}
use a_stock_lens.Number.{Double, IsOrdered, ◌≼◌, ◌≺◌, negate}
use a_stock_lens.Domain.{MarketValidation}
use a_stock_lens.Candidates.{CandidateEvidence, CandidateSelection, ok}
use a_stock_lens.Candidates.Policy.{
  RepresentativeCandidatePolicy, select, selected_evidence, selection_of, is_eligible,
  priority_before, best_percentile, qualified_count, by_percentile, by_count, by_validation,
  by_symbol,
}
use a_stock_lens.Candidates.Policy.Selection.{select-eq-ok, selected_evidence-mem}
use a_stock_lens.Candidates.Policy.Ranking.{priority_before-Total, priority_before-Transitive}

module _ ⦃d : Double⦄ where
  -- Negation turns the order of the floats around.
  abbrev pub Reverses : Type 0
  Reverses = (x y : d.F) → (negate x ≼ negate y) ≡ (y ≼ x)

  abbrev pub is_confirmed : CandidateEvidence → Bool
  is_confirmed e = elim e.market_validation [ some MarketValidation.confirmed ↦ true | _ ↦ false ]

  abbrev Ties : CandidateEvidence → CandidateEvidence → Type 0
  Ties x y =
      ((best_percentile x ≼ best_percentile y) ≡ true)
      × ((best_percentile y ≼ best_percentile x) ≡ true)

  -- One item stands before another: its best percentile is larger; or they tie, and it qualifies for
  -- more strategies; or for as many, and it alone is confirmed; or neither or both are, and its
  -- symbol is not the larger one.
  pub data Precedes (x y : CandidateEvidence) : Type 0 where
    higher : (best_percentile y ≺ best_percentile x) ≡ true → Precedes x y
    more : Ties x y → qualified_count y < qualified_count x → Precedes x y
    firmer :
        Ties x y
        → qualified_count x ≡ qualified_count y
        → is_confirmed x ≡ true
        → is_confirmed y ≡ false
        → Precedes x y
    named :
        Ties x y
        → qualified_count x ≡ qualified_count y
        → is_confirmed x ≡ is_confirmed y
        → text_leb x.symbol y.symbol ≡ true
        → Precedes x y

  abbrev pub Ranked : List CandidateEvidence → Type 0
  Ranked [] = Unit
  Ranked (x ∷ xs) = All (Precedes x) xs × Ranked xs

  module _ (ordered : IsOrdered d) (reverses : Reverses) where
    -- The key `-best` of x is not above that of y exactly when the best of y is not above that of x.
    by_percentile_lem :
        (x y : CandidateEvidence) → by_percentile x y ≡ (best_percentile y ≼ best_percentile x)
    by_percentile_lem x y = reverses (best_percentile x) (best_percentile y)

    confirmation :
        (x y : CandidateEvidence)
        → lex by_validation by_symbol x y ≡ true
        → ((is_confirmed x ≡ true) × (is_confirmed y ≡ false))
          ⊎ ((is_confirmed x ≡ is_confirmed y) × (text_leb x.symbol y.symbol ≡ true))
    confirmation x y h = ground arith

    lower_keys :
        (x y : CandidateEvidence)
        → lex by_count (lex by_validation by_symbol) x y ≡ true
        → Ties x y
        → Precedes x y
    lower_keys x y h ties = elim (Bool-cases (leb (qualified_count x) (qualified_count y))) [
      | inr fewer ↦ more ties (ground (arith, fewer))
      | inl same ↦
          let count : qualified_count x ≡ qualified_count y = ground (arith, same, h) in
          elim (confirmation x y (ground (arith, same, h))) [
            | inl (a, b) ↦ firmer ties count a b
            | inr (a, b) ↦ named ties count a b
          ]
    ]

    priority_before-Precedes : (x y : CandidateEvidence) → priority_before x y ≡ true → Precedes x y
    unfolding priority_before
    priority_before-Precedes x y h = elim (Bool-cases (by_percentile y x)) [
      | inr behind ↦ higher (
          rw (
            ordered.lt-eq-not-le (best_percentile y) (best_percentile x),
            sym (by_percentile_lem y x) ∙ behind,
          ))
      | inl before ↦
          lower_keys x y (ground (arith, h, before))
            (sym (by_percentile_lem y x) ∙ before, sym (by_percentile_lem x y) ∙ ground (arith, h))
    ]

    Ranked-sorted : (xs : List CandidateEvidence) → IsSorted priority_before xs → Ranked xs
    Ranked-sorted [] s = tt
    Ranked-sorted (x ∷ xs) s = (
      All-each xs (λ y m. priority_before-Precedes x y (All-mem _ xs s.0 m)),
      Ranked-sorted xs s.1,
    )

    -- What `select` returns are the selections of items of the evidence, in this order: a larger best
    -- percentile first, then more qualified strategies, then a confirmed one, then the symbols. The
    -- floats are ordered, and their negation turns the order around.
    pub select-Ranked :
        (policy : RepresentativeCandidatePolicy) (evidence : List CandidateEvidence)
        (selections : List CandidateSelection)
        → select policy evidence ≡ ok selections
        → (items : List CandidateEvidence) × (selections ≡ map (selection_of policy) items)
          × All (λ e. Memᴰ e evidence) items
          × Ranked items
    unfolding selected_evidence
    select-Ranked policy evidence selections h =
        let eligible = keep is_eligible evidence in
        let items = selected_evidence policy eligible in
        (
          items,
          (select-eq-ok policy evidence h).1,
          All-each items
              (λ e m. (mem-keep is_eligible evidence (selected_evidence-mem policy eligible m)).0),
          Ranked-sorted items (
              sort-IsSorted priority_before (priority_before-Total ordered)
                (priority_before-Transitive ordered) _),
        )
