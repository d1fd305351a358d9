-- ===== src/Candidates/Policy/Selection.antt =====
-- `select` and the vetoes: which items it may return.
use a_stock_lens.Base.{
  ◌≤◌, ◌≡◌, refl, sym, subst, ◌≢◌, inl, inr, Bool, true, not, ◌&&◌, Option, none, some, List, [],
  ◌∷◌, map, keep, Memᴰ, length, is_some, find_first, arith, mem-map, mem-append, mem-keep, mem-take,
  take_all, take-nil, length-keep-add, keep-perm, Option-cases,
}
use mathlib.Core.List.Perm
use mathlib.Core.List.{Perm}
use a_stock_lens.Base.Sorting.{sort, mem-sort, sort-perm, length-sort}
use a_stock_lens.Number.{Double}
use a_stock_lens.Domain.{MarketValidation, Signal}
use a_stock_lens.Candidates.{CandidateEvidence, CandidateSelection, ok, err, incomplete}
use a_stock_lens.Candidates.Policy.{
  RepresentativeCandidatePolicy, select, selected_evidence, selection_of, check_complete,
  is_eligible, priority_before, reserved_items, filled_items, is_reserved,
}

module _ ⦃d : Double⦄ where
  abbrev pub is_incomplete : CandidateEvidence → Bool
  is_incomplete e = not (is_some e.market_validation && is_some e.signal)

  -- An item that may be published: both upstream verdicts are there, and neither is a veto.
  pub record IsPublishable (e : CandidateEvidence) : Type 0 where
    pub validation : MarketValidation
    pub validated : e.market_validation ≡ some validation
    pub not_contradicted : validation ≢ MarketValidation.contradicted
    pub signal : Signal
    pub signalled : e.signal ≡ some signal
    pub not_breakdown : signal ≢ Signal.breakdown

  check_complete-eq-ok :
      (es : List CandidateEvidence) → find_first is_incomplete es ≡ none → check_complete es ≡ ok tt
  unfolding check_complete
  check_complete-eq-ok [] h = refl
  check_complete-eq-ok (e ∷ es) h = ground (arith, check_complete-eq-ok es)

  check_complete-eq-err :
      (es : List CandidateEvidence) (e : CandidateEvidence)
      → find_first is_incomplete es ≡ some e
      → check_complete es ≡ err (incomplete e.symbol e.market_validation e.signal)
  unfolding check_complete
  check_complete-eq-err [] e h = cc
  check_complete-eq-err (x ∷ es) e h = ground (arith, check_complete-eq-err es e)

  complete_of_mem :
      {e : CandidateEvidence} (es : List CandidateEvidence)
      → check_complete es ≡ ok tt
      → Memᴰ e es
      → (is_some e.market_validation ≡ true) × (is_some e.signal ≡ true)
  unfolding check_complete
  complete_of_mem [] h m = elim m [ ]
  complete_of_mem (x ∷ es) h (Memᴰ.head p) =
      subst (λ y. (is_some y.market_validation ≡ true) × (is_some y.signal ≡ true)) (sym p)
        (ground arith)
  complete_of_mem (x ∷ es) h (Memᴰ.tail m) = complete_of_mem es (ground arith) m

  eligible-IsPublishable :
      (e : CandidateEvidence)
      → is_some e.market_validation ≡ true
      → is_some e.signal ≡ true
      → is_eligible e ≡ true
      → IsPublishable e
  eligible-IsPublishable e = go e.market_validation e.signal refl refl
    where
      go :
          (v : Option MarketValidation) (g : Option Signal)
          → e.market_validation ≡ v
          → e.signal ≡ g
          → is_some e.market_validation ≡ true
          → is_some e.signal ≡ true
          → is_eligible e ≡ true
          → IsPublishable e
      go none g p q a b c = absurd (ground arith)
      go (some v) none p q a b c = absurd (ground arith)
      go (some v) (some g) p q a b c = record {
        validation = v;
        validated = p;
        not_contradicted = ground arith;
        signal = g;
        signalled = q;
        not_breakdown = ground arith;
      }

  module _ (policy : RepresentativeCandidatePolicy) where
    open policy use {max_candidates}

    selected_evidence-nil : selected_evidence policy [] ≡ []
    unfolding selected_evidence sort
    selected_evidence-nil = rw take-nil

    publish :
        (es : List CandidateEvidence)
        → (elim es [
          | [] ↦ ok []
          | e ∷ rest ↦ ok (map (selection_of policy) (selected_evidence policy (e ∷ rest)))
        ])
          ≡ ok (map (selection_of policy) (selected_evidence policy es))
    publish [] = rw selected_evidence-nil
    publish (e ∷ es) = refl

    -- `select` raises for the first item whose market validation or signal is missing, and otherwise
    -- publishes the selected items among those that neither veto strikes.
    select_lem :
        (evidence : List CandidateEvidence)
        → select policy evidence ≡ elim (find_first is_incomplete evidence) [
          | some e ↦ err (incomplete e.symbol e.market_validation e.signal)
          | none ↦
              ok (map (selection_of policy) (selected_evidence policy (keep is_eligible evidence)))
        ]
    unfolding select
    select_lem evidence = elim (Option-cases (find_first is_incomplete evidence)) [
      | inl none_missing ↦
          rw (none_missing, check_complete-eq-ok evidence none_missing)
            (publish (keep is_eligible evidence))
      | inr (e, missing) ↦ rw (missing, check_complete-eq-err evidence e missing)
    ]

    pub select-eq-ok :
        (evidence : List CandidateEvidence) {selections : List CandidateSelection}
        → select policy evidence ≡ ok selections
        → (check_complete evidence ≡ ok tt)
          × (selections
              ≡ map (selection_of policy) (selected_evidence policy (keep is_eligible evidence)))
    select-eq-ok evidence {selections} h = elim (Option-cases (find_first is_incomplete evidence)) [
      | inl none_missing ↦ (check_complete-eq-ok evidence none_missing, cc (select_lem evidence))
      | inr (e, missing) ↦ absurd (cc (select_lem evidence))
    ]

    pub selected_evidence-mem :
        {e : CandidateEvidence} (es : List CandidateEvidence)
        → Memᴰ e (selected_evidence policy es)
        → Memᴰ e es
    unfolding selected_evidence
    selected_evidence-mem es m =
        elim (mem-append (reserved_items policy es) (filled_items policy es)
          (mem-sort priority_before _ m)) [
            | inl kept ↦ (mem-keep (is_reserved policy es) es kept).0
            | inr filled ↦
                (mem-keep (λ x. not (is_reserved policy es x)) es
                  (mem-sort priority_before _ (mem-take _ _ filled))).0
          ]

    -- Every selection that `select` returns is that of an item of the evidence that has both
    -- upstream verdicts, of which neither is a veto.
    pub select-IsPublishable :
        (evidence : List CandidateEvidence) (selections : List CandidateSelection)
        (s : CandidateSelection)
        → select policy evidence ≡ ok selections
        → Memᴰ s selections
        → (e : CandidateEvidence) × Memᴰ e evidence × (s ≡ selection_of policy e) × IsPublishable e
    select-IsPublishable evidence selections s h m =
        let (complete, e) = select-eq-ok evidence h in
        let (item, there, made) = mem-map (selection_of policy) _ (subst (Memᴰ s) e m) in
        let (known, good) = mem-keep is_eligible evidence (selected_evidence-mem _ there) in
        let (validated, signalled) = complete_of_mem evidence complete known in
        (item, known, made, eligible-IsPublishable item validated signalled good)

    -- When every publishable item fits, none is left out and none is repeated.
    selected_evidence-perm :
        (eligible : List CandidateEvidence)
        → length eligible ≤ max_candidates
        → Perm (selected_evidence policy eligible) eligible
    unfolding selected_evidence
    selected_evidence-perm es h =
        let rest = keep (λ x. not (is_reserved policy es x)) es in
        let whole : filled_items policy es ≡ sort priority_before rest = take_all _ _ (
          omega (
            arith,
            length-sort priority_before rest,
            length-keep-add (is_reserved policy es) es,
          )) in
        Perm.trans (sort-perm priority_before _) (
          rw whole (
            Perm.trans
              (Perm.append_left (reserved_items policy es) (sort-perm priority_before rest))
              (keep-perm (is_reserved policy es) es)))
