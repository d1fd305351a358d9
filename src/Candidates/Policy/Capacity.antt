-- ===== src/Candidates/Policy/Capacity.antt =====
-- How many items `select` publishes, and whom the soft reserve protects.
use a_stock_lens.Base.{
  ℕ, suc, ◌*◌, ◌-◌, ◌≤◌, max, ◌≡◌, refl, sym, ap, subst, inl, inr, true, false, not, List, [], ◌∷◌,
  ◌++◌, String, keep, Memᴰ, All, length, take, contains, text_eq, text_iff, arith, Bool-cases,
  length-append, length-take, length-map, mem-append_left, mem-append_right, mem-keep_of,
  if◌then◌else◌,
}
use a_stock_lens.Base.Sorting.{sort, length-sort, mem-sort_of}
use a_stock_lens.Number.{Double}
use a_stock_lens.Candidates.{CandidateEvidence}
use a_stock_lens.Candidates.Policy.{
  RepresentativeCandidatePolicy, selected_evidence, priority_before, filled_items, reserved_items,
  is_reserved, strategy_items, leaders, reserve_of, reserve_symbols, strategy_ids, rank_before,
}

-- Texts without one of them.
without : String → List String → List String
without s [] = []
without s (x ∷ xs) = if text_eq x s then without s xs else x ∷ without s xs

length-without-le : (s : String) (xs : List String) → length (without s xs) ≤ length xs
unfolding without
length-without-le s [] = omega arith
length-without-le s (x ∷ xs) = ground (arith, length-without-le s xs)

length-without :
    (s : String) (xs : List String) → contains xs s ≡ true → suc (length (without s xs)) ≤ length xs
unfolding without
length-without s [] h = absurd (ground arith)
length-without s (x ∷ xs) h = ground (arith, length-without s xs, length-without-le s xs)

contains-without :
    (s t : String) (xs : List String)
    → text_eq t s ≡ false
    → contains (without s xs) t ≡ contains xs t
unfolding without
contains-without s t [] h = refl
contains-without s t (x ∷ xs) h =
    ground (arith, text_iff x s, text_iff x t, text_iff t s, contains-without s t xs)

module _ ⦃d : Double⦄ where
  -- No two items share a symbol.
  abbrev pub HasDistinctSymbols : List CandidateEvidence → Type 0
  HasDistinctSymbols [] = Unit
  HasDistinctSymbols (e ∷ es) =
      All (λ x. text_eq x.symbol e.symbol ≡ false) es × HasDistinctSymbols es

  abbrev named : List String → List CandidateEvidence → List CandidateEvidence
  named symbols es = keep (λ e. contains symbols e.symbol) es

  named-without :
      (s : String) (symbols : List String) (es : List CandidateEvidence)
      → All (λ x. text_eq x.symbol s ≡ false) es
      → named (without s symbols) es ≡ named symbols es
  named-without s symbols [] h = refl
  named-without s symbols (e ∷ es) h =
      rw (contains-without s e.symbol symbols h.0, named-without s symbols es h.1)

  -- By the pigeonhole principle.
  length-named :
      (symbols : List String) (es : List CandidateEvidence)
      → HasDistinctSymbols es
      → length (named symbols es) ≤ length symbols
  length-named symbols [] h = omega arith
  length-named symbols (e ∷ es) h = elim (Bool-cases (contains symbols e.symbol)) [
    | inl found ↦ rw found (
        omega (
          arith,
          length-without e.symbol symbols found,
          ap length (named-without e.symbol symbols es h.0),
          length-named (without e.symbol symbols) es h.1,
        ))
    | inr missing ↦ rw missing (length-named symbols es h.1)
  ]

  length-leaders-le :
      (n : ℕ) (id : String) (es : List CandidateEvidence) → length (leaders n id es) ≤ n
  unfolding leaders
  length-leaders-le n id es = omega (
    arith,
    length-map (λ p. p.1) (take n (sort rank_before (strategy_items id es))),
    length-take n (sort rank_before (strategy_items id es)),
  )

  length-reserve_of-le :
      (n : ℕ) (ids : List String) (es : List CandidateEvidence)
      → length (reserve_of n ids es) ≤ n * length ids
  unfolding reserve_of
  length-reserve_of-le n [] es = omega arith
  length-reserve_of-le n (id ∷ ids) es = omega (
    arith,
    length-append (leaders n id es) (reserve_of n ids es),
    length-leaders-le n id es,
    length-reserve_of-le n ids es,
  )

  contains_of_mem : (s : String) (xs : List String) → Memᴰ s xs → contains xs s ≡ true
  contains_of_mem s [] m = elim m [ ]
  contains_of_mem s (x ∷ xs) (Memᴰ.head e) = rw ((text_iff x s).1 (sym e))
  contains_of_mem s (x ∷ xs) (Memᴰ.tail m) = ground (arith, contains_of_mem s xs m)

  mem-reserve_of :
      (n : ℕ) (id : String) (ids : List String) (es : List CandidateEvidence) (s : String)
      → Memᴰ id ids
      → Memᴰ s (leaders n id es)
      → Memᴰ s (reserve_of n ids es)
  unfolding reserve_of
  mem-reserve_of n id [] es s m k = elim m [ ]
  mem-reserve_of n id (i ∷ ids) es s (Memᴰ.head e) k =
      mem-append_left (leaders n i es) _ (subst (λ x. Memᴰ s (leaders n x es)) e k)
  mem-reserve_of n id (i ∷ ids) es s (Memᴰ.tail m) k =
      mem-append_right (leaders n i es) _ (mem-reserve_of n id ids es s m k)

  module _ (policy : RepresentativeCandidatePolicy) where
    open policy use {max_candidates, soft_reserve_per_strategy}

    length-selected_evidence :
        (es : List CandidateEvidence)
        → length (selected_evidence policy es)
          ≤ max max_candidates (length (reserved_items policy es))
    unfolding selected_evidence
    length-selected_evidence es = omega (
      arith,
      length-sort priority_before (reserved_items policy es ++ filled_items policy es),
      length-append (reserved_items policy es) (filled_items policy es),
      length-take (max_candidates - length (reserved_items policy es))
          (sort priority_before (keep (λ e. not (is_reserved policy es e)) es)),
    )

    -- The capacity is a hard cap where the reserve of the strategies fits into it and no symbol
    -- occurs twice: no more than `max_candidates` items are selected.
    pub selected_evidence-le_cap :
        (eligible : List CandidateEvidence)
        → HasDistinctSymbols eligible
        → soft_reserve_per_strategy * length (strategy_ids eligible) ≤ max_candidates
        → length (selected_evidence policy eligible) ≤ max_candidates
    unfolding reserve_symbols
    selected_evidence-le_cap es distinct fits = omega (
      arith,
      length-selected_evidence es,
      length-named (reserve_symbols policy es) es distinct,
      length-reserve_of-le soft_reserve_per_strategy (strategy_ids es) es,
    )

    -- The soft reserve holds: whoever is among the first `soft_reserve_per_strategy` of a strategy
    -- is selected, however low in the global order.
    pub leaders-selected :
        (eligible : List CandidateEvidence) (id : String) (e : CandidateEvidence)
        → Memᴰ id (strategy_ids eligible)
        → Memᴰ e eligible
        → Memᴰ e.symbol (leaders soft_reserve_per_strategy id eligible)
        → Memᴰ e (selected_evidence policy eligible)
    unfolding selected_evidence reserve_symbols
    leaders-selected es id e known there leads = mem-sort_of priority_before _ (
        mem-append_left (reserved_items policy es) _ (
          mem-keep_of (is_reserved policy es) es there (
            contains_of_mem e.symbol (reserve_symbols policy es) (
              mem-reserve_of soft_reserve_per_strategy id (strategy_ids es) es e.symbol known
                leads))))
