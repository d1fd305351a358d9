-- ===== src/Strategies/Scoring/Ranks.antt =====
-- `percentile_ranks` against its description: the share of the average of the positions that a value
-- takes, which the numbers of smaller values and of values not larger give.
use mathlib.Core.Option
use mathlib.Core.List.{Nodup, append_assoc}
use a_stock_lens.Base.{
  ℕ, zero, suc, ◌+◌, ◌≤◌, ◌≡◌, refl, sym, ap, subst, ◌∙◌, inl, inr, true, none, some, List, [], ◌∷◌,
  ◌++◌, map, String, length, length-append, drop, All-mem, mem-append, mem-append_left,
  mem-append_right, arith, text_eq, text_iff, Memᴰ, Bool-cases, Option-cases,
}
use a_stock_lens.Base.Dict.{get, put_all, keys}
use a_stock_lens.Base.Distinct.{Nodup-right, keys-append}
use a_stock_lens.Base.Keyed.{get-mem, mem-keys, sort-Nodup, get-sort}
use a_stock_lens.Base.Sorting.{sort, sort-IsSorted, length-sort}
use a_stock_lens.Number.{Double, Float, ◌≺◌, ◌≼◌, ◌≐◌, ◌⊘◌, of_nat, IsOrdered}
use a_stock_lens.Strategies.Scoring.{equal_run, rank_of, ranks_from, value_before, percentile_ranks}
use a_stock_lens.Strategies.Scoring.Counting.{
  length-keep-sort, get-put_all_same, get-put_all_out, keys-const, const-All, apart,
}
use a_stock_lens.Strategies.Scoring.Runs.{
  count_below, count_at_most, average_rank, equal_run-drop, equal_run-All, IsSplit, next-IsSplit,
  count_below-run, count_at_most-run, average_rank-eq,
}

module _ ⦃d : Double⦄ where
  keys-run :
      (v : Float) (rest : List (String × Float))
      → keys (equal_run v rest) ++ keys (drop (length (equal_run v rest)) rest) ≡ keys rest
  keys-run v rest = sym (keys-append (equal_run v rest) _) ∙ ap keys (equal_run-drop v rest)

  -- A round gives its rank to the keys of the run, ...
  get-run :
      (k j : String) (v r : Float) (rest ranks : List (String × Float))
      → Memᴰ k (j ∷ keys (equal_run v rest))
      → get k (put_all (map (λ p. (p.0, r)) ((j, v) ∷ equal_run v rest)) ranks) ≡ some r
  get-run k j v r rest ranks m =
      get-put_all_same k r _ ranks (const-All r ((j, v) ∷ equal_run v rest))
        (inr (rw (keys-const r (equal_run v rest)) m))

  -- ... and touches no other.
  get-run_other :
      (k j : String) (v r : Float) (rest ranks : List (String × Float))
      → ¬ Memᴰ k (j ∷ keys rest)
      → get k (put_all (map (λ p. (p.0, r)) ((j, v) ∷ equal_run v rest)) ranks) ≡ get k ranks
  get-run_other k j v r rest ranks out =
      get-put_all_out k _ ranks (rw (keys-const r (equal_run v rest)) (λ m. out (within m)))
    where
      within : Memᴰ k (j ∷ keys (equal_run v rest)) → Memᴰ k (j ∷ keys rest)
      within (Memᴰ.head e) = Memᴰ.head e
      within (Memᴰ.tail m) = Memᴰ.tail (rw (← keys-run v rest) (mem-append_left _ _ m))

  keys-after :
      {k : String} (v : Float) (rest : List (String × Float))
      → Memᴰ k (keys (drop (length (equal_run v rest)) rest))
      → Memᴰ k (keys rest)
  keys-after v rest m = rw (← keys-run v rest) (mem-append_right (keys (equal_run v rest)) _ m)

  -- The keys that are not left are not touched.
  get-ranks_from_other :
      (fuel count start : ℕ) (k : String) (rest ranks : List (String × Float))
      → ¬ Memᴰ k (keys rest)
      → get k (ranks_from fuel count start rest ranks) ≡ get k ranks
  unfolding ranks_from
  get-ranks_from_other zero count start k rest ranks out = refl
  get-ranks_from_other (suc fuel) count start k [] ranks out = refl
  get-ranks_from_other (suc fuel) count start k ((j, v) ∷ rest) ranks out =
      get-ranks_from_other fuel count _ k (drop (length (equal_run v rest)) rest) _
        (λ m. out (Memᴰ.tail (keys-after v rest m)))
      ∙ get-run_other k j v _ rest ranks out

  module _ (o : IsOrdered d) (total : List (String × Float)) where
    module _ (before : List (String × Float)) (j : String) (v : Float)
        (rest : List (String × Float)) (e : before ++ (j, v) ∷ rest ≡ total)
        (split : IsSplit o before ((j, v) ∷ rest)) where
      -- The rank of a round is the rank of each value of its run.
      rank_of-run :
          (x : Float)
          → (x ≐ v) ≡ true
          → rank_of (length total) (length before) (length before + length (equal_run v rest))
            ≡ average_rank total x
      rank_of-run x same =
          let b : count_below v total ≡ length before =
            rw (← e) (count_below-run o before j v rest split) in
          let a : count_at_most v total ≡ length before + 1 + length (equal_run v rest) =
            rw (← e) (count_at_most-run o before j v rest split) in
          let n : (length before + 1) + (length before + length (equal_run v rest) + 1)
              ≡ (count_below v total + 1) + count_at_most v total =
            omega (arith, a, b) in
          ap (λ m. (of_nat m ⊘ of_nat 2) ⊘ of_nat (length total)) n
          ∙ sym (average_rank-eq o total x v same)

      run_value :
          {k : String} {x : Float} → Memᴰ (k, x) ((j, v) ∷ equal_run v rest) → (x ≐ v) ≡ true
      run_value (Memᴰ.tail m) = All-mem _ (equal_run v rest) (equal_run-All v rest) m
      run_value (Memᴰ.head e') =
          ground (arith, ap (λ (p : String × Float). p.1) e', o.eq_iff_le v v, o.le_refl v)

      moved : (before ++ (j, v) ∷ equal_run v rest) ++ drop (length (equal_run v rest)) rest ≡ total
      moved =
          append_assoc before ((j, v) ∷ equal_run v rest) _
          ∙ ap (λ l. before ++ (j, v) ∷ l) (equal_run-drop v rest)
          ∙ e

    get-ranks_from :
        (fuel : ℕ) (before rest ranks : List (String × Float)) (k : String) (x : Float)
        → length rest ≤ fuel
        → before ++ rest ≡ total
        → IsSplit o before rest
        → Nodup (keys rest)
        → Memᴰ (k, x) rest
        → get k (ranks_from fuel (length total) (length before) rest ranks)
          ≡ some (average_rank total x)
    unfolding ranks_from
    get-ranks_from zero before [] ranks k x h e split n m = elim m [ ]
    get-ranks_from zero before (p ∷ rest) ranks k x h e split n m = absurd (omega arith)
    get-ranks_from (suc fuel) before [] ranks k x h e split n m = elim m [ ]
    get-ranks_from (suc fuel) before ((j, v) ∷ rest) ranks k x h e split n m =
        let run = equal_run v rest in
        let left = drop (length run) rest in
        let rank = rank_of (length total) (length before) (length before + length run) in
        let done : List (String × Float) = put_all (map (λ p. (p.0, rank)) ((j, v) ∷ run)) ranks in
        let split_keys : Nodup ((j ∷ keys run) ++ keys left) = rw (keys-run v rest) n in
        elim (mem-append ((j, v) ∷ run) left (rw (equal_run-drop v rest) m)) [
          | inl here ↦
              get-ranks_from_other fuel _ _ k left _ (λ m'.
                apart (j ∷ keys run) (keys left) split_keys (mem-keys ((j, v) ∷ run) here) m')
              ∙ get-run k j v _ rest ranks (mem-keys ((j, v) ∷ run) here)
              ∙ ap some (
                  rank_of-run before j v rest e split x
                    (run_value before j v rest e split {k = k} {x = x} here))
          | inr later ↦
              subst
                (λ start.
                  get k (ranks_from fuel (length total) start left done)
                  ≡ some (average_rank total x))
                (omega (arith, length-append before ((j, v) ∷ run)))
                (get-ranks_from fuel (before ++ (j, v) ∷ run) left done k x
                  (omega (arith, h, length-append run left, ap length (equal_run-drop v rest)))
                  (moved before j v rest e split) (next-IsSplit o before j v rest split)
                  (Nodup-right (j ∷ keys run) (keys left) split_keys) later)
        ]

  absent : (k : String) (ps : List (String × Float)) → get k ps ≡ none → ¬ Memᴰ k (keys ps)
  unfolding get
  absent k [] h m = elim m [ ]
  absent k ((j, v) ∷ ps) h (Memᴰ.head e) = ground (arith, h, text_iff j k, e)
  absent k ((j, v) ∷ ps) h (Memᴰ.tail m) = elim (Bool-cases (text_eq j k)) [
    | inl same ↦ cc (rw same at h)
    | inr other ↦ absent k ps (rw other at h) m
  ]

  average_rank-sort :
      (values : List (String × Float)) (v : Float)
      → average_rank (sort value_before values) v ≡ average_rank values v
  average_rank-sort values v = rw (
    length-keep-sort value_before (λ p. p.1 ≺ v) values,
    length-keep-sort value_before (λ p. p.1 ≼ v) values,
    length-sort value_before values,
  )

  sorted-IsSplit :
      (o : IsOrdered d) (values : List (String × Float)) → IsSplit o [] (sort value_before values)
  sorted-IsSplit o values = record {
    below = tt;
    sorted =
        sort-IsSorted value_before (λ p q. o.le_total p.1 q.1) (λ p q r. o.le_trans p.1 q.1 r.1)
          values;
  }

  ranks-average :
      (o : IsOrdered d) (values : List (String × Float)) (k : String)
      → Nodup (keys values)
      → get k (ranks_from (length values) (length values) 0 (sort value_before values) [])
        ≡ Option.map (average_rank values) (get k values)
  unfolding get
  ranks-average o values k n = elim (Option-cases (get k values)) [
    | inl none_there ↦ rw none_there (
        get-ranks_from_other (length values) _ 0 k sorted []
          (absent k sorted (get-sort value_before k values n ∙ none_there)))
    | inr (v, there) ↦ rw there (
        subst (λ m. get k (ranks_from (length values) m 0 sorted []) ≡ some (average_rank values v))
          (length-sort value_before values)
          (get-ranks_from o sorted (length values) [] sorted [] k v
              (rw (length-sort value_before values) (omega arith)) refl (sorted-IsSplit o values)
              (sort-Nodup value_before values n)
              (get-mem k sorted (get-sort value_before k values n ∙ there))
            ∙ ap some (average_rank-sort values v)))
  ]
    where
      sorted : List (String × Float)
      sorted = sort value_before values

  -- On a dictionary the ranks are those of the description: for a value with `b` smaller ones and
  -- `a` ones that are not larger, of `n`, the average of the positions `b + 1` to `a`, over `n`;
  -- and a key that is not there has none.
  pub percentile_ranks-average :
      (o : IsOrdered d) (values : List (String × Float)) (k : String)
      → Nodup (keys values)
      → get k (percentile_ranks values) ≡ Option.map (average_rank values) (get k values)
  unfolding percentile_ranks ranks_from
  percentile_ranks-average o [] k n = ranks-average o [] k n
  percentile_ranks-average o (p ∷ ps) k n = ranks-average o (p ∷ ps) k n
