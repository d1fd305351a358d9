-- ===== src/Strategies/Scoring/Runs.antt =====
-- A run of equal values in the sorted list of `percentile_ranks`: what stands before it, in it and
-- after it, and so how many values are below and not above it.
use a_stock_lens.Base.{
  ℕ, ◌+◌, ◌≡◌, refl, ap, inl, inr, Bool, true, false, List, [], ◌∷◌, ◌++◌, String, length,
  length-append, drop, keep, All, All-each, All-mem, All-append, mem-drop, arith, Bool-cases,
}
use a_stock_lens.Base.Sorting.{IsSorted}
use a_stock_lens.Number.{Double, Float, ◌≺◌, ◌≼◌, ◌≐◌, ◌⊘◌, of_nat, IsOrdered}
use a_stock_lens.Strategies.Scoring.{equal_run, value_before}
use a_stock_lens.Strategies.Scoring.Counting.{
  length-keep-append, keep-All, keep-none, keep-ext, IsSorted-drop,
}

module _ ⦃d : Double⦄ where
  abbrev pub count_below : Float → List (String × Float) → ℕ
  count_below v values = length (keep (λ p. p.1 ≺ v) values)

  abbrev pub count_at_most : Float → List (String × Float) → ℕ
  count_at_most v values = length (keep (λ p. p.1 ≼ v) values)

  -- Of the values that equal `v` the first stands behind those below it, and the last is the last of
  -- those not above it; positions count from 1.
  abbrev pub average_rank : List (String × Float) → Float → Float
  average_rank values v =
      (of_nat ((count_below v values + 1) + count_at_most v values) ⊘ of_nat 2)
      ⊘ of_nat (length values)

  pub equal_run-drop :
      (v : Float) (rest : List (String × Float))
      → equal_run v rest ++ drop (length (equal_run v rest)) rest ≡ rest
  unfolding equal_run
  equal_run-drop v [] = refl
  equal_run-drop v ((k, x) ∷ rest) = elim (Bool-cases (x ≐ v)) [
    | inl same ↦ rw same (ap (◌∷◌ (k, x)) (equal_run-drop v rest))
    | inr other ↦ rw other
  ]

  pub equal_run-All :
      (v : Float) (rest : List (String × Float)) → All (λ p. (p.1 ≐ v) ≡ true) (equal_run v rest)
  unfolding equal_run
  equal_run-All v [] = tt
  equal_run-All v ((k, x) ∷ rest) = elim (Bool-cases (x ≐ v)) [
    | inl same ↦ rw same (same, equal_run-All v rest)
    | inr other ↦ rw other tt
  ]

  module _ (o : IsOrdered d) where
    -- What follows the run in a sorted list is above it.
    pub after-above :
        (k : String) (v : Float) (rest : List (String × Float))
        → IsSorted value_before ((k, v) ∷ rest)
        → All (λ q. (q.1 ≼ v) ≡ false) (drop (length (equal_run v rest)) rest)
    unfolding equal_run
    after-above k v [] s = tt
    after-above k v ((j, x) ∷ rest) s = elim (Bool-cases (x ≐ v)) [
      | inl same ↦ rw same (after-above k v rest (s.0.1, s.1.1))
      | inr other ↦
          rw other (above other, All-each rest (λ q m. farther other q (All-mem _ rest s.1.0 m)))
    ]
      where
        above : (x ≐ v) ≡ false → (x ≼ v) ≡ false
        above other = ground (arith, other, o.eq_iff_le x v, s.0.0)

        farther : (x ≐ v) ≡ false → (q : String × Float) → (x ≼ q.1) ≡ true → (q.1 ≼ v) ≡ false
        farther other q h = ground (arith, above other, o.le_trans x q.1 v h)

    -- A sorted list in the middle of the loop: what came before is below what is left.
    pub record IsSplit (before rest : List (String × Float)) : Type 0 where
      pub below : All (λ p. All (λ q. (q.1 ≼ p.1) ≡ false) rest) before
      pub sorted : IsSorted value_before rest

    module _ (before : List (String × Float)) (k : String) (v : Float)
        (rest : List (String × Float)) (split : IsSplit before ((k, v) ∷ rest)) where
      abbrev pub more : List (String × Float)
      more = equal_run v rest

      abbrev pub after : List (String × Float)
      after = drop (length more) rest

      pub not_below : (q : String × Float) → (v ≼ q.1) ≡ true → (q.1 ≺ v) ≡ false
      not_below q h = ground (arith, h, o.lt-eq-not-le q.1 v)

      pub strictly_below : All (λ p. (p.1 ≺ v) ≡ true) before
      strictly_below = All-each before (λ p m. lower p (All-mem _ before split.below m).0)
        where
          lower : (p : String × Float) → (v ≼ p.1) ≡ false → (p.1 ≺ v) ≡ true
          lower p h = ground (arith, h, o.lt-eq-not-le p.1 v)

      pub weakly_below : All (λ p. (p.1 ≼ v) ≡ true) before
      weakly_below = All-each before (λ p m. lower p (All-mem _ before split.below m).0)
        where
          lower : (p : String × Float) → (v ≼ p.1) ≡ false → (p.1 ≼ v) ≡ true
          lower p h = elim (o.le_total p.1 v) [ inl e ↦ e | inr e ↦ cc (e, h) ]

      pub count_below-run : count_below v (before ++ (k, v) ∷ rest) ≡ length before
      count_below-run =
          let a = length-keep-append (λ p. p.1 ≺ v) before ((k, v) ∷ rest) in
          let b = keep-All (λ p. p.1 ≺ v) before strictly_below in
          let c =
            keep-none (λ p. p.1 ≺ v) ((k, v) ∷ rest)
              (
                not_below (k, v) (o.le_refl v),
                All-each rest (λ q m. not_below q (All-mem _ rest split.sorted.0 m)),
              ) in
          omega (arith, a, b, c)

      pub length-split :
          length (before ++ (k, v) ∷ rest) ≡ length before + 1 + length more + length after
      length-split = omega (
        arith,
        length-append before ((k, v) ∷ rest),
        length-append more after,
        ap length (equal_run-drop v rest),
      )

      pub more-le : All (λ p. (p.1 ≼ v) ≡ true) more
      more-le = All-each more (λ p m. lower p (All-mem _ more (equal_run-All v rest) m))
        where
          lower : (p : String × Float) → (p.1 ≐ v) ≡ true → (p.1 ≼ v) ≡ true
          lower p h = ground (arith, h, o.eq_iff_le p.1 v)

      pub count_at_most-run :
          count_at_most v (before ++ (k, v) ∷ rest) ≡ length before + 1 + length more
      count_at_most-run =
          let p : String × Float → Bool = λ q. q.1 ≼ v in
          let a = length-keep-append p before ((k, v) ∷ rest) in
          let b = keep-All p before weakly_below in
          let c = length-keep-append p more after in
          let e = keep-All p more more-le in
          let f = keep-none p after (after-above k v rest split.sorted) in
          let g = ap (λ l. length (keep p l)) (equal_run-drop v rest) in
          let h : length (keep p ((k, v) ∷ rest)) ≡ 1 + length (keep p rest) =
            rw (o.le_refl v) (omega arith) in
          omega (arith, a, b, c, e, f, g, h)

      pub next-IsSplit : IsSplit (before ++ (k, v) ∷ more) after
      next-IsSplit = record {
        below =
            All-append _ before ((k, v) ∷ more)
              (All-each before (λ p m. All-each after (λ q m'.
                All-mem _ rest (All-mem _ before split.below m).1
                  (mem-drop (length more) rest m'))))
              (over (k, v) (o.le_refl v), All-each more (λ p m. over p (All-mem _ more more-le m)));
        sorted = IsSorted-drop value_before (length more) rest split.sorted.1;
      }
        where
          over : (p : String × Float) → (p.1 ≼ v) ≡ true → All (λ q. (q.1 ≼ p.1) ≡ false) after
          over p h =
              All-each after
                (λ q m. not_le q (All-mem _ after (after-above k v rest split.sorted) m))
            where
              not_le : (q : String × Float) → (q.1 ≼ v) ≡ false → (q.1 ≼ p.1) ≡ false
              not_le q e = ground (arith, e, h, o.le_trans q.1 p.1 v)

    -- Equal values have the same numbers below and not above them.
    pub average_rank-eq :
        (values : List (String × Float)) (v w : Float)
        → (v ≐ w) ≡ true
        → average_rank values v ≡ average_rank values w
    average_rank-eq values v w h = rw (
      keep-ext (λ p. p.1 ≺ v) (λ p. p.1 ≺ w) values
          (λ p. ground (
            arith,
            h,
            o.eq_iff_le v w,
            o.lt-eq-not-le p.1 v,
            o.lt-eq-not-le p.1 w,
            o.le_trans w v p.1,
            o.le_trans v w p.1,
          )),
      keep-ext (λ p. p.1 ≼ v) (λ p. p.1 ≼ w) values
          (λ p. ground (arith, h, o.eq_iff_le v w, o.le_trans p.1 v w, o.le_trans p.1 w v)),
    )
