-- ===== src/Factors/Windows.antt =====
-- On which bars a factor and the evidence of the benchmark depend: no bar after the day, and of the
-- benchmark the last 60.
use a_stock_lens.Base.{
  ℕ, zero, suc, ◌+◌, ◌-◌, ◌≤◌, ◌≡◌, refl, ap, ◌∙◌, inl, inr, Bool, true, ◌&&◌, some, List, [], ◌∷◌,
  String, length, drop, keep, keep_twice, mem-drop, mem-keep, Memᴰ, leb, ltb, text_eq, arith,
  Bool-cases, Option-cases,
}
use a_stock_lens.Base.Raise.{ok, >>=-eq-ok, raise_if}
use a_stock_lens.Base.Sorting.{sort, insert_sorted, IsSorted, sort-IsSorted, mem-sort}
use a_stock_lens.Number.{Double, Float, ◌≼◌, ◌⊖◌, ◌⊘◌, zero_float}
use a_stock_lens.Domain.{Moment, date}
use a_stock_lens.Domain.Records.{DailyBar}
use a_stock_lens.Factors.{
  FactorContext, FactorMetadata, last_of, head_of, final_of, close_of, dated_before, trailing,
  compute_average_amount, compute_trailing_return, compute_proximity_to_high,
}
use a_stock_lens.Factors.Evidence.{
  BenchmarkEvidence, is_positive, moving_average, benchmark_bars, evidence_of, evidence_from,
  compute_benchmark_evidence,
}

module _ {ℓ} {A : Type ℓ} where
  keep_all : (p : A → Bool) (xs : List A) → ((x : A) → Memᴰ x xs → p x ≡ true) → keep p xs ≡ xs
  keep_all p [] h = refl
  keep_all p (x ∷ xs) h = rw (h x (Memᴰ.head refl), keep_all p xs (λ y m. h y (Memᴰ.tail m)))

  sort_sorted : (le : A → A → Bool) (xs : List A) → IsSorted le xs → sort le xs ≡ xs
  unfolding sort insert_sorted
  sort_sorted le [] s = refl
  sort_sorted le (x ∷ []) s = refl
  sort_sorted le (x ∷ y ∷ xs) s = rw (sort_sorted le (y ∷ xs) s.1, s.0.0)

  IsSorted-drop :
      (le : A → A → Bool) (n : ℕ) (xs : List A) → IsSorted le xs → IsSorted le (drop n xs)
  IsSorted-drop le zero xs s = s
  IsSorted-drop le (suc n) [] s = s
  IsSorted-drop le (suc n) (x ∷ xs) s = IsSorted-drop le n xs s.1

  length-drop : (n : ℕ) (xs : List A) → length (drop n xs) ≡ length xs - n
  length-drop zero xs = omega arith
  length-drop (suc n) [] = omega arith
  length-drop (suc n) (x ∷ xs) = omega (arith, length-drop n xs)

  drop-drop : (m n k : ℕ) (xs : List A) → n + m ≡ k → drop m (drop n xs) ≡ drop k xs
  drop-drop m zero k xs e = ap (λ i. drop i xs) (omega (arith, e))
  drop-drop m (suc n) zero xs e = absurd (omega (arith, e))
  drop-drop zero (suc n) (suc k) [] e = refl
  drop-drop (suc m) (suc n) (suc k) [] e = refl
  drop-drop m (suc n) (suc k) (x ∷ xs) e = drop-drop m n k xs (omega (arith, e))

  -- Of the last n the last m are the last m of all.
  last_of-last_of :
      (m n : ℕ) (xs : List A) → m ≤ n → n ≤ length xs → last_of m (last_of n xs) ≡ last_of m xs
  last_of-last_of m n xs h k = drop-drop _ _ _ xs (omega (arith, length-drop (length xs - n) xs))

  length-last_of : (n : ℕ) (xs : List A) → n ≤ length xs → length (last_of n xs) ≡ n
  length-last_of n xs h = omega (arith, length-drop (length xs - n) xs)

module _ ⦃d : Double⦄ where
  -- The bars of the stock up to the day.
  abbrev pub own_bars : FactorContext → List DailyBar
  own_bars c = keep (λ b. text_eq b.symbol c.symbol && leb b.trade_date (date c.as_of)) c.daily_bars

  abbrev pub without_others : FactorContext → FactorContext
  without_others c = record c { daily_bars = own_bars c }

  trailing-own : (c : FactorContext) (n : ℕ) → trailing (without_others c) n ≡ trailing c n
  unfolding trailing
  trailing-own c n =
      rw (
        keep_twice (λ b. text_eq b.symbol c.symbol && leb b.trade_date (date c.as_of)) c.daily_bars)

  -- No factor of prices or turnover looks ahead, or at another stock: without the bars of later days
  -- and of other stocks its result is the same.
  pub compute-own_bars :
      (m : FactorMetadata) (c : FactorContext)
      → (compute_average_amount m (without_others c) ≡ compute_average_amount m c)
        × (compute_trailing_return m (without_others c) ≡ compute_trailing_return m c)
        × (compute_proximity_to_high m (without_others c) ≡ compute_proximity_to_high m c)
  unfolding compute_average_amount compute_trailing_return compute_proximity_to_high
  compute-own_bars m c = (
    rw (trailing-own c m.window, compute_average_amount),
    rw (trailing-own c (m.window + 1), compute_trailing_return),
    rw (trailing-own c m.window, compute_proximity_to_high),
  )

  benchmark_bars-IsSorted :
      (day : ℕ) (bars : List DailyBar) → IsSorted dated_before (benchmark_bars day bars)
  unfolding benchmark_bars
  benchmark_bars-IsSorted day bars =
      sort-IsSorted dated_before (λ b c. ground arith) (λ a b c h k. ground arith) _

  benchmark_bars-pass :
      {b : DailyBar} (day : ℕ) (bars : List DailyBar)
      → Memᴰ b (benchmark_bars day bars)
      → (leb b.trade_date day && is_positive b.close) ≡ true
  unfolding benchmark_bars
  benchmark_bars-pass day bars m = (mem-keep _ bars (mem-sort dated_before _ m)).1

  benchmark_bars-again :
      (day : ℕ) (xs : List DailyBar)
      → ((b : DailyBar) → Memᴰ b xs → (leb b.trade_date day && is_positive b.close) ≡ true)
      → IsSorted dated_before xs
      → benchmark_bars day xs ≡ xs
  unfolding benchmark_bars
  benchmark_bars-again day xs pass s = rw (keep_all _ xs pass) (sort_sorted dated_before xs s)

  -- A part of the bars at the end is sorted, and passes the test, already.
  benchmark_bars-last :
      (day n : ℕ) (bars : List DailyBar)
      → benchmark_bars day (last_of n (benchmark_bars day bars))
        ≡ last_of n (benchmark_bars day bars)
  benchmark_bars-last day n bars =
      let valid = benchmark_bars day bars in
      let k = length valid - n in
      benchmark_bars-again day (drop k valid)
        (λ b m. benchmark_bars-pass day bars (mem-drop k valid m))
        (IsSorted-drop dated_before k valid (benchmark_bars-IsSorted day bars))

  evidence_from-last :
      (benchmark_id : String) (as_of : Moment) (source : String) (valid : List DailyBar)
      → 60 ≤ length valid
      → evidence_from benchmark_id as_of source (last_of 60 valid)
        ≡ evidence_from benchmark_id as_of source valid
  unfolding evidence_from
  evidence_from-last benchmark_id as_of source valid enough = rw (
    last_of-last_of 60 60 valid (omega arith) enough,
    last_of-last_of 20 60 valid (omega arith) enough,
  )

  -- The return from the first close of some bars to their last one.
  abbrev pub HasReturn : List DailyBar → Float → Type 0
  HasReturn bars r =
      (ago : Float) × (latest : Float) × (close_of (head_of bars) ≡ some ago)
      × (close_of (final_of bars) ≡ some latest)
      × (r ≡ (latest ⊖ ago) ⊘ ago)

  evidence_from-return :
      (benchmark_id : String) (as_of : Moment) (source : String) (bars : List DailyBar)
      (e : BenchmarkEvidence)
      → evidence_from benchmark_id as_of source bars ≡ ok e
      → HasReturn (last_of 60 bars) e.ret_60d
  unfolding evidence_from evidence_of
  evidence_from-return benchmark_id as_of source bars e h =
      elim (Option-cases (close_of (final_of (last_of 60 bars)))) [
        | inl gone ↦ absurd (cc (rw gone at h))
        | inr (latest, last) ↦ elim (Option-cases (close_of (head_of (last_of 60 bars)))) [
          | inl gone ↦ absurd (cc (rw (last, gone) at h))
          | inr (ago, first) ↦ (ago, latest, first, last, made latest ago (rw (last, first) at h))
        ]
      ]
    where
      made :
          (latest ago : Float)
          → evidence_of benchmark_id as_of source
              (some latest)
              (some ago)
              (moving_average 20 bars)
              (moving_average 60 bars)
            ≡ ok e
          → e.ret_60d ≡ (latest ⊖ ago) ⊘ ago
      made latest ago h =
          let (_, _, h) = >>=-eq-ok (raise_if (ago ≼ zero_float) _) _ h in
          let (_, _, h) = >>=-eq-ok (raise_if (moving_average 60 bars ≼ zero_float) _) _ h in cc

  full_of : {n : ℕ} (text : String) (u : Unit {0}) → raise_if (ltb n 60) text ≡ ok u → 60 ≤ n
  full_of {n} text u h = elim (Bool-cases (ltb n 60)) [
    | inl few ↦ absurd (cc (rw few at h))
    | inr full ↦ ground (arith, full)
  ]

  -- Where there is evidence of the benchmark, there are 60 bars with a positive close up to the day;
  -- the last 60 of them alone give the same evidence, and its return is the one from the first close
  -- of these 60 to the last: over 59 days.
  pub compute_benchmark_evidence-window :
      (benchmark_id : String) (bars : List DailyBar) (as_of : Moment) (source : String)
      (e : BenchmarkEvidence)
      → compute_benchmark_evidence benchmark_id bars as_of source ≡ ok e
      → (length (last_of 60 (benchmark_bars (date as_of) bars)) ≡ 60)
        × (compute_benchmark_evidence benchmark_id
              (last_of 60 (benchmark_bars (date as_of) bars))
              as_of
              source
            ≡ ok e)
        × HasReturn (last_of 60 (benchmark_bars (date as_of) bars)) e.ret_60d
  unfolding compute_benchmark_evidence
  compute_benchmark_evidence-window benchmark_id bars as_of source e h =
      let valid = benchmark_bars (date as_of) bars in
      let (u, passed, found) = >>=-eq-ok (raise_if (ltb (length valid) 60) _) _ h in
      let enough = full_of _ u passed in
      (
        length-last_of 60 valid enough,
        rw (benchmark_bars-last (date as_of) 60 bars, length-last_of 60 valid enough)
            (evidence_from-last benchmark_id as_of source valid enough ∙ found),
        evidence_from-return benchmark_id as_of source valid e found,
      )
