-- ===== src/Market/Validation/Verdict.antt =====
-- When `validate` returns, and what its verdict means.
use a_stock_lens.Base.{
  ℕ, ◌≤◌, ◌≡◌, refl, sym, ap, ◌↔◌, ◌⊎◌, inl, inr, Bool, true, false, not, ◌&&◌, Option, none, some,
  List, [], ◌∷◌, ◌++◌, String, text_eq, leb, subst, arith, Option-cases, Bool-cases, is_some,
  if◌then◌else◌,
}
use a_stock_lens.Number.{Double, Float, ◌≺◌}
use a_stock_lens.Domain.{MarketValidation, confirmed, contradicted}
use a_stock_lens.Market.{ok, factor_value}
use a_stock_lens.Market.Validation.{
  MarketValidationContext, MarketValidationResult, Evidence, liquidity_floor, liquidity,
  is_momentum, stock_trend, matrix, absent, prox_of, judge, missing, evidence_of, judged, validate,
}

module _ ⦃d : Double⦄ where
  -- The evidence is what the context has; momentum has a proximity too.
  pub record IsEvidence (c : MarketValidationContext) (e : Evidence) : Type 0 where
    pub ret_20d : factor_value "ret_20d" c.factors ≡ some e.ret_20d
    pub avg_amount : factor_value "avg_amount_20d" c.factors ≡ some e.avg_amount
    pub industry_excess : c.industry_excess_return ≡ some e.industry_excess
    pub rel_str : c.relative_strength_60d ≡ some e.rel_str
    pub vol_ratio : c.vol_ratio ≡ some e.vol_ratio
    pub prox : factor_value "proximity_52w_high" c.factors ≡ e.prox
    pub proximity : (is_momentum c.strategy_id && not (is_some e.prox)) ≡ false

  IsEvidence-missing :
      (c : MarketValidationContext) (e : Evidence)
      → IsEvidence c e
      → (missing c ≡ []) × (evidence_of c ≡ some e)
  unfolding missing evidence_of
  IsEvidence-missing c e h = (
    missing_nil,
    rw (h.ret_20d, h.avg_amount, h.industry_excess, h.rel_str, h.vol_ratio, h.prox, evidence_of),
  )
    where
      missing_nil : missing c ≡ []
      missing_nil = elim (Bool-cases (is_momentum c.strategy_id)) [
        | inl for_momentum ↦ elim (Option-cases e.prox) [
          | inl gone ↦ absurd (ground (arith, rw (for_momentum, gone) at h.proximity))
          | inr (p, there) ↦ rw (
            h.ret_20d, h.avg_amount, h.industry_excess, h.rel_str, h.vol_ratio, h.prox, there,
            for_momentum,
          )
        ]
        | inr other ↦ rw (h.ret_20d, h.avg_amount, h.industry_excess, h.rel_str, h.vol_ratio, other)
      ]

  append_nil : {A : Type 0} (xs ys : List A) → xs ++ ys ≡ [] → (xs ≡ []) × (ys ≡ [])
  append_nil [] ys h = (refl, h)
  append_nil (x ∷ xs) ys h = absurd (ground arith)

  present : (name : String) (o : Option Float) → absent name o ≡ [] → (x : Float) × (o ≡ some x)
  present name none h = absurd (ground arith)
  present name (some x) h = (x, refl)

  proximity_of :
      (c : MarketValidationContext)
      → (if is_momentum c.strategy_id then absent "proximity_52w_high" (prox_of c) else []) ≡ []
      → (is_momentum c.strategy_id && not (is_some (prox_of c))) ≡ false
  proximity_of c h = elim (Bool-cases (is_momentum c.strategy_id)) [
    | inl for_momentum ↦ elim (Option-cases (prox_of c)) [
      | inl gone ↦ absurd (ground (arith, rw (for_momentum, gone) at h))
      | inr (p, there) ↦ rw there (ground arith)
    ]
    | inr other ↦ rw other
  ]

  missing-IsEvidence :
      (c : MarketValidationContext) → missing c ≡ [] → (e : Evidence) × IsEvidence c e
  unfolding missing
  missing-IsEvidence c h =
      let (h4, ratio) = append_nil _ _ h in
      let (h3, strength) = append_nil _ _ h4 in
      let (h2, excess) = append_nil _ _ h3 in
      let (h1, amount) = append_nil _ _ h2 in
      let (ret, prox) = append_nil _ _ h1 in
      let (r, er) = present "ret_20d" _ ret in
      let (a, ea) = present "avg_amount_20d" _ amount in
      let (x, ex) = present "industry_excess_return_20d" _ excess in
      let (s, es) = present "relative_strength_60d" _ strength in
      let (v, ev) = present "volume_ratio_5_20" _ ratio in
      (
        record {
          ret_20d = r;
          prox = prox_of c;
          avg_amount = a;
          industry_excess = x;
          rel_str = s;
          vol_ratio = v;
        },
        record {
          ret_20d = er;
          avg_amount = ea;
          industry_excess = ex;
          rel_str = es;
          vol_ratio = ev;
          prox = refl;
          proximity = proximity_of c prox;
        },
      )

  judge-ok :
      (version : String) (c : MarketValidationContext) (names : List String) (o : Option Evidence)
      (r : MarketValidationResult)
      → judge version c names o ≡ ok r
      → (e : Evidence) × (names ≡ []) × (o ≡ some e) × (judged version c e ≡ r)
  judge-ok version c [] (some e) r h = (e, refl, refl, ground (arith, h))
  judge-ok version c [] none r h = absurd (ground arith)
  judge-ok version c (n ∷ names) o r h = absurd (ground arith)

  -- `validate` returns a result exactly when the context names a strategy and has all of the
  -- evidence (the proximity for momentum only), and the result is the judgement of that evidence.
  pub validate-ok_iff :
      (version : String) (c : MarketValidationContext) (r : MarketValidationResult)
      → (validate version c ≡ ok r) ↔ (
          (text_eq c.strategy_id "" ≡ false)
          × (e : Evidence) × IsEvidence c e
          × (judged version c e ≡ r))
  unfolding validate
  validate-ok_iff version c r = (λ h. returned h, λ (named, e, has, made). returns named e has made)
    where
      returned :
          validate version c ≡ ok r
          → (text_eq c.strategy_id "" ≡ false)
            × (e : Evidence) × IsEvidence c e
            × (judged version c e ≡ r)
      returned h = elim (Bool-cases (text_eq c.strategy_id "")) [
        | inl blank ↦ absurd (ground (arith, rw blank at h))
        | inr named ↦
            let (e, none_missing, found, made) =
              judge-ok version c (missing c) (evidence_of c) r (rw named at h) in
            let (e', has) = missing-IsEvidence c none_missing in
            let same : e ≡ e' = ground (arith, found, (IsEvidence-missing c e' has).1) in
            (named, e, subst (IsEvidence c) (sym same) has, made)
      ]

      returns :
          text_eq c.strategy_id "" ≡ false
          → (e : Evidence) → IsEvidence c e
          → judged version c e ≡ r
          → validate version c ≡ ok r
      returns named e has made =
          let (none_missing, found) = IsEvidence-missing c e has in
          rw (named, none_missing, found) (ap ok made)

  matrix_lem :
      (vetoed rising : Bool) (n : ℕ)
      → ((matrix vetoed rising n ≡ contradicted) ↔ ((vetoed ≡ true) ⊎ (2 ≤ n)))
        × ((matrix vetoed rising n ≡ confirmed) ↔ ((vetoed ≡ false) × (rising ≡ true) × (n ≡ 0)))
  unfolding matrix
  matrix_lem vetoed rising n = ground arith

  liquidity-minus : (x : Float) → x ≺ liquidity_floor ≡ true → (liquidity x).minus ≡ 1
  unfolding liquidity
  liquidity-minus x h = ground arith

  -- What the status means, by the evidence and the count of the negative dimensions.
  pub record IsVerdict (c : MarketValidationContext) (e : Evidence) (status : MarketValidation)
      (negative_count : ℕ) : Type 0 where
    pub contradicted_iff :
        (status ≡ contradicted) ↔ ((e.avg_amount ≺ liquidity_floor ≡ true) ⊎ (2 ≤ negative_count))
    pub confirmed_iff : (status ≡ confirmed) ↔ (
        (e.avg_amount ≺ liquidity_floor ≡ false)
        × (leb 1 (stock_trend c.strategy_id e.ret_20d e.prox).plus ≡ true)
        × (negative_count ≡ 0))

  -- A result of `validate` is CONTRADICTED exactly when the average amount is below the floor of
  -- 1.0e8 or at least two dimensions are negative, and CONFIRMED exactly when the amount is not below that
  -- floor, the stock's trend is positive and no dimension is negative: 1.5e8 is not asked for.
  pub validate-status :
      (version : String) (c : MarketValidationContext) (r : MarketValidationResult)
      → validate version c ≡ ok r
      → (e : Evidence) × IsEvidence c e × IsVerdict c e r.status r.negative_count
  unfolding judged
  validate-status version c r h =
      let (_, e, has, made) = (validate-ok_iff version c r).0 h in
      let (against, for) = matrix_lem _ _ _ in
      (
        e,
        has,
        subst (λ r. IsVerdict c e r.status r.negative_count) made
            (record { contradicted_iff = against; confirmed_iff = for }),
      )
