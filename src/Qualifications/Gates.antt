-- ===== src/Qualifications/Gates.antt =====
-- What a qualified stock has passed.
use a_stock_lens.Base.{
  ◌≡◌, refl, subst, ◌↔◌, inl, inr, Bool, true, false, ◌&&◌, some, List, [], ◌∷◌, ◌++◌, All, String,
  text_eq, text_iff, &&-eq-true, is_blank, arith, Option-cases, Bool-cases,
}
use a_stock_lens.Number.{Double, Float, ◌≼◌}
use a_stock_lens.Domain.{is_value}
use a_stock_lens.Domain.Records.{FactorResult, QualificationContext, StrategyQualification, Note}
use a_stock_lens.Qualifications.{
  ok, FactorThreshold, FactorThresholdRule, is_below, is_above, bounded, lines_for, factor_named,
  all_lines, evaluate, top_ten_percent_floor, qualification_of, build_qualification, is_empty,
}

module _ ⦃d : Double⦄ where
  -- The factor is known, is a value, and lies within the bounds that are given.
  pub record Meets (factors : List FactorResult) (bound : String × FactorThreshold) : Type 0 where
    pub factor : FactorResult
    pub number : Float
    pub found : factor_named bound.0 factors ≡ some factor
    pub known : factor.raw_value ≡ some number
    pub valued : is_value factor.status ≡ true
    pub not_below : is_below bound.1.min number ≡ false
    pub not_above : is_above bound.1.max number ≡ false

  no_risk :
      (name : String) (t : FactorThreshold) (x : Float)
      → (bounded name t x).risks ≡ []
      → (is_below t.min x ≡ false) × (is_above t.max x ≡ false)
  unfolding bounded
  no_risk name t x h = ground (arith, Option-cases t.min, Option-cases t.max)

  lines_of-Meets :
      (factors : List FactorResult) (name : String) (t : FactorThreshold)
      → (lines_for name t (factor_named name factors)).risks ≡ []
      → Meets factors (name, t)
  lines_of-Meets factors name t h = elim (Option-cases (factor_named name factors)) [
    | inl gone ↦ absurd (ground (arith, rw gone at h))
    | inr (f, found) ↦ elim (Option-cases f.raw_value) [
      | inl unknown ↦ absurd (ground (arith, rw (found, unknown) at h))
      | inr (x, known) ↦ elim (Bool-cases (is_value f.status)) [
        | inl valued ↦
            let (above, under) = no_risk name t x (rw (found, known, valued) at h) in
            record {
              factor = f;
              number = x;
              found = found;
              known = known;
              valued = valued;
              not_below = above;
              not_above = under;
            }
        | inr other ↦ absurd (ground (arith, rw (found, known, other) at h))
      ]
    ]
  ]

  Meets-lines :
      (factors : List FactorResult) (name : String) (t : FactorThreshold)
      → Meets factors (name, t)
      → (lines_for name t (factor_named name factors)).risks ≡ []
  unfolding bounded
  Meets-lines factors name t m = rw (m.found, m.known, m.valued, m.not_below, m.not_above)

  append_nil : {A : Type 0} (xs ys : List A) → xs ++ ys ≡ [] → (xs ≡ []) × (ys ≡ [])
  append_nil [] ys h = (refl, h)
  append_nil (x ∷ xs) ys h = absurd (ground arith)

  all_lines-Meets :
      (thresholds : List (String × FactorThreshold)) (factors : List FactorResult)
      → (all_lines thresholds factors).risks ≡ []
      → All (Meets factors) thresholds
  unfolding all_lines
  all_lines-Meets [] factors h = tt
  all_lines-Meets ((name, t) ∷ thresholds) factors h =
      let (first, rest) = append_nil _ _ h in
      (lines_of-Meets factors name t first, all_lines-Meets thresholds factors rest)

  Meets-all_lines :
      (thresholds : List (String × FactorThreshold)) (factors : List FactorResult)
      → All (Meets factors) thresholds
      → (all_lines thresholds factors).risks ≡ []
  unfolding all_lines
  Meets-all_lines [] factors h = refl
  Meets-all_lines ((name, t) ∷ thresholds) factors h =
      rw (Meets-lines factors name t h.0) (Meets-all_lines thresholds factors h.1)

  empty_iff : (ns : List Note) → (is_empty ns ≡ true) ↔ (ns ≡ [])
  empty_iff [] = (λ _. refl, λ _. refl)
  empty_iff (n ∷ ns) = (λ h. absurd (ground arith), λ h. absurd (ground arith))

  -- The absolute rule passes exactly when every threshold is met by the factor that counts for its
  -- name, the last one of the name: it is there, has a value, and is within the bounds given.
  pub evaluate-passed_iff :
      (rule : FactorThresholdRule) (context : QualificationContext)
      → ((evaluate rule context).passed ≡ true) ↔ All (Meets context.factors) rule.thresholds
  unfolding evaluate
  evaluate-passed_iff rule context =
      let lines = all_lines rule.thresholds context.factors in
      (
        λ h. all_lines-Meets rule.thresholds context.factors ((empty_iff lines.risks).0 h),
        λ h. (empty_iff lines.risks).1 (Meets-all_lines rule.thresholds context.factors h),
      )

  build_qualification-ok :
      (context : QualificationContext) (expected version : String) (rule : FactorThresholdRule)
      (q : StrategyQualification)
      → build_qualification context expected version rule ≡ ok q
      → (text_eq context.strategy_result.strategy_id expected ≡ true)
        × (is_blank version ≡ false)
        × (p : Float) × (context.strategy_result.rank_percentile ≡ some p)
        × (qualification_of context.strategy_result version p (evaluate rule context) ≡ q)
  unfolding build_qualification
  build_qualification-ok context expected version rule q h =
      elim (Bool-cases (text_eq context.strategy_result.strategy_id expected)) [
        | inr other ↦ absurd (ground (arith, rw other at h))
        | inl same ↦ elim (Bool-cases (is_blank version)) [
          | inl blank ↦ absurd (ground (arith, rw (same, blank) at h))
          | inr filled ↦ elim (Option-cases context.strategy_result.rank_percentile) [
            | inl gone ↦ absurd (ground (arith, rw (same, filled, gone) at h))
            | inr (p, there) ↦
                (same, filled, p, there, ground (arith, rw (same, filled, there) at h))
          ]
        ]
      ]

  -- A stock is qualified for a strategy exactly when its percentile is at least 0.90 and every
  -- threshold of the rule is met; the qualification is for the strategy asked for.
  pub build_qualification-qualified_iff :
      (context : QualificationContext) (expected version : String) (rule : FactorThresholdRule)
      (q : StrategyQualification)
      → build_qualification context expected version rule ≡ ok q
      → (q.strategy_id ≡ expected)
        × ((q.qualified ≡ true) ↔ (
            (top_ten_percent_floor ≼ q.rank_percentile ≡ true)
            × All (Meets context.factors) rule.thresholds))
  build_qualification-qualified_iff context expected version rule q h =
      let (same, _, p, _, made) = build_qualification-ok context expected version rule q h in
      subst
        (λ q.
          (q.strategy_id ≡ expected)
          × ((q.qualified ≡ true) ↔ (
              (top_ten_percent_floor ≼ q.rank_percentile ≡ true)
              × All (Meets context.factors) rule.thresholds)))
        made
        (
          (text_iff context.strategy_result.strategy_id expected).0 same,
          both_iff (top_ten_percent_floor ≼ p) (evaluate-passed_iff rule context),
        )
    where
      both_iff :
          {P : Type 0} {b : Bool} (a : Bool) → (b ≡ true) ↔ P → (a && b ≡ true) ↔ ((a ≡ true) × P)
      both_iff a e = (λ h. let (ha, hb) = &&-eq-true a _ h in (ha, e.0 hb), λ h. rw (h.0) (e.1 h.1))
