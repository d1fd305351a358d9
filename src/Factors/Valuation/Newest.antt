-- ===== src/Factors/Valuation/Newest.antt =====
-- Which observation a valuation factor reports.
use a_stock_lens.Base.{
  ℕ, Bool, leb, text_eq, ◌≡◌, refl, sym, ap, subst, ◌∙◌, ◌⊎◌, inl, inr, true, false, not, ◌&&◌,
  Option, none, some, is_some, List, [], ◌∷◌, keep, mem-keep, mem-keep_of, mem-cons, is_nil, arith,
  Memᴰ, Bool-cases,
}
use a_stock_lens.Base.Raise.{ok, >>=-eq-ok, raise_if}
use a_stock_lens.Number.{Double}
use a_stock_lens.Domain.{DataStatus, Moment, is_aware, is_value}
use a_stock_lens.Domain.Records.{FactorResult}
use a_stock_lens.Factors.{FactorMetadata}
use a_stock_lens.Factors.Valuation.{
  instant, ValuationMetricSpec, ValuationObservation, ValuationContext, key_below, max_from,
  max_by_key, latest, is_old, freshness, blocking_status, not_positive, final_status, of_status,
  observations, available_at_time, compute_valuation,
}

module _ ⦃d : Double⦄ where
  key_below-asym : (a b : ValuationObservation) → key_below a b ≡ true → key_below b a ≡ false
  unfolding key_below
  key_below-asym a b h = ground arith

  key_below_irrefl : (a : ValuationObservation) → key_below a a ≡ false
  unfolding key_below
  key_below_irrefl a = ground arith

  key_not_below :
      (a b c : ValuationObservation)
      → key_below a b ≡ false
      → key_below b c ≡ false
      → key_below a c ≡ false
  unfolding key_below
  key_not_below a b c h k = ground arith

  -- The result of `max` is an item, and no item is above it.
  max_from-mem :
      (best : ValuationObservation) (xs : List ValuationObservation)
      → Memᴰ (max_from best xs) (best ∷ xs)
  unfolding max_from
  max_from-mem best [] = Memᴰ.head refl
  max_from-mem best (x ∷ xs) = elim (Bool-cases (key_below best x)) [
    | inl below ↦ rw below (Memᴰ.tail (max_from-mem x xs))
    | inr above ↦ rw above (elim (mem-cons (max_from-mem best xs)) [
      | inl e ↦ Memᴰ.head e
      | inr m ↦ Memᴰ.tail (Memᴰ.tail m)
    ])
  ]

  max_from-above_best :
      (best : ValuationObservation) (xs : List ValuationObservation)
      → key_below (max_from best xs) best ≡ false
  unfolding max_from
  max_from-above_best best [] = key_below_irrefl best
  max_from-above_best best (x ∷ xs) = elim (Bool-cases (key_below best x)) [
    | inl below ↦ rw below (
        key_not_below (max_from x xs) x best (max_from-above_best x xs)
          (key_below-asym best x below))
    | inr above ↦ rw above (max_from-above_best best xs)
  ]

  max_from-above :
      (xs : List ValuationObservation) (best : ValuationObservation) {o : ValuationObservation}
      → Memᴰ o xs
      → key_below (max_from best xs) o ≡ false
  unfolding max_from
  max_from-above [] best m = elim m [ ]
  max_from-above (x ∷ xs) best (Memᴰ.tail m) = max_from-above xs _ m
  max_from-above (x ∷ xs) best (Memᴰ.head e) = rw e (elim (Bool-cases (key_below best x)) [
    | inl below ↦ rw below (max_from-above_best x xs)
    | inr above ↦
        rw above (key_not_below (max_from best xs) best x (max_from-above_best best xs) above)
  ])

  max_by_key-lem :
      (xs : List ValuationObservation) {o : ValuationObservation}
      → max_by_key xs ≡ some o
      → Memᴰ o xs × ((p : ValuationObservation) → Memᴰ p xs → key_below o p ≡ false)
  max_by_key-lem [] h = absurd (cc h)
  max_by_key-lem (x ∷ xs) {o} h =
      subst
        (λ o.
          Memᴰ o (x ∷ xs) × ((p : ValuationObservation) → Memᴰ p (x ∷ xs) → key_below o p ≡ false))
        found (max_from-mem x xs, above)
    where
      found : max_from x xs ≡ o
      found = cc

      above : (p : ValuationObservation) → Memᴰ p (x ∷ xs) → key_below (max_from x xs) p ≡ false
      above p (Memᴰ.head e) = rw e (max_from-above_best x xs)
      above p (Memᴰ.tail m) = max_from-above xs x m

  is_nil-mem :
      {o : ValuationObservation} (xs : List ValuationObservation) → Memᴰ o xs → is_nil xs ≡ false
  is_nil-mem [] m = elim m [ ]
  is_nil-mem (x ∷ xs) m = refl

  -- If the newest observation has a value, it is the newest of those with a value.
  latest-valued :
      (available : List ValuationObservation) {o : ValuationObservation}
      → latest available ≡ some o
      → is_some o.value ≡ true
      → Memᴰ o available
        × ((p : ValuationObservation)
            → Memᴰ p available
            → is_some p.value ≡ true
            → key_below o p ≡ false)
  unfolding latest
  latest-valued available {o} h valued =
      let has = λ (o : ValuationObservation). is_some o.value in
      elim (Bool-cases (is_nil (keep has available))) [
        | inl bare ↦
            let (m, above) = max_by_key-lem available (rw bare at h) in (m, λ p n _. above p n)
        | inr some_valued ↦
            let (m, above) = max_by_key-lem (keep has available) (rw some_valued at h) in
            ((mem-keep has available m).0, λ p n v. above p (mem-keep_of has available n v))
      ]

  -- Nothing stands in the way of a value: the newest observation has one, which is not old.
  abbrev IsFresh : Option ℕ → Moment → Option ValuationObservation → Type 0
  IsFresh stale_after as_of newest =
      (o : ValuationObservation) × (newest ≡ some o)
      × (is_some o.value ≡ true)
      × (is_old stale_after as_of o ≡ false)

  abbrev Blocks : Option DataStatus → Type 0
  Blocks s = (status : DataStatus) × (s ≡ some status) × (is_value status ≡ false)

  freshness-cases :
      (stale_after : Option ℕ) (as_of : Moment) (newest : Option ValuationObservation)
      → Blocks (freshness stale_after as_of newest)
        ⊎ ((freshness stale_after as_of newest ≡ none) × IsFresh stale_after as_of newest)
  unfolding freshness
  freshness-cases stale_after as_of none = inl (DataStatus.null, refl, refl)
  freshness-cases stale_after as_of (some o) = elim (Bool-cases (is_some o.value)) [
    | inr bare ↦ inl (DataStatus.null, rw bare, refl)
    | inl valued ↦ elim (Bool-cases (is_old stale_after as_of o)) [
      | inl old ↦ inl (DataStatus.stale, rw (valued, old), refl)
      | inr fresh ↦ inr (rw (valued, fresh), (o, refl, valued, fresh))
    ]
  ]

  blocking_status-cases :
      (mine available : List ValuationObservation) (stale_after : Option ℕ) (as_of : Moment)
      → Blocks (blocking_status mine available stale_after as_of)
        ⊎ ((blocking_status mine available stale_after as_of ≡ none)
            × IsFresh stale_after as_of (latest available))
  unfolding blocking_status
  blocking_status-cases mine available stale_after as_of = elim (Bool-cases (is_nil mine)) [
    | inl unknown ↦ inl (DataStatus.not_applicable, rw unknown, refl)
    | inr known ↦ elim (Bool-cases (is_nil available)) [
      | inl early ↦ inl (DataStatus.null, rw (known, early), refl)
      | inr there ↦ rw (known, there) (freshness-cases stale_after as_of (latest available))
    ]
  ]

  final_status-Blocks :
      (spec : ValuationMetricSpec) (blocked : Option DataStatus)
      (newest : Option ValuationObservation)
      → Blocks blocked
      → Blocks (final_status spec blocked newest)
  unfolding final_status
  final_status-Blocks spec blocked newest (status, e, bad) = (status, rw (e, final_status), bad)

  of_status-value :
      (c : ValuationContext) (m : FactorMetadata) (spec : ValuationMetricSpec)
      (newest : Option ValuationObservation) (blocked : Option DataStatus)
      → (of_status c m spec newest blocked).status ≡ DataStatus.value
      → Blocks blocked
      → ⊥
  of_status-value c m spec newest blocked good (status, e, bad) =
      absurd (ground (arith, rw e at good, bad))

  of_status-fresh :
      (c : ValuationContext) (m : FactorMetadata) (spec : ValuationMetricSpec)
      (o : ValuationObservation)
      → let r = of_status c m spec (some o) (final_status spec none (some o)) in
        r.status ≡ DataStatus.value
        → (r.raw_value ≡ o.value) × ((spec.positive_only && not_positive o.value) ≡ false)
  unfolding final_status
  of_status-fresh c m spec o good = elim (Bool-cases (spec.positive_only && not_positive o.value)) [
    | inl negative ↦ absurd (ground (arith, rw negative at good))
    | inr positive ↦ (rw positive, positive)
  ]

  -- An observation of the stock and the metric that was available at the time, and has a value.
  abbrev pub is_usable : ValuationMetricSpec → ValuationContext → ValuationObservation → Bool
  is_usable spec c o =
      text_eq o.symbol c.symbol
      && text_eq o.metric spec.metric
      && leb (instant o.available_at) (instant c.as_of)
      && is_some o.value

  usable_of_mem :
      (spec : ValuationMetricSpec) (c : ValuationContext) {o : ValuationObservation}
      → Memᴰ o (available_at_time spec c)
      → is_some o.value ≡ true
      → Memᴰ o c.valuations × (is_usable spec c o ≡ true)
  unfolding available_at_time observations
  usable_of_mem spec c {o} m valued =
      let (there, early) = mem-keep _ _ m in
      let (known, mine) = mem-keep _ _ there in (known, ground (arith, early, mine, valued))

  mem_of_usable :
      (spec : ValuationMetricSpec) (c : ValuationContext) {o : ValuationObservation}
      → Memᴰ o c.valuations
      → is_usable spec c o ≡ true
      → Memᴰ o (available_at_time spec c) × (is_some o.value ≡ true)
  unfolding available_at_time observations
  mem_of_usable spec c m usable = (
    mem-keep_of _ _ (mem-keep_of _ _ m (ground (arith, usable))) (ground (arith, usable)),
    ground (arith, usable),
  )

  -- A value of a valuation is that of an observation of the stock and the metric that was available
  -- at the time, has a value, and is the newest of all such by its day and then by the time at which
  -- it was available; it is not older than the configuration allows, and positive where it has to be.
  pub compute_valuation-newest :
      (m : FactorMetadata) (spec : ValuationMetricSpec) (stale_after : Option ℕ)
      (c : ValuationContext) (r : FactorResult)
      → compute_valuation m spec stale_after c ≡ ok r
      → r.status ≡ DataStatus.value
      → (o : ValuationObservation) × Memᴰ o c.valuations
        × (is_usable spec c o ≡ true)
        × (r.raw_value ≡ o.value)
        × ((p : ValuationObservation)
            → Memᴰ p c.valuations
            → is_usable spec c p ≡ true
            → key_below o p ≡ false)
        × (is_old stale_after c.as_of o ≡ false)
        × ((spec.positive_only && not_positive o.value) ≡ false)
  unfolding compute_valuation
  compute_valuation-newest m spec stale_after c r h good =
      let mine = observations spec c in
      let available = available_at_time spec c in
      let (_, _, made) = >>=-eq-ok (raise_if (not (is_aware c.as_of) && not (is_nil mine)) _) _ h in
      let same : of_status c m spec (latest available) (
            final_status spec (blocking_status mine available stale_after c.as_of)
              (latest available))
          ≡ r =
        cc in
      elim (blocking_status-cases mine available stale_after c.as_of) [
        | inl blocked ↦
            elim (of_status-value c m spec (latest available) _ (ap (λ r. r.status) same ∙ good)
              (final_status-Blocks spec _ (latest available) blocked)) [ ]
        | inr (free, (o, newest, valued, fresh)) ↦
            let same = rw (free, newest) at same in
            let (raw, positive) = of_status-fresh c m spec o (ap (λ r. r.status) same ∙ good) in
            let (there, above) = latest-valued available newest valued in
            let (known, usable) = usable_of_mem spec c there valued in
            (
              o,
              known,
              usable,
              ap (λ r. r.raw_value) (sym same) ∙ raw,
              λ p n u. let (m, v) = mem_of_usable spec c n u in above p m v,
              fresh,
              positive,
            )
      ]
