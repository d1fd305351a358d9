-- ===== src/Universe/Membership.antt =====
-- Which stocks a snapshot includes, what it says of the others, and that the prefilter, which runs
-- before the data is fetched, drops none that the snapshot includes.
use mathlib.Core.List.{Nodup}
use a_stock_lens.Base.{
  ℕ, ◌≡◌, sym, ap, ◌∙◌, ◌⊎◌, inl, inr, true, List, [], ◌∷◌, ◌++◌, String, any, All, All-each,
  is_nil, Memᴰ, arith, Bool-cases,
}
use a_stock_lens.Base.Raise.{ok}
use a_stock_lens.Base.Sorting.{sort, mem-sort, mem-sort_of}
use a_stock_lens.Number.{Double}
use a_stock_lens.Domain.{Moment, is_aware}
use a_stock_lens.Domain.Records.{DailyBar, FactorResult}
use a_stock_lens.Universe.{
  SecurityProfile, UniverseSnapshot, PrefilterResult, symbol_before, UniverseConfig,
  exchange_exclusion, st_exclusion, delisting_board_exclusion, long_suspension_exclusion,
  short_listing_exclusion, builder_rule_checks, listing_rule_checks, prefilter_all,
  prefilter_listing, evaluate, scan, build,
}
use a_stock_lens.Universe.Exclusions.{names, is_nil-append, evaluate-Tells}
use a_stock_lens.Universe.Scan.{scan-Nodup, scan-included, scan-told}

module _ ⦃d : Double⦄ (config : UniverseConfig) (as_of : Moment) where
  prefilter_all-keeps :
      {p : SecurityProfile} (ps : List SecurityProfile)
      → Memᴰ p ps
      → is_nil (listing_rule_checks p config as_of) ≡ true
      → Memᴰ p.symbol (prefilter_all config as_of ps).included
  unfolding prefilter_all
  prefilter_all-keeps [] m h = elim m [ ]
  prefilter_all-keeps {p} (q ∷ ps) (Memᴰ.head e) h =
      rw (ap (λ x. is_nil (listing_rule_checks x config as_of)) (sym e) ∙ h)
        (Memᴰ.head (ap (λ x. x.symbol) e))
  prefilter_all-keeps {p} (q ∷ ps) (Memᴰ.tail m) h =
      elim (Bool-cases (is_nil (listing_rule_checks q config as_of))) [
        | inl good ↦ rw good (Memᴰ.tail (prefilter_all-keeps ps m h))
        | inr bad ↦ rw bad (prefilter_all-keeps ps m h)
      ]

  -- A profile that fails no rule fails no rule of the listing.
  listing-evaluate :
      (bars : List DailyBar) (liquidity : List (String × FactorResult)) (p : SecurityProfile)
      → is_nil (evaluate config as_of bars liquidity p) ≡ true
      → is_nil (listing_rule_checks p config as_of) ≡ true
  unfolding evaluate builder_rule_checks listing_rule_checks
  listing-evaluate bars liquidity p h =
      let a = exchange_exclusion p config as_of in
      let b = st_exclusion p config as_of in
      let c = delisting_board_exclusion p config as_of in
      let e = long_suspension_exclusion p config as_of in
      let f = short_listing_exclusion p config as_of in
      ground (
        arith,
        h,
        is_nil-append (a ++ (b ++ (c ++ (e ++ f)))) _,
        is_nil-append a (b ++ (c ++ (e ++ f))),
        is_nil-append b (c ++ (e ++ f)),
        is_nil-append c (e ++ f),
        is_nil-append e f,
        is_nil-append a (b ++ (c ++ f)),
        is_nil-append b (c ++ f),
        is_nil-append c f,
      )

  module _ (digest : UniverseConfig → String) (id_of : ℕ → String → String)
      (profiles : List SecurityProfile) (bars : List DailyBar)
      (liquidity : List (String × FactorResult)) (snapshot : UniverseSnapshot)
      (built : build digest id_of config profiles as_of bars liquidity ≡ ok snapshot) where
    verdicts : PrefilterResult
    verdicts = scan (evaluate config as_of bars liquidity) [] (sort symbol_before profiles)

    built-verdicts :
        (snapshot.included ≡ verdicts.included) × (snapshot.exclusions ≡ verdicts.excluded)
    unfolding build verdicts
    built-verdicts = elim (Bool-cases (is_aware as_of)) [
      | inl good ↦ ground (arith, rw good at built)
      | inr bad ↦ absurd (cc (rw bad at built))
    ]

    -- A snapshot includes a stock once at most, and each stock of the listing is included or named by
    -- an exclusion.
    pub build_complete :
        Nodup snapshot.included
        × All
            (λ p.
              Memᴰ p.symbol snapshot.included ⊎ (any (names p.symbol) snapshot.exclusions ≡ true))
            profiles
    unfolding verdicts
    build_complete =
        let (i, x) = built-verdicts in
        rw (i, x)
          (
            scan-Nodup _ [] (sort symbol_before profiles),
            All-each profiles (λ p m.
                scan-told _ (λ q. evaluate-Tells config as_of q bars liquidity) [] _
                  (mem-sort_of symbol_before profiles m)),
          )

    -- The prefilter, which has no data to judge by, keeps every stock that a snapshot of the listing
    -- includes, whatever the data is; and each of them has a profile that fails no rule.
    pub prefilter_listing-keeps :
        (r : PrefilterResult) (s : String)
        → prefilter_listing profiles config as_of ≡ ok r
        → Memᴰ s snapshot.included
        → Memᴰ s r.included
          × ((p : SecurityProfile) × Memᴰ p profiles
              × (p.symbol ≡ s)
              × (is_nil (evaluate config as_of bars liquidity p) ≡ true))
    unfolding verdicts prefilter_listing
    prefilter_listing-keeps r s filtered m =
        let (p, m', e, good) =
          scan-included _ [] (sort symbol_before profiles) (rw built-verdicts.0 at m) in
        let kept =
          prefilter_all-keeps (sort symbol_before profiles) m'
            (listing-evaluate bars liquidity p good) in
        (rw (← e, filtered_all r filtered) kept, (p, mem-sort symbol_before profiles m', e, good))
      where
        filtered_all :
            (r' : PrefilterResult)
            → prefilter_listing profiles config as_of ≡ ok r'
            → r'.included ≡ (prefilter_all config as_of (sort symbol_before profiles)).included
        filtered_all r' h = elim (Bool-cases (is_aware as_of)) [
          | inl good ↦ ground (arith, rw good at h)
          | inr bad ↦ absurd (cc (rw bad at h))
        ]
