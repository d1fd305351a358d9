-- ===== src/Universe/Exclusions.antt =====
-- Whatever a rule reports of a stock names that stock.
use a_stock_lens.Base.{
  ◌≡◌, refl, Bool, true, false, not, ◌&&◌, List, [], ◌∷◌, ◌++◌, String, any, any-append, is_nil,
  text_eq, text_refl, arith,
}
use a_stock_lens.Number.{Double}
use a_stock_lens.Domain.{Moment}
use a_stock_lens.Domain.Records.{DailyBar, FactorResult}
use a_stock_lens.Universe.{
  SecurityProfile, UniverseRule, UniverseExclusion, exclude_if, UniverseConfig, exchange_exclusion,
  st_exclusion, delisting_board_exclusion, long_suspension_exclusion, short_listing_exclusion,
  builder_rule_checks, liquidity_exclusion, evaluate, is_traded, target_trade_date,
}

pub is_nil-append {ℓ} : {A : Type ℓ} (l m : List A) → is_nil (l ++ m) ≡ (is_nil l && is_nil m)
is_nil-append [] m = refl
is_nil-append (x ∷ l) m = refl

abbrev pub names : String → UniverseExclusion → Bool
names symbol x = text_eq x.symbol symbol

-- Exclusions that all name a stock.
abbrev pub Tells : String → List UniverseExclusion → Type 0
Tells symbol l = any (names symbol) l ≡ not (is_nil l)

Tells-append :
    (s : String) (l m : List UniverseExclusion) → Tells s l → Tells s m → Tells s (l ++ m)
Tells-append s l m h k = rw (any-append (names s) l m, is_nil-append l m, h, k) (ground arith)

Tells-exclude_if :
    (b : Bool) (p : SecurityProfile) (r : UniverseRule) → Tells p.symbol (exclude_if b p r)
Tells-exclude_if true p r = rw (text_refl p.symbol)
Tells-exclude_if false p r = refl

module _ ⦃d : Double⦄ (config : UniverseConfig) (as_of : Moment) where
  module _ (p : SecurityProfile) where
    exchange_exclusion-Tells : Tells p.symbol (exchange_exclusion p config as_of)
    unfolding exchange_exclusion
    exchange_exclusion-Tells = ground (arith, text_refl p.symbol)

    st_exclusion-Tells : Tells p.symbol (st_exclusion p config as_of)
    unfolding st_exclusion
    st_exclusion-Tells = ground (arith, text_refl p.symbol)

    delisting_board_exclusion-Tells : Tells p.symbol (delisting_board_exclusion p config as_of)
    unfolding delisting_board_exclusion
    delisting_board_exclusion-Tells = ground (arith, text_refl p.symbol)

    long_suspension_exclusion-Tells : Tells p.symbol (long_suspension_exclusion p config as_of)
    unfolding long_suspension_exclusion
    long_suspension_exclusion-Tells = ground (arith, text_refl p.symbol)

    short_listing_exclusion-Tells : Tells p.symbol (short_listing_exclusion p config as_of)
    unfolding short_listing_exclusion
    short_listing_exclusion-Tells = ground (arith, text_refl p.symbol)

    liquidity_exclusion-Tells :
        (liquidity : List (String × FactorResult))
        → Tells p.symbol (liquidity_exclusion config liquidity p)
    unfolding liquidity_exclusion
    liquidity_exclusion-Tells liquidity = ground (arith, text_refl p.symbol)

    builder_rule_checks-Tells : Tells p.symbol (builder_rule_checks p config as_of)
    unfolding builder_rule_checks
    builder_rule_checks-Tells =
        let a = exchange_exclusion p config as_of in
        let b = st_exclusion p config as_of in
        let c = delisting_board_exclusion p config as_of in
        let e = long_suspension_exclusion p config as_of in
        let f = short_listing_exclusion p config as_of in
        let s = p.symbol in
        Tells-append s a (b ++ (c ++ (e ++ f))) exchange_exclusion-Tells (
          Tells-append s b (c ++ (e ++ f)) st_exclusion-Tells (
            Tells-append s c (e ++ f) delisting_board_exclusion-Tells
              (Tells-append s e f long_suspension_exclusion-Tells short_listing_exclusion-Tells)))

    pub evaluate-Tells :
        (bars : List DailyBar) (liquidity : List (String × FactorResult))
        → Tells p.symbol (evaluate config as_of bars liquidity p)
    unfolding evaluate
    evaluate-Tells bars liquidity =
        let untraded =
          config.require_valid_market_data
          && not (is_traded (target_trade_date as_of bars) bars p.symbol) in
        Tells-append p.symbol (builder_rule_checks p config as_of) _ builder_rule_checks-Tells (
          Tells-append p.symbol (exclude_if untraded p UniverseRule.no_market_data)
            (liquidity_exclusion config liquidity p)
            (Tells-exclude_if untraded p UniverseRule.no_market_data)
            (liquidity_exclusion-Tells liquidity))
