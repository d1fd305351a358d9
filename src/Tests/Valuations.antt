-- ===== src/Tests/Valuations.antt =====
-- Three observations of one multiple: the newest of the two that are available has no value.
use a_stock_lens.Base.{ℕ, ◌≡◌, refl, ◌&&◌, true, false, Option, none, some, [], ◌∷◌, Memᴰ}
use a_stock_lens.Base.Int.{ℤ, pos}
use a_stock_lens.Base.Raise.{ok}
use a_stock_lens.Number.Fixed.{fixed}
use a_stock_lens.Domain.{DataStatus, aware}
use a_stock_lens.Domain.Records.{FactorResult}
use a_stock_lens.Factors.{FactorMetadata}
use a_stock_lens.Factors.Valuation.{
  ValuationMetricSpec, ValuationObservation, ValuationContext, key_below, max_from, latest, is_old,
  freshness, blocking_status, not_positive, valuation_result, final_status, observations,
  available_at_time, compute_valuation,
}
use a_stock_lens.Factors.Valuation.Newest.{is_usable, compute_valuation-newest}

abbrev observation : ℕ → ℕ → Option ℤ → ValuationObservation
observation day instant value = record {
  symbol = "600519";
  metric = "pb";
  valuation_date = day;
  available_at = aware instant instant;
  value = value;
}

abbrev older : ValuationObservation
older = observation 0 10 (some (pos 25000))

abbrev context : ValuationContext
context = record {
  symbol = "600519";
  as_of = aware 86400000000 86400000000;
  valuations =
      older ∷ observation 1 86400000000 none ∷ observation 2 86400000001 (some (pos 30000)) ∷ [];
}

abbrev metadata : FactorMetadata
metadata = record { name = "pb"; version = "v1"; window = 1 }

abbrev spec : ValuationMetricSpec
spec = record { metric = "pb"; unit = "x"; positive_only = true }

abbrev reported : FactorResult
reported = valuation_result context metadata spec (some older) DataStatus.value (some (pos 25000))

valued : compute_valuation metadata spec (some 5) context ≡ ok reported
unfolding compute_valuation final_status blocking_status freshness latest max_from key_below
    observations available_at_time
valued = refl

compute_valuation-newest_example :
    (o : ValuationObservation) × Memᴰ o context.valuations
    × (is_usable spec context o ≡ true)
    × (some (pos 25000) ≡ o.value)
    × ((p : ValuationObservation)
        → Memᴰ p context.valuations
        → is_usable spec context p ≡ true
        → key_below o p ≡ false)
    × (is_old (some 5) context.as_of o ≡ false)
    × ((true && not_positive o.value) ≡ false)
compute_valuation-newest_example =
    compute_valuation-newest metadata spec (some 5) context reported valued refl
