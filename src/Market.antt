-- ===== src/Market.antt =====
-- src/astock_lens/market/ and src/astock_lens/signals/detector.py: what the market says of a stock.
-- An exception is an `err`.
pub mod Validation
pub mod Signals
pub mod Regime
pub mod Agreement
use a_stock_lens.Base.{
  Bool, true, false, ◌&&◌, Option, none, some, List, String, text_eq, is_some, last_such,
}
use a_stock_lens.Number.{Double, Float}
use a_stock_lens.Domain.{is_value}
use a_stock_lens.Domain.Records.{FactorResult}

pub data Error : Type 0 where
  value_error : String → Error
  evidence_incomplete : List String → Error

pub data Result (A : Type 0) : Type 0 where
  ok : A → Result A
  err : Error → Result A

module _ ⦃d : Double⦄ where
  abbrev pub carries : String → FactorResult → Bool
  carries name f = text_eq f.factor name && is_value f.status && is_some f.raw_value

  abbrev raw_value_of : Option FactorResult → Option Float
  raw_value_of none = none
  raw_value_of (some f) = f.raw_value

  -- `factor_map.get(name).raw_value`: of the last factor of the name that has a value.
  unfoldable pub factor_value : String → List FactorResult → Option Float
  factor_value name factors = raw_value_of (last_such (carries name) factors)
