-- ===== src/Domain.antt =====
-- src/astock_lens/domain/enums.py and domain/models.py, factors/contracts.py,
-- strategies/contracts.py, qualifications/models.py: the vocabularies, the moments and the records
-- that the stages of the pipeline pass on.
pub mod Records
pub mod Lineage
use a_stock_lens.Base.{ℕ, ◌/◌, Bool, true, false, Option, none, some}

pub data DataStatus : Type 0 where
  value null stale invalid source_error not_applicable : DataStatus

-- `status == DataStatus.VALUE`
abbrev pub is_value : DataStatus → Bool
is_value DataStatus.value = true
is_value _ = false

pub data WatchlistState : Type 0 where
  discovered watch deep_research track_signal ready holding exited archived : WatchlistState

pub data MarketRegime : Type 0 where
  bull range_up range range_down bear : MarketRegime

pub data MarketValidation : Type 0 where
  confirmed neutral contradicted : MarketValidation

pub data Signal : Type 0 where
  breakout pullback trend_continue trend_weaken breakdown value_contrarian : Signal
  dividend_support no_signal watch : Signal

pub data NextAction : Type 0 where
  ignore watch deep_research track_signal : NextAction

pub data TradeAction : Type 0 where
  entry add : TradeAction

pub data TradeProfile : Type 0 where
  event swing position : TradeProfile

pub data TradeDecision : Type 0 where
  pass wait no_trade : TradeDecision

pub data VetoSeverity : Type 0 where
  hard conditional : VetoSeverity

pub data TradeIntentStatus : Type 0 where
  draft evaluated waiting_trigger plan_ready overridden executed closed reviewed : TradeIntentStatus

-- A `datetime` in microseconds. An aware one shows a wall clock and names an instant of UTC; a
-- naive one shows a wall clock only.
pub data Moment : Type 0 where
  aware : (wall utc : ℕ) → Moment
  naive : (wall : ℕ) → Moment

abbrev pub is_aware : Moment → Bool
is_aware (aware w u) = true
is_aware (naive w) = false

-- `moment.date()`, as the number of the day on the wall clock.
abbrev pub date : Moment → ℕ
date (aware w u) = w / 86400000000
date (naive w) = w / 86400000000
