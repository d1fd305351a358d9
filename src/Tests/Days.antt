-- ===== src/Tests/Days.antt =====
-- A calendar by weekdays with one week of holidays.
use a_stock_lens.Base.{◌+◌, ◌≡◌, refl, none, [], ◌∷◌, arith}
use a_stock_lens.Base.Raise.{ok, raised}
use a_stock_lens.Calendar.{
  ChinaTradingCalendar, is_trade_date, look_back, get_latest_trade_date, look_ahead,
  get_next_trade_date, last_date, out_of_range,
}
use a_stock_lens.Calendar.Nearest.{EndsBack, EndsAhead, get_trade_dates-nearest}

-- The holidays from 2025-10-01 to 2025-10-08.
abbrev calendar : ChinaTradingCalendar
calendar = record {
  trade_dates = none;
  holidays = 739525 ∷ 739526 ∷ 739527 ∷ 739530 ∷ 739531 ∷ 739532 ∷ [];
}

latest_found : get_latest_trade_date calendar 739530 ≡ ok 739524
unfolding get_latest_trade_date look_back is_trade_date
latest_found = refl

next_found : get_next_trade_date calendar 739530 ≡ ok 739533
unfolding get_next_trade_date look_ahead is_trade_date
next_found = refl

-- 0001-01-01 is a Monday: from a holiday on it the search leaves the dates.
at_the_start : get_latest_trade_date (record calendar { holidays = 1 ∷ [] }) 1 ≡ raised out_of_range
unfolding get_latest_trade_date look_back is_trade_date
at_the_start = refl

at_the_end : get_next_trade_date calendar last_date ≡ raised out_of_range
unfolding get_next_trade_date
at_the_end = refl

get_trade_dates-nearest_example :
    EndsBack calendar 739530 60 739530 (get_latest_trade_date calendar 739530)
    × EndsAhead calendar 739530 60 (739530 + 1) (get_next_trade_date calendar 739530)
get_trade_dates-nearest_example =
    get_trade_dates-nearest calendar 739530 (omega arith) (omega arith)
