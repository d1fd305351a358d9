-- ===== src/Calendar.antt =====
-- src/astock_lens/calendar/china.py: the trading days. A date is its number, as date.toordinal gives
-- it, and a step to a number without a date raises. The known holidays are data, which a calendar
-- holds.
pub mod Nearest
use a_stock_lens.Base.{
  ℕ, zero, suc, ◌+◌, ◌-◌, ◌%◌, Bool, true, false, not, Option, none, some, String, List, any, leb,
  ◌==◌, if◌then◌else◌,
}
use a_stock_lens.Base.Raise.{Result, ok, raised, ◌>>=◌}

-- The numbers of `date.min` and of `date.max`.
abbrev pub first_date : ℕ
first_date = 1

abbrev pub last_date : ℕ
last_date = 3652059

abbrev pub out_of_range : String
out_of_range = "date value out of range"

-- A date minus or plus `timedelta(days=1)`.
abbrev pub day_before : ℕ → Result ℕ
day_before day = if leb day first_date then raised out_of_range else ok (day - 1)

abbrev pub day_after : ℕ → Result ℕ
day_after day = if leb last_date day then raised out_of_range else ok (day + 1)

pub record ChinaTradingCalendar : Type 0 where
  pub trade_dates : Option (List ℕ)
  pub holidays : List ℕ

-- `target in dates`
abbrev pub is_among : List ℕ → ℕ → Bool
is_among dates target = any (λ d. d == target) dates

-- `target.weekday()`: Monday is 0.
abbrev pub weekday : ℕ → ℕ
weekday target = (target + 6) % 7

abbrev is_open : Option (List ℕ) → List ℕ → ℕ → Bool
is_open (some dates) holidays target = is_among dates target
is_open none holidays target =
    if leb 5 (weekday target) then false else not (is_among holidays target)

unfoldable pub is_trade_date : ChinaTradingCalendar → ℕ → Bool
is_trade_date calendar target = is_open calendar.trade_dates calendar.holidays target

-- The loop of `get_latest_trade_date`, for the rounds that are left.
unfoldable pub look_back : ChinaTradingCalendar → (target rounds current : ℕ) → Result ℕ
look_back calendar target zero current = ok target
look_back calendar target (suc rounds) current =
    let rest = look_back calendar target rounds (current - 1) in
    if is_trade_date calendar current then ok current else (day_before current >>= λ _. rest)

unfoldable pub get_latest_trade_date : ChinaTradingCalendar → ℕ → Result ℕ
get_latest_trade_date calendar target = look_back calendar target 60 target

-- The loop of `get_next_trade_date`.
unfoldable pub look_ahead : ChinaTradingCalendar → (rounds current : ℕ) → Result ℕ
look_ahead calendar zero current = ok current
look_ahead calendar (suc rounds) current =
    let rest = look_ahead calendar rounds (current + 1) in
    if is_trade_date calendar current then ok current else (day_after current >>= λ _. rest)

unfoldable pub get_next_trade_date : ChinaTradingCalendar → ℕ → Result ℕ
get_next_trade_date calendar target = day_after target >>= look_ahead calendar 60
