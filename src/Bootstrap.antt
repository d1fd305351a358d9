-- ===== src/Bootstrap.antt =====
-- src/astock_lens/data/bootstrap.py, data/bootstrap_*.py and data/contracts.py: the cold start, which
-- fetches the bars of many stocks one by one and keeps what it has over a crash.
pub mod Scheduler
pub mod Checkpoint
pub mod Landing
use a_stock_lens.Base.{ℕ, Option, List, String}
use a_stock_lens.Domain.{DataStatus, Moment}

-- A raw table: the names of its columns, and its rows.
pub record RawPayload : Type 0 where
  pub columns : List String
  pub rows : List (List String)

pub record RawDataset : Type 0 where
  pub provider : String
  pub dataset : String
  pub fetched_at : Moment
  pub provider_version : String
  pub status : DataStatus
  pub row_count : ℕ
  pub missing_symbols : List String
  pub message : Option String
  pub trade_date : Option ℕ
  pub report_period : Option ℕ
  pub payload : Option RawPayload
