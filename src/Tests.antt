-- ===== src/Tests.antt =====
-- The theorems at concrete inputs, with the floats of Number/Fixed.
mod Samples
mod Watchlists
mod Selections
mod Ledgers
mod Trades
mod Service
mod Bootstraps
mod Scores
mod Datasets
mod Evidences
mod Valuations
mod Days
mod Markets
mod Qualified
