-- ===== src/TradeGate.antt =====
-- src/astock_lens/trade_gate/: the admission of trades.
pub mod Errors
pub mod Intent
pub mod Records
pub mod Scoring
pub mod Veto
pub mod Engine
pub mod Replay
pub mod Ledger
pub mod Service
