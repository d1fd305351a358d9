-- ===== src/TradeGate/Service/Discipline.antt =====
-- The discipline of the ledger: every execution in it is backed by a plan of a passed evaluation, or
-- by an override, which are in the ledger too.
mod Growth
mod Backing
mod Reading
mod Execution
pub use Growth.*
pub use Backing.*
pub use Execution.*
mod Histories
unfoldable pub use Histories.*
