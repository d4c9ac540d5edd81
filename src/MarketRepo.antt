-- ===== src/MarketRepo.antt =====
-- src/aomarket/db/market_repo.py: the methods of `MarketRepo`, by table. A SELECT with no ORDER BY
-- returns the rows in the order of insertion. `MarketRepo/Sound` shows that they keep the
-- constraints of the tables.
mod Users
mod Watches
mod Subscriptions
mod Alerts
pub mod Sound
pub mod Cascade
pub mod Upsert
pub mod Expiry
unfoldable pub use Users.*
unfoldable pub use Watches.*
unfoldable pub use Subscriptions.*
unfoldable pub use Alerts.*
