-- ===== src/Market.antt =====
-- src/aomarket/market: the business logic. `Env` is what a `MarketService` is built from; the
-- other children are the methods of service.py by topic, and the laws about them.
pub mod Parsing
pub mod Env
pub mod Announce
pub mod Players
pub mod Watching
pub mod Alerts
pub mod Poll
pub mod AutoTrack
pub mod Sound
pub mod Reads
pub mod Rendering
pub mod Commands
pub mod Replies
pub mod Dispatch
