-- ===== src/Clients.antt =====
-- src/aomarket/gmi, aodb and autotrack: how the answers of other services are read.
pub mod Json
pub mod Gmi
pub mod Aodb
pub mod Scraper
