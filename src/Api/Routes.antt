-- ===== src/Api/Routes.antt =====
-- src/aomarket/api/routes: the handlers of each file.
pub mod Admin
pub mod BotRoutes
pub mod Items
pub mod Settings
pub mod Status
pub mod Users
pub mod Watch
pub mod Health
