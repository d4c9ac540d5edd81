-- ===== src/Bot.antt =====
-- src/aomarket/bot: the admin commands, the handler of a tell, and the two loops of the scheduler.
pub mod Admin
pub mod Tells
pub mod Loops
pub mod Sound
pub mod Strangers
pub mod Rounds
pub mod Readable
