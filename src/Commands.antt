-- ===== src/Commands.antt =====
-- commands/mod.rs: the table of the commands.
pub mod Context
pub mod Reply
pub mod Core
pub mod Strings
pub mod Lists
pub mod Streams
pub mod Pubsub
pub mod Table
pub mod Refused
pub mod Tracked
pub mod Tracks
mod Tests
