-- ===== src/Server.antt =====
-- server/: the connections, the clean-ups and the event loop. The loop of `run` is given as the functions
-- that it calls between two polls; an error of the poll ends `run`, so these stand for the polls that
-- succeed.
pub mod Connection
pub mod Expiry
pub mod Blocking
pub mod Request
pub mod Deliver
pub mod Event
pub mod Flushing
pub mod Steps
pub mod Loop
pub mod Reach
pub mod Waiting
pub mod Blocked
pub mod Ticks
pub mod Timed
pub mod Expiries
pub mod Delivery
pub mod TimedOut
pub mod Overdue
pub mod Sleeps
pub mod Deadlines
pub mod Refusals
pub mod Queued
pub mod Woken
pub mod Waits
pub mod Kept
pub mod Tracking
pub mod Lasting
pub mod Expiring
mod TestSlab
mod Runs
mod Tests
