-- ===== src/App.antt =====
-- IrcApplication (src/IrcApplication.hpp): its modules, one for each source file, and the proofs.
pub mod Relay
pub mod Rooms
pub mod Consistent
pub mod Invariant
pub mod Changes
pub mod Support
pub mod Registration
pub mod Messaging
pub mod Channels
pub mod Modes
pub mod Dispatch
