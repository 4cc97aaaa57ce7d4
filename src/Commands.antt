-- ===== src/Commands.antt =====
-- base/commands: the commands on the data structures of a cluster.
pub mod Context
pub mod Action
pub mod Labels
pub mod Common
pub mod Lists
pub mod Batches
pub mod Maps
pub mod Locks
pub mod Structures
pub mod Sends
pub mod Arguments
pub mod Registry
pub mod Requests
pub mod Failures
pub mod Counts
mod Tests
