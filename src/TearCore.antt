-- ===== src/TearCore.antt =====
-- tear-core/src: the in-process multiplexer.
mod Tests
pub mod Registry
pub mod Runtime
pub mod Spawning
pub mod Closing
pub mod Exit
pub mod Steering
pub mod Blocks
pub mod Recording
pub mod Brake
pub mod Arranging
pub mod Validity
pub mod Reachable
pub mod Restoring
