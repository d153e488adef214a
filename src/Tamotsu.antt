-- ===== src/Tamotsu.antt =====
-- tamotsu/src: the process that holds a pane's terminal, the frames between it and a daemon, and the
-- daemon's side of the connection.
pub mod Proto
pub mod Holder
pub mod Authority
pub mod Held
mod Tests
