-- ===== src/Makimono.antt =====
-- makimono/src: the session store's lease, journal and endings.
pub mod Lease
pub mod Journal
mod Tests
