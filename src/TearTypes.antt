-- ===== src/TearTypes.antt =====
-- tear-types/src: the typed surface of the multiplexer, sessions over windows over panes.
pub mod Pane
pub mod Session
pub mod Control
