-- ===== src/Kukaku.antt =====
-- kukaku/src: the split-tree layout algebra.
pub mod Direction
pub mod Geometry
pub mod Float
pub mod Ratio
pub mod Layout
pub mod Rects
pub mod Resize
pub mod Arrange
pub mod Fixed
mod Tests
