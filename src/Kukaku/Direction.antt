-- ===== src/Kukaku/Direction.antt =====
-- kukaku/src/direction.rs: where a new pane appears, and how a split divides its area.
use mathlib.Core.Bool.{Bool, true, false}

pub data Direction : Type 0 where
  above below left right : Direction

pub data SplitOrientation : Type 0 where
  horizontal vertical : SplitOrientation

-- `Direction::orientation`
abbrev pub orientation : Direction → SplitOrientation
orientation Direction.above = SplitOrientation.horizontal
orientation Direction.below = SplitOrientation.horizontal
orientation Direction.left = SplitOrientation.vertical
orientation Direction.right = SplitOrientation.vertical

-- The derived `==` on orientations.
abbrev pub same_orientation : SplitOrientation → SplitOrientation → Bool
same_orientation SplitOrientation.horizontal SplitOrientation.horizontal = true
same_orientation SplitOrientation.vertical SplitOrientation.vertical = true
same_orientation _ _ = false

-- `matches!(direction, Direction::Right | Direction::Below)`
abbrev pub toward_b : Direction → Bool
toward_b Direction.right = true
toward_b Direction.below = true
toward_b _ = false
