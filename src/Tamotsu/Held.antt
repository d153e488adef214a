-- ===== src/Tamotsu/Held.antt =====
-- tamotsu/src/held.rs: the daemon's side of the connection. `follow` hands on the bytes of a pane,
-- each once, and keeps the offset from which it attaches again.
pub mod Repair
pub mod Follow
pub mod Reviving
pub mod Losing
pub mod Reporting
mod Tests
use tear.Base.{ℕ, ◌+◌, ◌-◌, List, [], ◌∷◌, ◌++◌, if◌then◌else◌, leb, min, length, drop}
use tear.Makimono.Journal.Reader.{Chunk}

-- The loop's `next`, and all that `on_bytes` was given.
pub record Following : Type 0 where
  pub next_offset : ℕ
  pub handed_on : List ℕ

-- The arm of `follow` for `FromHolder::Bytes`.
unfoldable pub follow_bytes : Following → Chunk → Following
follow_bytes f c =
    let end = c.at + length c.bytes in
    let skip = f.next_offset - c.at in
    if leb end f.next_offset then f else record {
      next_offset = end;
      handed_on = f.handed_on ++ drop (min skip (length c.bytes)) c.bytes;
    }

-- The frames of bytes of one connection, in the order in which they come.
unfoldable pub follow_all : Following → List Chunk → Following
unfolding follow_bytes
follow_all f [] = f
follow_all f (c ∷ chunks) = follow_all (follow_bytes f c) chunks
