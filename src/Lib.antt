-- ===== src/Lib.antt =====
-- The core of tear, a terminal multiplexer: the algebra of a window's layout (kukaku/src), the
-- multiplexer that keeps sessions, windows and panes with their terminals (tear-core/src, over the
-- types of tear-types/src), the session store with its lease and its journals (makimono/src), and the
-- holder, a process that keeps a pane's terminal while daemons come and go (tamotsu/src). The
-- multiplexer calls the layout algebra for every split, close,
-- divider and arrangement, and gives each terminal the size that the algebra computes; it writes the
-- endings of panes to the store. The holder writes a pane's output to its journal, and replays the
-- journal to a daemon that attaches, which follows it from the offset that it has reached.
--
-- Files and the code that they model:
--   Base        numbers, tests, lists, integers, and `BTreeMap` as its entries in key order.
--   Kukaku      kukaku/src: Direction and Geometry (direction.rs, geometry.rs), Float (what layout.rs
--               uses of `f32`), Ratio, Layout (LayoutNode: split_leaf, remove_leaf, validate), Rects
--               (compute_rects, neighbor), Resize (governing_split_path, resize_leaf), Arrange
--               (from_kind). Fixed is a fixed-point meaning of the numbers for tests.
--   TearTypes   tear-types/src: Pane (pane.rs, yurai.rs), Session (session.rs, window.rs, freio.rs),
--               Control (the errors of control.rs).
--   TearCore    tear-core/src: Registry (registry.rs); of inproc.rs, Runtime (the state of
--               `InProcess`, detach_panes, apply_layout_geometry, pane_resize_absolute, with
--               record_human_end of inproc/durable.rs), Spawning (new_session_yurai_in,
--               new_window_yurai, split_pane_yurai, spawn_pty_with), Closing (kill_session,
--               kill_window, kill_pane, reap_proven_dead, with `AllPanesExited` of reap.rs), Exit (the
--               `on_exit` of pane_callbacks), Steering (rename, select, policy, send_keys,
--               subscriptions), Brake (set_freio), Arranging (resize_pane, apply_layout),
--               Restoring (restore_durable of inproc/durable.rs, with `classify` of
--               makimono/src/ending.rs).
--               Validity states the invariant of the registry and has the lemmas on each kind of
--               change; each operation's Validity child applies them; Reachable composes the
--               operations into sequences of calls, and its children follow the endings and the
--               terminals through them. Steady, Safety, Reaping, Detaching, Outcome, Input,
--               Admission and Reporting are about single operations. Restoring/Pruning (with Windows) takes
--               panes out of a document, Attaching follows the attempts for the others, with the
--               marks that they leave (Marks), Outcome puts them together for a document, and
--               Documents, Started and Restart for the documents of the store one after another.
--               Blocks is blocks.rs, the commands of a pane as blocks: Orderly, Marking and Lookup
--               follow its invariant through all events of a stream. Recording is recording.rs,
--               Recording/Latest compares it with a recording that has no bound.
--   Makimono    makimono/src: Lease (lease.rs); Lease/Exclusion (with Tracked) lets many daemons use one store,
--               with their authorities (durability.rs of tear-daemon/src, authority.rs).
--               Journal (journal.rs: append, rotate, evict, sync) and Journal/Reader (read_from,
--               read_all, open). Journal/Stream says what a journal stands for, the stream of the
--               pane's bytes by absolute offset with holes for what is lost or evicted; Valid is the
--               invariant; Rotating, Appending, Evicting, Writing and Recording follow an append,
--               Bounded its room; Finding, Chunking, Reading and Replaying follow the readers.
--   Tamotsu     tamotsu/src: Proto (proto.rs: frames; Messages the messages), Holder (holder.rs:
--               ingest, replay; Attaching: attach, leave, tick), Authority (authority.rs), Held
--               (held.rs: the bytes that `follow` hands on; Repair: repair; Follow: the loop of
--               follow). Holder/Records composes calls of ingest, Replay a replay with the follower,
--               Catching the way back of a daemon, Authority all calls on the state. Of the daemon's
--               side Reviving counts the holders that it starts, Reporting follows its calls of
--               `on_exit`, and Losing a daemon that has lost the store.
--
-- A handler is a function from the state to the state and its answer. `record st` updates stand for
-- the writes under the locks, `modify` for a write through `get_mut`, `find_first` and
-- `modify_first` for a search through `values_mut` that stops at a hit.
--
-- What is assumed: `f32` is a parameter of the layout algebra with documented laws of IEEE
-- arithmetic (Kukaku.Float.IsIeee), which Kukaku.Fixed meets. Every answer of the system is an
-- argument (SystemIo, LeaseIo, AppendIo, AttachIo, FollowIo, PaneOnDisk): whether a child starts, a
-- terminal takes a size or a write, or how much of it, a lock is had, a file is made, written (and
-- how far), read, synced or removed, a stream takes a message, and the time. The CBOR library of
-- the frames is a parameter with its round trip, and so is the parsing of an exit code in a mark.
-- The ids that are minted from a hash are arguments, and a sequence of calls takes each one new to
-- the registry.
--
-- What is not modelled: a call is one step, so that interleavings within a call, the locks and the
-- wakers are left out; so are the bytes of a terminal and its grid, of which only the size is kept,
-- the child's environment, the texts of errors and logs, the rest of the store, the holder's child
-- and its end, the metadata that a revival writes, the waits of `check` and `probe` for an echo, the
-- daemon, its wire and its clients.
-- Offsets and counts of a journal and of blocks are numbers without the wrap of their machine types,
-- which they do not reach.
--
-- Fuel: `read_all` and `replay` loop while a chunk is read. Each chunk moves on by a byte at least, so
-- that the journal's end and one more is enough, which Replaying and Replay show. Every other loop is
-- by recursion on a tree or a list.
pub mod Base
pub mod Kukaku
pub mod Makimono
pub mod Tamotsu
pub mod TearTypes
pub mod TearCore
