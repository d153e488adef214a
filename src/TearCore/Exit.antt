-- ===== src/TearCore/Exit.antt =====
-- tear-core/src/inproc.rs, `pane_callbacks`: what the reader of a pane's terminal does when the
-- child exits. The steps between the locks run as one.
pub mod Validity
pub mod Safety
pub mod Reaping
use tear.Base.{
  ℕ, Bool, true, false, ◌&&◌, ◌||◌, not, List, [], ◌∷◌, Option, none, some, if◌then◌else◌, ◌==◌,
  is_some,
}
use tear.Base.Int.{ℤ, minus_one}
use tear.Base.Maps.{
  BTreeMap, get, insert, remove, modify, contains_key, keys, find_first, modify_first,
}
use tear.TearTypes.Pane.{PaneState}
use tear.TearTypes.Session.{TearSession}
use tear.TearCore.Closing.{all_exited, witness, reap_proven_dead}
use tear.TearCore.Runtime.{
  InProcess, PaneSubscribers, no_subscribers, exited, SystemIo, write_tombstone,
}

-- `senders.is_empty()`, negated.
abbrev pub watched_by : List ℕ → Bool
watched_by [] = false
watched_by (sender ∷ more) = true

-- `code.unwrap_or(-1)`
abbrev pub exit_status : Option ℤ → ℤ
exit_status none = minus_one
exit_status (some code) = code

-- `subs.entry(pane_id).or_default()`
abbrev pub entry_or_default : Option PaneSubscribers → PaneSubscribers
entry_or_default none = no_subscribers
entry_or_default (some ps) = ps

-- Whether a pane of the session other than this one has a subscriber.
unfoldable pub sibling_watched : ℕ → BTreeMap PaneSubscribers → List ℕ → Bool
sibling_watched id subs [] = false
sibling_watched id subs (p ∷ more) =
    not (p == id) && watched_by (entry_or_default (get p subs)).senders
    || sibling_watched id subs more

-- The subscribers' entry of the pane, and whether it was watched.
unfoldable pub close_stream :
    ℕ → ℤ → Bool → BTreeMap PaneSubscribers → BTreeMap PaneSubscribers × Bool
close_stream id code true subs = (
  insert id (record { closed = some code; senders = [] }) subs,
  watched_by (entry_or_default (get id subs)).senders,
)
close_stream id code false subs = (remove id subs, true)

module _ {Num : Type 0} where
  -- The mark on the pane's record.
  unfoldable pub mark_exited : ℕ → ℤ → TearSession Num → TearSession Num
  mark_exited id code s = record s {
    panes = modify id (λ p. record p { state = PaneState.exited code }) s.panes;
  }

  abbrev pub holds_pane : ℕ → TearSession Num → Bool
  holds_pane id s = contains_key id s.panes

  -- The session whose last child this was, if it was.
  abbrev pub fully_exited : ℕ → ℤ → Option (ℕ × TearSession Num) → Option ℕ
  fully_exited id code none = none
  fully_exited id code (some (sid, s)) =
      if all_exited (mark_exited id code s).panes then some s.id else none

  -- Whether some other pane of a session that has fully exited is watched.
  abbrev pub session_watched : ℕ → BTreeMap PaneSubscribers → Option (TearSession Num) → Bool
  session_watched id subs none = false
  session_watched id subs (some s) = sibling_watched id subs (keys s.panes)

  -- The session is looked at once more for the proof that the reaper takes.
  unfoldable pub reap_if_dead : ℕ → InProcess Num → InProcess Num
  unfolding reap_proven_dead
  reap_if_dead sid st = elim (get sid st.registry) [
    | none ↦ st
    | some s ↦ elim (witness s) [ none ↦ st | some dead ↦ (reap_proven_dead dead st).0 ]
  ]

  -- The steps of `on_exit` up to the end of the pane's stream, with whether the pane was watched;
  -- `held` says whether the pane was spawned with a tombstone to write.
  unfoldable pub end_pane : SystemIo → Bool → ℕ → Option ℤ → InProcess Num → InProcess Num × Bool
  unfolding write_tombstone
  end_pane io held id code st =
      let status = exit_status code in
      let tombstones =
        if held then write_tombstone io id (exited code) st.tombstones else st.tombstones in
      let present = is_some (find_first (holds_pane id) st.registry) in
      let registry = modify_first (holds_pane id) (mark_exited id status) st.registry in
      let (subs, watched) = close_stream id status present st.subscribers in
      (record st { tombstones = tombstones; registry = registry; subscribers = subs }, watched)

  -- Its last step: a session whose children have all exited goes, unless a pane was watched.
  unfoldable pub reap_unwatched : Option ℕ → ℕ → Bool → InProcess Num → InProcess Num
  reap_unwatched none id watched st = st
  reap_unwatched (some sid) id watched st =
      if watched || session_watched id st.subscribers (get sid st.registry)
      then st
      else reap_if_dead sid st

  -- `on_exit`
  unfoldable pub on_exit : SystemIo → Bool → ℕ → Option ℤ → InProcess Num → InProcess Num
  on_exit io held id code st =
      let (st', watched) = end_pane io held id code st in
      let found = find_first (holds_pane id) st.registry in
      reap_unwatched (fully_exited id (exit_status code) found) id watched st'
