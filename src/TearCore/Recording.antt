-- ===== src/TearCore/Recording.antt =====
-- tear-core/src/recording.rs: the recording of a pane's output, bounded in its events. The monotonic
-- clock is a number of milliseconds; the export as text is left out but for its time stamp.
pub mod Latest
mod Tests
use tear.Base.{
  ℕ, ◌+◌, ◌-◌, ◌/◌, List, [], ◌∷◌, ◌++◌, Option, none, some, if◌then◌else◌, leb, ◌==◌, min, length,
  take, drop,
}

pub record PaneEvent : Type 0 where
  pub ts_ms : ℕ
  pub bytes : List ℕ

-- `RecordingState`, which `PaneRecording` has behind a lock.
pub record RecordingState : Type 0 where
  pub started_at : Option ℕ
  pub started_at_unix_ms : Option ℕ
  pub events : List PaneEvent
  pub max_events : ℕ
  pub cols : ℕ
  pub rows : ℕ

-- `PaneRecording::new`
unfoldable pub new_recording : ℕ → RecordingState
new_recording max_events = record {
  started_at = none;
  started_at_unix_ms = none;
  events = [];
  max_events = max_events;
  cols = 80;
  rows = 24;
}

-- `PaneRecording::enable`
unfoldable pub enable : ℕ → ℕ → ℕ → ℕ → RecordingState → RecordingState
enable now now_unix_ms cols rows r = record r {
  started_at = some now;
  started_at_unix_ms = some now_unix_ms;
  events = [];
  cols = cols;
  rows = rows;
}

-- `PaneRecording::disable`
unfoldable pub disable : RecordingState → RecordingState
disable r = record r { started_at = none; started_at_unix_ms = none }

-- `VecDeque::pop_front`
abbrev pub pop_oldest : List PaneEvent → List PaneEvent
pop_oldest [] = []
pop_oldest (e ∷ events) = events

-- `PaneRecording::push`
unfoldable pub push : ℕ → List ℕ → RecordingState → RecordingState
push now bytes r = elim r.started_at [
  | none ↦ r
  | some start ↦ record r {
    events =
        (if length r.events == r.max_events then pop_oldest r.events else r.events)
        ++ (record { ts_ms = now - start; bytes = bytes } ∷ []);
  }
]

-- The place of the first event at a time or after it, or the end.
unfoldable pub cursor_at : ℕ → List PaneEvent → ℕ
cursor_at ts_ms [] = 0
cursor_at ts_ms (e ∷ events) = if leb ts_ms e.ts_ms then 0 else 1 + cursor_at ts_ms events

-- `PaneRecording::read_around`
unfoldable pub read_around : ℕ → ℕ → RecordingState → List PaneEvent
unfolding cursor_at
read_around ts_ms limit r =
    let start = cursor_at ts_ms r.events - limit / 2 in
    let stop = min (start + limit) (length r.events) in take (stop - start) (drop start r.events)

-- The `timestamp` in the header of `PaneRecording::to_cast_json`, in seconds.
unfoldable pub cast_timestamp : ℕ → RecordingState → ℕ
cast_timestamp now_unix_ms r = elim r.started_at_unix_ms [
  | none ↦ now_unix_ms / 1000
  | some ms ↦ ms / 1000
]

-- A call on a recording; each has the clock, and `enabled` the time of day and the pane's size.
pub data Call : Type 0 where
  enabled : ℕ → ℕ → ℕ → ℕ → Call
  disabled : Call
  pushed : ℕ → List ℕ → Call

unfoldable pub handle_call : Call → RecordingState → RecordingState
unfolding enable disable push
handle_call (enabled now now_unix_ms cols rows) r = enable now now_unix_ms cols rows r
handle_call disabled r = disable r
handle_call (pushed now bytes) r = push now bytes r

unfoldable pub handle_calls : List Call → RecordingState → RecordingState
unfolding handle_call
handle_calls [] r = r
handle_calls (call ∷ calls) r = handle_calls calls (handle_call call r)
