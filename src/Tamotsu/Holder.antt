-- ===== src/Tamotsu/Holder.antt =====
-- tamotsu/src/holder.rs: the state that a holder's threads share, as each call leaves it that has
-- the lock: the journal, the connection that is attached, and the highest incarnation admitted.
pub mod Attaching
pub mod Records
pub mod Replay
pub mod Authority
pub mod Catching
use tear.Base.{
  ℕ, zero, suc, ◌+◌, Bool, true, false, List, [], ◌∷◌, ◌++◌, map, Option, none, some, if◌then◌else◌,
  ltb, ◌==◌, max, length,
}
use tear.Makimono.Lease.{IoResult, ok, failed}
use tear.Makimono.Journal.{Journal, AppendIo, append, note_lost, end, sync}
use tear.Makimono.Journal.Reader.{Chunk, read_from}
use tear.Tamotsu.Proto.{FromHolder}

-- `Attached`. Its sink is the stream of the connection with its number.
pub record Attached : Type 0 where
  pub id : ℕ
  pub incarnation : Option ℕ

pub record State : Type 0 where
  pub journal : Journal
  pub attached : Option Attached
  pub authority : Option ℕ

pub data Writer : Type 0 where
  own attached silent : Writer

pub data Admission : Type 0 where
  admit : Admission
  refuse : ℕ → Admission
  leave_silent : ℕ → Admission

-- The incarnation of the connection that is attached.
abbrev pub holding : Option Attached → Option ℕ
holding none = none
holding (some a) = a.incarnation

-- `State::admission`
unfoldable pub admission : Option ℕ → State → Admission
admission (some n) st = elim st.authority [
  | none ↦ admit
  | some by ↦ if ltb n by then refuse by else admit
]
admission none st = elim (holding st.attached) [ none ↦ admit | some n ↦ leave_silent n ]

-- `State::retire_failed`: the connection that it shuts down.
unfoldable pub retire_failed : State → State × Option ℕ
retire_failed st = elim st.attached [
  | none ↦ (st, none)
  | some a ↦ (record st { attached = none }, some a.id)
]

-- The messages that a call sends, each to a connection, and the connections that it shuts down.
pub record Traffic : Type 0 where
  pub sent : List (ℕ × FromHolder)
  pub shut : List ℕ

abbrev pub no_traffic : Traffic
no_traffic = record { sent = []; shut = [] }

-- `retire_displaced`: a connection of an older incarnation is told, one of the same is shut down, and
-- one that declared none stays open.
unfoldable pub retire_displaced : Attached → Option ℕ → Traffic
retire_displaced previous by = elim previous.incarnation [
  | none ↦ no_traffic
  | some was ↦ elim by [
    | none ↦ record { sent = []; shut = previous.id ∷ [] }
    | some now ↦ record {
      sent = if ltb was now then (previous.id, FromHolder.displaced now) ∷ [] else [];
      shut = previous.id ∷ [];
    }
  ]
]

-- The journal's part of `Holder::ingest`.
unfoldable pub record_bytes : AppendIo → List ℕ → Journal → Journal × IoResult (Unit {0})
record_bytes io bytes j =
    let (after, result) = append io bytes j in
    elim result [ ok u ↦ (after, ok tt) | failed ↦ (note_lost (length bytes) after, failed) ]

-- `Holder::ingest`: the state, and what goes to the connection that is attached. `send_ok` is the
-- answer of its stream.
unfoldable pub ingest : AppendIo → Bool → List ℕ → State → State × Traffic
unfolding record_bytes retire_failed
ingest io send_ok bytes st =
    let at = end st.journal in
    let kept = record st { journal = (record_bytes io bytes st.journal).0 } in
    elim st.attached [
      | none ↦ (kept, no_traffic)
      | some a ↦
          if send_ok
          then (kept, record { sent = (a.id, FromHolder.bytes at bytes) ∷ []; shut = [] })
          else ((retire_failed kept).0, record { sent = []; shut = a.id ∷ [] })
    ]

abbrev pub replay_chunk : ℕ
replay_chunk = 262144

-- The sends that go through after one more, or none where it fails. `some n`: the n-th send fails.
abbrev pub after_send : Option ℕ → Option (Option ℕ)
after_send none = some none
after_send (some zero) = none
after_send (some (suc n)) = some (some n)

abbrev pub sent_before :
    Chunk → Option (List Chunk × IoResult (Unit {0})) → Option (List Chunk × IoResult (Unit {0}))
sent_before chunk none = none
sent_before chunk (some (chunks, result)) = some (chunk ∷ chunks, result)

-- The loop of `replay`: the chunks that it sends. A journal that cannot be read ends it as its end
-- does. `none` means that the fuel ran out.
unfoldable pub replay_onward :
    ℕ → Bool → Journal → Option ℕ → ℕ → Option (List Chunk × IoResult (Unit {0}))
unfolding read_from
replay_onward zero readable j stops at = none
replay_onward (suc fuel) readable j stops at = elim (read_from readable at replay_chunk j) [
  | failed ↦ some ([], ok tt)
  | ok found ↦ elim found [
    | none ↦ some ([], ok tt)
    | some chunk ↦ elim (after_send stops) [
      | none ↦ some ([], failed)
      | some left ↦
          sent_before chunk (replay_onward fuel readable j left (chunk.at + length chunk.bytes))
    ]
  ]
]

-- `replay`. Each round moves on by a byte at least, so that the end bounds the rounds.
unfoldable pub replay : Bool → Option ℕ → ℕ → Journal → Option (List Chunk × IoResult (Unit {0}))
unfolding replay_onward end
replay readable stops from j = replay_onward (suc (end j)) readable j stops from
