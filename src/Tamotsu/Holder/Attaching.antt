-- ===== src/Tamotsu/Holder/Attaching.antt =====
-- tamotsu/src/holder.rs: a connection attaches, is refused, or takes the place of an earlier one.
use tear.Base.{ℕ, Bool, List, [], ◌∷◌, ◌++◌, map, Option, none, some, if◌then◌else◌, ◌==◌, max}
use tear.Makimono.Lease.{IoResult, ok, failed}
use tear.Makimono.Journal.{sync, sync_if_due}
use tear.Makimono.Journal.Reader.{Chunk}
use tear.Tamotsu.Proto.{FromHolder}
use tear.Tamotsu.Holder.{
  State, Writer, own, attached, silent, admit, refuse, leave_silent, admission, Traffic, no_traffic,
  retire_displaced, replay,
}

-- What the system answers to one attach: the sync, the clock, whether the journal can be read, and
-- the sends of the replay that go through before one fails.
pub record AttachIo : Type 0 where
  pub synced : Bool
  pub now : ℕ
  pub readable : Bool
  pub stops : Option ℕ

-- The connection's stream, out of its own hands or out of the state; none, where neither has it.
unfoldable pub take_stream : ℕ → Writer → State → Option State
take_stream id own st = some st
take_stream id silent st = none
take_stream id attached st = elim st.attached [
  | none ↦ none
  | some a ↦ if a.id == id then some (record st { attached = none }) else none
]

-- The authority once an incarnation is admitted.
abbrev pub raised : Option ℕ → Option ℕ → Option ℕ
raised none held = held
raised (some n) none = some n
raised (some n) (some held) = some (max held n)

abbrev pub frames : ℕ → List Chunk → List (ℕ × FromHolder)
frames id chunks = map (λ (c : Chunk). (id, FromHolder.bytes c.at c.bytes)) chunks

-- `Holder::attach` once the replay is done.
unfoldable pub attached_after :
    ℕ → Option ℕ → State → List Chunk → IoResult (Unit {0}) → State × Writer × Traffic
unfolding retire_displaced
attached_after id incarnation st chunks failed =
    (st, silent, record { sent = frames id chunks; shut = id ∷ [] })
attached_after id incarnation st chunks (ok u) =
    let retired : Traffic = elim st.attached [
      | none ↦ no_traffic
      | some previous ↦ retire_displaced previous incarnation
    ] in
    (
      record st {
        authority = raised incarnation st.authority;
        attached = some (record { id = id; incarnation = incarnation });
      },
      attached,
      record { sent = frames id chunks ++ retired.sent; shut = retired.shut },
    )

-- `Holder::attach` for a connection that is admitted.
unfoldable pub attach_admitted :
    AttachIo → ℕ → ℕ → Option ℕ → State → Option (State × Writer × Traffic)
unfolding sync replay attached_after
attach_admitted io id from incarnation st =
    let synced = record st { journal = (sync io.synced io.now st.journal).0 } in
    elim (replay io.readable io.stops from synced.journal) [
      | none ↦ none
      | some (chunks, result) ↦ some (attached_after id incarnation synced chunks result)
    ]

-- `Holder::attach`: the state, what the connection's writer is from then on, and the traffic. `none`
-- means that the fuel of the replay ran out.
unfoldable pub attach :
    AttachIo → ℕ → Writer → ℕ → Option ℕ → State → Option (State × Writer × Traffic)
unfolding take_stream admission attach_admitted
attach io id writer from incarnation st = elim (take_stream id writer st) [
  | none ↦ some (st, silent, no_traffic)
  | some taken ↦ elim (admission incarnation taken) [
    | refuse by ↦
        some (taken, silent, record { sent = (id, FromHolder.displaced by) ∷ []; shut = id ∷ [] })
    | leave_silent n ↦ some (taken, silent, no_traffic)
    | admit ↦ attach_admitted io id from incarnation taken
  ]
]

-- `Holder::serve` when the connection ends.
unfoldable pub leave : ℕ → State → State
leave id st = elim st.attached [
  | none ↦ st
  | some a ↦ if a.id == id then record st { attached = none } else st
]

-- One round of `Holder::tick` on the journal.
unfoldable pub tick : Bool → ℕ → State → State
unfolding sync_if_due
tick synced now st = record st { journal = (sync_if_due synced now st.journal).0 }
