-- ===== src/Tamotsu/Held/Repair.antt =====
-- tamotsu/src/held.rs: `repair`, with which a daemon that has lost the connection to a holder gets
-- one again, from the same holder or from one that it starts. The directory in which a new holder
-- starts and the count in the pane's metadata are left out.
use tear.Base.{
  ℕ, zero, suc, ◌-◌, Bool, List, [], ◌∷◌, ◌++◌, Option, none, some, if◌then◌else◌, ltb, leb, ◌&&◌,
  length,
}
use tear.Makimono.Lease.{LeaseDoc, IoResult, ok, failed}
use tear.Tamotsu.Authority.{Authority, declared, holds}

-- The lease document, which other daemons write too, and the daemon's authority.
pub record World : Type 0 where
  pub doc : LeaseDoc
  pub authority : Authority

-- `Authority::require`, after the other daemons have made `changes` of the document.
unfoldable pub require : (LeaseDoc → LeaseDoc) → World → World × Bool
unfolding holds
require changes w =
    let (after, held) = holds (changes w.doc) w.authority in
    (record { doc = changes w.doc; authority = after }, held)

-- One round of the loop: what becomes of the document before it, whether the holder's socket takes
-- a connection, and whether the handshake on it succeeds.
pub record TryIo : Type 0 where
  pub changes : LeaseDoc → LeaseDoc
  pub connects : Bool
  pub greets : Bool

pub data Tried : Type 0 where
  back denied gone : Tried

abbrev pub reconnect_tries : ℕ
reconnect_tries = 3

-- The loop over `RECONNECT_TRIES`, by the rounds left.
unfoldable pub reconnect : ℕ → (ℕ → TryIo) → World → World × Tried
reconnect zero tries w = (w, gone)
reconnect (suc left) tries w =
    let io = tries left in
    let (after, held) = require io.changes w in
    let rest = reconnect left tries after in
    if held then (if io.connects && io.greets then (after, back) else rest) else (after, denied)

-- `REVIVE_WINDOW`, in nanoseconds, and `REVIVE_BUDGET`.
abbrev pub revive_window : ℕ
revive_window = 60000000000

abbrev pub revive_budget : ℕ
revive_budget = 5

-- The revivals that still count.
unfoldable pub recent_revivals : ℕ → List ℕ → List ℕ
recent_revivals now [] = []
recent_revivals now (t ∷ ts) =
    let rest = recent_revivals now ts in if ltb revive_window (now - t) then rest else t ∷ ts

-- The document before the check, the time, whether the new holder's process starts, the end of its
-- journal once it answers, and whether the handshake with it succeeds.
pub record ReviveIo : Type 0 where
  pub changes : LeaseDoc → LeaseDoc
  pub now : ℕ
  pub spawned : Bool
  pub ready : Option ℕ
  pub greets : Bool

pub record RepairIo : Type 0 where
  pub tries : ℕ → TryIo
  pub revive : ReviveIo

-- What a call of `repair` leaves: its `next` and `revivals`, the times at which it set out to start
-- a holder, the `Attach` messages that were sent in a handshake that succeeded, and its result.
pub record Repaired : Type 0 where
  pub world : World
  pub next_offset : ℕ
  pub revivals : List ℕ
  pub launched : List ℕ
  pub asked : List (ℕ × Option ℕ)
  pub result : IoResult (Unit {0})

-- A repair that ends with no connection.
abbrev pub unrepaired : World → ℕ → List ℕ → List ℕ → Repaired
unrepaired w next revivals launched = record {
  world = w;
  next_offset = next;
  revivals = revivals;
  launched = launched;
  asked = [];
  result = failed;
}

-- A handshake that succeeds at `next`.
abbrev pub attached_at : World → ℕ → List ℕ → List ℕ → Repaired
attached_at w next revivals launched = record {
  world = w;
  next_offset = next;
  revivals = revivals;
  launched = launched;
  asked = (next, declared w.authority) ∷ [];
  result = ok tt;
}

-- The end of `repair`, from `spawn_holder` on: a journal that ends earlier takes `next` back.
unfoldable pub launch : ReviveIo → World → ℕ → List ℕ → Repaired
launch io w next revivals =
    let at = io.now ∷ [] in
    if io.spawned
    then elim io.ready [
      | none ↦ unrepaired w next revivals at
      | some end ↦
          let from = if ltb end next then end else next in
          if io.greets then attached_at w from revivals at else unrepaired w from revivals at
    ]
    else unrepaired w next revivals at

-- `repair` once the tries have failed.
unfoldable pub revive : ReviveIo → World → ℕ → List ℕ → Repaired
revive io w next revivals =
    let (after, held) = require io.changes w in
    let recent = recent_revivals io.now revivals in
    if held
    then (if leb revive_budget (length recent)
        then unrepaired after next recent []
        else launch io after next (recent ++ (io.now ∷ [])))
    else unrepaired after next revivals []

-- `repair`
unfoldable pub repair : RepairIo → World → ℕ → List ℕ → Repaired
repair io w next revivals =
    let (after, tried) = reconnect reconnect_tries io.tries w in
    elim tried [
      | back ↦ attached_at after next revivals []
      | denied ↦ unrepaired after next revivals []
      | gone ↦ revive io.revive after next revivals
    ]
