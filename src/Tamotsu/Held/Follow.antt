-- ===== src/Tamotsu/Held/Follow.antt =====
-- tamotsu/src/held.rs: `follow`, the loop of the daemon's side over what it reads from a holder and
-- over the connections that it gets when one is lost.
use tear.Base.{
  ℕ, Bool, true, false, List, [], ◌∷◌, ◌++◌, Option, none, some, if◌then◌else◌, ◌≡◌, ◌≢◌, ◌⊎◌, inl,
  inr, refl, arith,
}
use tear.Base.Int.{ℤ}
use tear.Makimono.Lease.{LeaseDoc, IoResult, ok, failed, LeaseIo}
use tear.TearCore.Runtime.{Ending, exited, ended_by_control}
use tear.Tamotsu.Proto.{FromHolder}
use tear.Tamotsu.Authority.{Authority, Verdict, retry, displaced}
use tear.Tamotsu.Held.{Following, follow_bytes}
use tear.Tamotsu.Held.Repair.{World, require, RepairIo, Repaired, repair}

-- `Ending::exit_code`
abbrev pub exit_code : Ending → Option ℤ
exit_code (exited code) = code
exit_code (ended_by_control at_unix) = none

-- Whether the loop goes on, has returned, or has returned by a call of `on_exit`.
pub data Phase : Type 0 where
  following returned : Phase
  reported : Option ℤ → Phase

-- The variables of `follow`, its link, and what its repairs have done, the earliest first.
pub record Follower : Type 0 where
  pub follows : Following
  pub world : World
  pub linked : Bool
  pub revivals : List ℕ
  pub launched : List ℕ
  pub asked : List (ℕ × Option ℕ)
  pub phase : Phase

-- What one round meets: the three reads of `detached`, what the other daemons make of the document
-- before each look at it, the answers to `raise_above`, and the tombstone as it is read.
pub record FollowIo : Type 0 where
  pub detached : Bool
  pub displacing : LeaseDoc → LeaseDoc
  pub raising : LeaseIo
  pub detached_then : Bool
  pub tombstone : IoResult (Option Ending)
  pub checking : LeaseDoc → LeaseDoc
  pub repairing : RepairIo
  pub detached_since : Bool
  pub rechecking : LeaseDoc → LeaseDoc

abbrev pub ends : Phase → Follower → Follower
ends phase f = record f { phase = phase }

-- The ending that a pane's tombstone records.
abbrev pub recorded_ending : IoResult (Option Ending) → Option Ending
recorded_ending failed = none
recorded_ending (ok found) = found

-- The match on the result of `repair`.
unfoldable pub after_repair : FollowIo → Repaired → Follower → Follower
after_repair io r f =
    let tried = record f {
      follows = record f.follows { next_offset = r.next_offset };
      world = r.world;
      revivals = r.revivals;
      launched = f.launched ++ r.launched;
      asked = f.asked ++ r.asked;
    } in
    elim r.result [
      | ok u ↦ if io.detached_since then ends returned tried else record tried { linked = true }
      | failed ↦
          let (after, held) = require io.rechecking tried.world in
          ends (if held then reported none else returned) (record tried { world = after })
    ]

-- The loop's body once the connection is lost and no tombstone is read.
unfoldable pub relink : FollowIo → Follower → Follower
relink io f =
    let (after, held) = require io.checking f.world in
    let checked = record f { world = after } in
    if held
    then after_repair io (repair io.repairing after f.follows.next_offset f.revivals) checked
    else ends returned checked

-- The loop's body behind the match on what was read.
unfoldable pub unlink : FollowIo → Follower → Follower
unlink io f =
    let cut = record f { linked = false } in
    if io.detached_then then ends returned f else elim (recorded_ending io.tombstone) [
      | some ending ↦ ends (reported (exit_code ending)) cut
      | none ↦ relink io cut
    ]

-- The arm for `FromHolder::Displaced`, on the verdict of `displaced`.
unfoldable pub after_verdict : FollowIo → LeaseDoc × Authority × Verdict → Follower → Follower
after_verdict io (doc, authority, Verdict.lost) f = record f {
  world = record { doc = doc; authority = authority };
  linked = false;
  phase = returned;
}
after_verdict io (doc, authority, retry) f =
    unlink io (record f { world = record { doc = doc; authority = authority } })

-- The match on what was read.
unfoldable pub on_message : FollowIo → IoResult FromHolder → Follower → Follower
on_message io (ok (FromHolder.bytes at bytes)) f = record f {
  follows = follow_bytes f.follows (record { at = at; bytes = bytes });
}
on_message io (ok (FromHolder.exited ending)) f = ends (reported (exit_code ending)) f
on_message io (ok (FromHolder.displaced by)) f =
    if io.detached
    then ends returned f
    else after_verdict io (displaced io.raising by (io.displacing f.world.doc) f.world.authority) f
on_message io (ok (FromHolder.hello proto pid child_pid)) f = f
on_message io (ok (FromHolder.status s)) f = f
on_message io (ok (FromHolder.refused reason)) f = f
on_message io failed f = unlink io f

-- `follow`, over what each round meets and reads.
unfoldable pub follow : List (FollowIo × IoResult FromHolder) → Follower → Follower
follow [] f = f
follow ((io, read) ∷ more) f = elim f.phase [
  | following ↦ follow more (on_message io read f)
  | _ ↦ f
]

-- A round is run just when the loop goes on.
pub follow_round :
    (io : FollowIo) (read : IoResult FromHolder) (more : List (FollowIo × IoResult FromHolder))
    (f : Follower)
    → (f.phase ≡ following) × (follow ((io, read) ∷ more) f ≡ follow more (on_message io read f))
      ⊎ (f.phase ≢ following) × (follow ((io, read) ∷ more) f ≡ f)
unfolding follow
follow_round io read more f = at f.phase refl
  where
    at :
        (phase : Phase)
        → f.phase ≡ phase
        → (f.phase ≡ following)
            × (follow ((io, read) ∷ more) f ≡ follow more (on_message io read f))
          ⊎ (f.phase ≢ following) × (follow ((io, read) ∷ more) f ≡ f)
    at following e = inl (e, ground arith)
    at returned e = inr (λ h. cc, ground arith)
    at (reported code) e = inr (λ h. cc, ground arith)

-- A loop that has returned stays so.
pub follow_done :
    (rounds : List (FollowIo × IoResult FromHolder)) (f : Follower)
    → f.phase ≢ following
    → follow rounds f ≡ f
unfolding follow
follow_done [] f done = refl
follow_done ((io, read) ∷ more) f done = elim (follow_round io read more f) [
  | inl (on, e) ↦ absurd (done on)
  | inr (over, e) ↦ e
]

pub following-cases : (phase : Phase) → (phase ≡ following) ⊎ (phase ≢ following)
following-cases following = inl refl
following-cases returned = inr (λ h. cc)
following-cases (reported code) = inr (λ h. cc)

-- The beginning of `follow`, on a connection that has attached at the journal's start.
abbrev pub start_following : World → Follower
start_following w = record {
  follows = record { next_offset = 0; handed_on = [] };
  world = w;
  linked = true;
  revivals = [];
  launched = [];
  asked = [];
  phase = following;
}
