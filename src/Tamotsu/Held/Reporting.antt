-- ===== src/Tamotsu/Held/Reporting.antt =====
-- tamotsu/src/held.rs: when a daemon that follows a pane calls `on_exit`, and with what.
use tear.Base.{
  List, [], ◌∷◌, Option, none, some, ◌≡◌, ◌⊎◌, inl, inr, refl, true, false, arith, Any, Bool-cases,
  ◌∙◌,
}
use tear.Base.Int.{ℤ}
use tear.Makimono.Lease.{LeaseDoc, IoResult, ok, failed}
use tear.TearCore.Runtime.{Ending}
use tear.Tamotsu.Proto.{FromHolder}
use tear.Tamotsu.Authority.{Authority, Verdict, retry, holds, displaced}
use tear.Tamotsu.Held.Repair.{World, require, Repaired, repair}
use tear.Tamotsu.Held.Follow.{
  FollowIo, Follower, following, reported, recorded_ending, exit_code, after_repair, relink, unlink,
  after_verdict, on_message, follow, follow_round, follow_done, following-cases,
}

-- An ending with the code, as it was found in one place.
abbrev pub EndsWith : Option ℤ → Option Ending → Type 0
EndsWith code found = (ending : Ending) × (found ≡ some ending) × (exit_code ending ≡ code)

-- The ending that the holder told in a message.
abbrev pub told_ending : IoResult FromHolder → Option Ending
told_ending (ok (FromHolder.exited ending)) = some ending
told_ending _ = none

-- In the round the holder tells the ending, or the pane's tombstone has it.
abbrev pub Tells : Option ℤ → FollowIo × IoResult FromHolder → Type 0
Tells code (io, read) =
    EndsWith code (told_ending read) ⊎ EndsWith code (recorded_ending io.tombstone)

-- The daemon gave the pane up: there is no code, no link, and the daemon holds the store.
pub record IsGivenUp (code : Option ℤ) (f : Follower) : Type 0 where
  pub no_code : code ≡ none
  pub cut : f.linked ≡ false
  pub holding : (holds f.world.doc f.world.authority).1 ≡ true

require_again :
    (changes : LeaseDoc → LeaseDoc) (w : World)
    → (require changes w).1 ≡ true
    → (holds (require changes w).0.doc (require changes w).0.authority).1 ≡ true
unfolding require holds
require_again changes w h = ground arith

after_repair-Reports :
    (io : FollowIo) (r : Repaired) (f : Follower) (code : Option ℤ)
    → f.phase ≡ following
    → f.linked ≡ false
    → (after_repair io r f).phase ≡ reported code
    → IsGivenUp code (after_repair io r f)
unfolding after_repair
after_repair-Reports io r f code on cut e = ground (arith, require_again io.rechecking r.world)

relink-Reports :
    (io : FollowIo) (f : Follower) (code : Option ℤ)
    → f.phase ≡ following
    → f.linked ≡ false
    → (relink io f).phase ≡ reported code
    → IsGivenUp code (relink io f)
unfolding relink
relink-Reports io f code on cut e =
    let after = (require io.checking f.world).0 in
    let r = repair io.repairing after f.follows.next_offset f.revivals in
    ground (arith, after_repair-Reports io r (record f { world = after }) code)

unlink-Reports :
    (io : FollowIo) (f : Follower) (code : Option ℤ)
    → f.phase ≡ following
    → (unlink io f).phase ≡ reported code
    → EndsWith code (recorded_ending io.tombstone) ⊎ IsGivenUp code (unlink io f)
unfolding unlink
unlink-Reports io f code on e = elim (Bool-cases io.detached_then) [
  | inl dropped ↦ absurd (ground arith)
  | inr still ↦ found (recorded_ending io.tombstone) refl
]
  where
    found :
        (ending : Option Ending)
        → recorded_ending io.tombstone ≡ ending
        → EndsWith code (recorded_ending io.tombstone) ⊎ IsGivenUp code (unlink io f)
    found none missing = inr (ground (arith, relink-Reports io (record f { linked = false }) code))
    found (some ending) there = inl (ending, there, ground arith)

after_verdict-Reports :
    (io : FollowIo) (v : LeaseDoc × Authority × Verdict) (f : Follower) (code : Option ℤ)
    → f.phase ≡ following
    → (after_verdict io v f).phase ≡ reported code
    → EndsWith code (recorded_ending io.tombstone) ⊎ IsGivenUp code (after_verdict io v f)
unfolding after_verdict
after_verdict-Reports io (doc, authority, Verdict.lost) f code on e = absurd (ground arith)
after_verdict-Reports io (doc, authority, retry) f code on e = unlink-Reports io _ code on e

on_message-Reports :
    (io : FollowIo) (read : IoResult FromHolder) (f : Follower) (code : Option ℤ)
    → f.phase ≡ following
    → (on_message io read f).phase ≡ reported code
    → Tells code (io, read) ⊎ IsGivenUp code (on_message io read f)
unfolding on_message
on_message-Reports io (ok (FromHolder.bytes at bytes)) f code on e = absurd (ground arith)
on_message-Reports io (ok (FromHolder.exited ending)) f code on e =
    inl (inl (ending, refl, ground arith))
on_message-Reports io (ok (FromHolder.displaced by)) f code on e =
    let found =
      after_verdict-Reports io
        (displaced io.raising by (io.displacing f.world.doc) f.world.authority) f code on in
    ground (arith, found)
on_message-Reports io (ok (FromHolder.hello proto pid child_pid)) f code on e =
    absurd (ground arith)
on_message-Reports io (ok (FromHolder.status s)) f code on e = absurd (ground arith)
on_message-Reports io (ok (FromHolder.refused reason)) f code on e = absurd (ground arith)
on_message-Reports io failed f code on e = elim (unlink-Reports io f code on e) [
  | inl there ↦ inl (inr there)
  | inr given_up ↦ inr given_up
]

-- A daemon follows a pane on whatever it reads. Where it reports an exit, then the holder told an
-- ending with that code in some message or the pane's tombstone had one with that code; or it
-- reports no code, has no link to a holder, and holds the store.
pub follow-Reports :
    (rounds : List (FollowIo × IoResult FromHolder)) (f : Follower) (code : Option ℤ)
    → f.phase ≡ following
    → (follow rounds f).phase ≡ reported code
    → Any (Tells code) rounds ⊎ IsGivenUp code (follow rounds f)
unfolding follow
follow-Reports [] f code on e = absurd (ground arith)
follow-Reports ((io, read) ∷ more) f code on e =
    let after = on_message io read f in
    elim (follow_round io read more f) [
      | inl (_, round) ↦ elim (following-cases after.phase) [
        | inl goes_on ↦ elim (follow-Reports more after code goes_on (rw round at e)) [
          | inl told ↦ inl (inr told)
          | inr given_up ↦ inr (rw round given_up)
        ]
        | inr done ↦
            let same = round ∙ follow_done more after done in
            elim (on_message-Reports io read f code on (rw same at e)) [
              | inl told ↦ inl (inl told)
              | inr given_up ↦ inr (rw same given_up)
            ]
      ]
      | inr (over, _) ↦ absurd (over on)
    ]
