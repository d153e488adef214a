-- ===== src/Tamotsu/Held/Losing.antt =====
-- tamotsu/src/held.rs and authority.rs: what a daemon that follows a pane does once another daemon has
-- the session store.
use tear.Base.{
  ℕ, List, [], ◌∷◌, some, ◌≡◌, ◌≢◌, inl, inr, refl, true, false, arith, Any, Bool-cases, ◌∙◌, sym,
  subst, ap,
}
use tear.Makimono.Lease.{Lease, LeaseDoc, LeaseIo, IoResult, ok, failed}
use tear.Tamotsu.Proto.{FromHolder}
use tear.Tamotsu.Authority.{Authority, Verdict, retry, holds, displaced}
use tear.Tamotsu.Held.Repair.{World, require}
use tear.Tamotsu.Held.Follow.{
  FollowIo, Follower, following, relink, unlink, after_verdict, on_message, follow, follow_done,
  follow_round,
}

-- An authority that was lost.
record IsLost (a : Authority) : Type 0 where
  lease : Lease
  leased : a.lease ≡ some lease
  lost : a.lost ≡ true

require_lost :
    (changes : LeaseDoc → LeaseDoc) (w : World)
    → IsLost w.authority
    → ((require changes w).1 ≡ false) × ((require changes w).0.authority ≡ w.authority)
unfolding require holds
require_lost changes w l = ground (arith, l.leased, l.lost)

displaced_lost :
    (io : LeaseIo) (by : ℕ) (doc : LeaseDoc) (a : Authority)
    → IsLost a
    → displaced io by doc a ≡ (doc, a, Verdict.lost)
unfolding displaced
displaced_lost io by doc a l = simp l.lost

-- From `f` to `g` no holder was launched, no connection attached, and the authority is as it was.
abbrev pub IsQuiet : Follower → Follower → Type 0
IsQuiet f g =
    (g.launched ≡ f.launched) × (g.asked ≡ f.asked) × (g.world.authority ≡ f.world.authority)

abbrev IsDone : Follower → Type 0
IsDone f = f.phase ≢ following

relink_lost :
    (io : FollowIo) (f : Follower)
    → IsLost f.world.authority
    → IsQuiet f (relink io f) × IsDone (relink io f)
unfolding relink
relink_lost io f l =
    let (denied, same) = require_lost io.checking f.world l in
    rw denied ((refl, refl, same), λ h. cc)

unlink_lost :
    (io : FollowIo) (f : Follower)
    → IsLost f.world.authority
    → IsQuiet f (unlink io f) × IsDone (unlink io f)
unfolding unlink
unlink_lost io f l = ground (arith, relink_lost io (record f { linked = false }) l)

after_verdict_lost :
    (io : FollowIo) (v : LeaseDoc × Authority × Verdict) (f : Follower)
    → v.2 ≡ Verdict.lost
    → v.1 ≡ f.world.authority
    → IsQuiet f (after_verdict io v f)
unfolding after_verdict
after_verdict_lost io (doc, authority, Verdict.lost) f e same = (refl, refl, same)
after_verdict_lost io (doc, authority, retry) f e same = cc

on_message_lost :
    (io : FollowIo) (read : IoResult FromHolder) (f : Follower)
    → IsLost f.world.authority
    → IsQuiet f (on_message io read f) × (read ≡ failed → IsDone (on_message io read f))
unfolding on_message
on_message_lost io (ok (FromHolder.bytes at bytes)) f l = ((refl, refl, refl), λ h. cc)
on_message_lost io (ok (FromHolder.exited ending)) f l = ((refl, refl, refl), λ h. cc)
on_message_lost io (ok (FromHolder.displaced by)) f l = elim (Bool-cases io.detached) [
  | inl dropped ↦ simp dropped ((refl, refl, refl), λ h. cc)
  | inr attached ↦
      simp (attached, displaced_lost io.raising by (io.displacing f.world.doc) f.world.authority l)
        (after_verdict_lost io (_, f.world.authority, Verdict.lost) f refl refl, λ h. cc)
]
on_message_lost io (ok (FromHolder.hello proto pid child_pid)) f l = ((refl, refl, refl), λ h. cc)
on_message_lost io (ok (FromHolder.status s)) f l = ((refl, refl, refl), λ h. cc)
on_message_lost io (ok (FromHolder.refused reason)) f l = ((refl, refl, refl), λ h. cc)
on_message_lost io failed f l = let (still, done) = unlink_lost io f l in (still, λ h. done)

-- Some read fails.
abbrev pub AnyFails : List (FollowIo × IoResult FromHolder) → Type 0
AnyFails = Any (λ (round : FollowIo × IoResult FromHolder). round.1 ≡ failed)

follow_lost :
    (rounds : List (FollowIo × IoResult FromHolder)) (f : Follower)
    → IsLost f.world.authority
    → IsQuiet f (follow rounds f) × (AnyFails rounds → IsDone (follow rounds f))
unfolding follow
follow_lost [] f l = ((refl, refl, refl), λ none_fails. absurd none_fails)
follow_lost ((io, read) ∷ more) f l =
    let after = on_message io read f in
    let (quiet, ended) = on_message_lost io read f l in
    let (still, done) = follow_lost more after (subst IsLost (sym quiet.2) l) in
    elim (follow_round io read more f) [
      | inl (on, e) ↦ rw e (
        (still.0 ∙ quiet.0, still.1 ∙ quiet.1, still.2 ∙ quiet.2),
        λ any. elim any [
          | inl now ↦ λ h.
              ended now
                (ap (λ (g : Follower). g.phase) (sym (follow_done more after (ended now))) ∙ h)
          | inr later ↦ done later
        ],
      )
      | inr (over, e) ↦ rw e ((refl, refl, refl), λ any. over)
    ]

-- A daemon whose authority is lost, while it follows a pane on whatever it reads: it starts no holder
-- for it and attaches to none, what it knows of the lease stays, and so it tells no callback again;
-- and the first read that fails ends its loop.
pub follow-Retires :
    (rounds : List (FollowIo × IoResult FromHolder)) (f : Follower) (lease : Lease)
    → f.world.authority.lease ≡ some lease
    → f.world.authority.lost ≡ true
    → (follow rounds f).launched ≡ f.launched
      × ((follow rounds f).asked ≡ f.asked)
      × ((follow rounds f).world.authority ≡ f.world.authority)
      × (AnyFails rounds → (follow rounds f).phase ≢ following)
follow-Retires rounds f lease leased lost =
    let l : IsLost f.world.authority = record { lease = lease; leased = leased; lost = lost } in
    let (quiet, done) = follow_lost rounds f l in (quiet.0, quiet.1, quiet.2, done)
