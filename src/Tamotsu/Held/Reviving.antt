-- ===== src/Tamotsu/Held/Reviving.antt =====
-- tamotsu/src/held.rs: how often a daemon that follows a pane starts a holder for it.
use tear.Base.{
  ℕ, ◌+◌, ◌≤◌, ◌<◌, ◌≡◌, refl, Bool, true, false, List, [], ◌∷◌, ◌++◌, arith, All, All-imp,
  All-append, count_if, count_if-append, append-nil, ◌⊎◌, leb→le, length, length-append, leb, ltb,
  ◌&&◌, ◌-◌, inl, inr, ap, Bool-cases, sym, ◌∙◌,
}
use mathlib.Core.List.{append_assoc}
use tear.Makimono.Lease.{LeaseDoc, IoResult, ok, failed}
use tear.Tamotsu.Proto.{FromHolder}
use tear.Tamotsu.Authority.{Authority, Verdict, retry}
use tear.Tamotsu.Held.Repair.{
  World, require, reconnect, reconnect_tries, revive_window, revive_budget, recent_revivals,
  ReviveIo, RepairIo, Repaired, Tried, back, denied, gone, launch, revive, repair,
}
use tear.Tamotsu.Held.Follow.{
  FollowIo, Follower, after_repair, relink, unlink, after_verdict, on_message, follow, follow_round,
  start_following,
}

-- The times within a window that begins at `from`.
abbrev pub within : ℕ → ℕ → Bool
within from t = leb from t && leb t (from + revive_window)

-- The launches up to `now`: those that no longer count, and those that the list of revivals keeps.
record IsPaced (launched revivals : List ℕ) (now : ℕ) : Type 0 where
  old : List ℕ
  split : launched ≡ old ++ revivals
  past : All (λ t. t + revive_window < now) old
  few : length revivals ≤ revive_budget
  paced : (from : ℕ) → count_if (within from) launched ≤ revive_budget

count_if-le : (p : ℕ → Bool) (ts : List ℕ) → count_if p ts ≤ length ts
count_if-le p [] = omega arith
count_if-le p (t ∷ ts) = ground (arith, count_if-le p ts)

-- Times that are past at `now` are in no window that reaches to it.
none_within :
    (from now : ℕ) (ts : List ℕ)
    → now ≤ from + revive_window
    → All (λ t. t + revive_window < now) ts
    → count_if (within from) ts ≡ 0
none_within from now [] h past = refl
none_within from now (t ∷ ts) h past = ground (arith, none_within from now ts)

-- What `recent_revivals` drops is past.
record IsRecent (now : ℕ) (ts recent : List ℕ) : Type 0 where
  dropped : List ℕ
  split : ts ≡ dropped ++ recent
  past : All (λ t. t + revive_window < now) dropped

recent_revivals-IsRecent : (now : ℕ) (ts : List ℕ) → IsRecent now ts (recent_revivals now ts)
unfolding recent_revivals
recent_revivals-IsRecent now [] = record { dropped = []; split = refl; past = tt }
recent_revivals-IsRecent now (t ∷ ts) = elim (Bool-cases (ltb revive_window (now - t))) [
  | inl over ↦
      let r = recent_revivals-IsRecent now ts in
      rw over (record {
        dropped = t ∷ r.dropped;
        split = ap (◌∷◌ t) r.split;
        past = (ground arith, r.past);
      })
  | inr counts ↦ rw counts (record { dropped = []; split = refl; past = tt })
]

IsPaced-later :
    {launched revivals : List ℕ} {now later : ℕ}
    → now ≤ later
    → IsPaced launched revivals now
    → IsPaced launched revivals later
IsPaced-later le p = record {
  old = p.old;
  split = p.split;
  past = All-imp (λ t h. omega arith) p.old p.past;
  few = p.few;
  paced = p.paced;
}

IsPaced-recent :
    {launched revivals : List ℕ} {now : ℕ}
    → IsPaced launched revivals now
    → IsPaced launched (recent_revivals now revivals) now
IsPaced-recent {launched} {revivals} {now} p =
    let r = recent_revivals-IsRecent now revivals in
    record {
      old = p.old ++ r.dropped;
      split = p.split ∙ ap (◌++◌ p.old) r.split ∙ sym (append_assoc p.old r.dropped _);
      past = All-append _ p.old r.dropped p.past r.past;
      few =
          omega (
            arith,
            p.few,
            ap length r.split,
            length-append r.dropped (recent_revivals now revivals),
          );
      paced = p.paced;
    }

-- One more launch, where fewer than the budget still count.
IsPaced-launch :
    {launched revivals : List ℕ} {now : ℕ}
    → IsPaced launched revivals now
    → length revivals < revive_budget
    → IsPaced (launched ++ (now ∷ [])) (revivals ++ (now ∷ [])) now
IsPaced-launch {launched} {revivals} {now} p room = record {
  old = p.old;
  split = ap (λ ts. ts ++ (now ∷ [])) p.split ∙ append_assoc p.old revivals (now ∷ []);
  past = p.past;
  few = omega (arith, length-append revivals (now ∷ []));
  paced = λ from. paced_at from (Bool-cases (leb now (from + revive_window)));
}
  where
    paced_at :
        (from : ℕ)
        → (leb now (from + revive_window) ≡ true) ⊎ (leb now (from + revive_window) ≡ false)
        → count_if (within from) (launched ++ (now ∷ [])) ≤ revive_budget
    paced_at from (inl reaches) = rw p.split (
        omega (
          arith,
          count_if-append (within from) (p.old ++ revivals) (now ∷ []),
          count_if-append (within from) p.old revivals,
          none_within from now p.old (leb→le _ _ reaches) p.past,
          count_if-le (within from) revivals,
          count_if-le (within from) (now ∷ []),
        ))
    paced_at from (inr beyond) =
        rw (count_if-append (within from) launched (now ∷ [])) (ground (arith, p.paced from))

-- What `repair` at `now` makes of the revivals, and the times at which it launches a holder.
data Launches (now : ℕ) (revivals : List ℕ) : List ℕ → List ℕ → Type 0 where
  unchanged : Launches now revivals [] revivals
  trimmed : Launches now revivals [] (recent_revivals now revivals)
  starts :
      length (recent_revivals now revivals) < revive_budget
      → Launches now revivals (now ∷ []) (recent_revivals now revivals ++ (now ∷ []))

launch_lem :
    (io : ReviveIo) (w : World) (next : ℕ) (revivals : List ℕ)
    → ((launch io w next revivals).launched ≡ io.now ∷ [])
      × ((launch io w next revivals).revivals ≡ revivals)
unfolding launch
launch_lem io w next revivals = ground arith

revive-Launches :
    (io : ReviveIo) (w : World) (next : ℕ) (revivals : List ℕ)
    → Launches io.now revivals
        (revive io w next revivals).launched
        (revive io w next revivals).revivals
unfolding revive
revive-Launches io w next revivals =
    let recent = recent_revivals io.now revivals in
    elim (Bool-cases (require io.changes w).1) [
      | inl held ↦ elim (Bool-cases (leb revive_budget (length recent))) [
        | inl spent ↦ rw (held, spent) trimmed
        | inr room ↦
            let (at, kept) =
              launch_lem io (require io.changes w).0 next (recent ++ (io.now ∷ [])) in
            rw (held, room, at, kept) (starts (ground arith))
      ]
      | inr lost ↦ rw lost unchanged
    ]

repair-Launches :
    (io : RepairIo) (w : World) (next : ℕ) (revivals : List ℕ)
    → Launches io.revive.now revivals
        (repair io w next revivals).launched
        (repair io w next revivals).revivals
unfolding repair
repair-Launches io w next revivals = after (reconnect reconnect_tries io.tries w).1 refl
  where
    after :
        (tried : Tried)
        → (reconnect reconnect_tries io.tries w).1 ≡ tried
        → Launches io.revive.now revivals
            (repair io w next revivals).launched
            (repair io w next revivals).revivals
    after back e = rw (e, repair) unchanged
    after denied e = rw (e, repair) unchanged
    after gone e =
        rw (e, repair)
          (revive-Launches io.revive (reconnect reconnect_tries io.tries w).0 next revivals)

Launches-IsPaced :
    {now : ℕ} {launched revivals launches kept : List ℕ}
    → Launches now revivals launches kept
    → IsPaced launched revivals now
    → IsPaced (launched ++ launches) kept now
Launches-IsPaced unchanged p = rw append-nil p
Launches-IsPaced trimmed p = rw append-nil (IsPaced-recent p)
Launches-IsPaced (starts room) p = IsPaced-launch (IsPaced-recent p) room

abbrev FollowerIsPaced : Follower → ℕ → Type 0
FollowerIsPaced f now = IsPaced f.launched f.revivals now

after_repair_lem :
    (io : FollowIo) (r : Repaired) (f : Follower)
    → ((after_repair io r f).launched ≡ f.launched ++ r.launched)
      × ((after_repair io r f).revivals ≡ r.revivals)
unfolding after_repair
after_repair_lem io r f = ground arith

abbrev round_time : FollowIo → ℕ
round_time io = io.repairing.revive.now

relink-IsPaced :
    (io : FollowIo) (f : Follower)
    → FollowerIsPaced f (round_time io)
    → FollowerIsPaced (relink io f) (round_time io)
unfolding relink
relink-IsPaced io f p = elim (Bool-cases (require io.checking f.world).1) [
  | inl held ↦
      let after = (require io.checking f.world).0 in
      let r = repair io.repairing after f.follows.next_offset f.revivals in
      let (launches, kept) = after_repair_lem io r (record f { world = after }) in
      rw (held, launches, kept)
        (Launches-IsPaced (repair-Launches io.repairing after f.follows.next_offset f.revivals) p)
  | inr lost ↦ rw lost p
]

unlink-IsPaced :
    (io : FollowIo) (f : Follower)
    → FollowerIsPaced f (round_time io)
    → FollowerIsPaced (unlink io f) (round_time io)
unfolding unlink
unlink-IsPaced io f p = ground (arith, relink-IsPaced io (record f { linked = false }))

after_verdict-IsPaced :
    (io : FollowIo) (v : LeaseDoc × Authority × Verdict) (f : Follower)
    → FollowerIsPaced f (round_time io)
    → FollowerIsPaced (after_verdict io v f) (round_time io)
unfolding after_verdict
after_verdict-IsPaced io (doc, authority, Verdict.lost) f p = p
after_verdict-IsPaced io (doc, authority, retry) f p = unlink-IsPaced io _ p

on_message-IsPaced :
    (io : FollowIo) (read : IoResult FromHolder) (f : Follower)
    → FollowerIsPaced f (round_time io)
    → FollowerIsPaced (on_message io read f) (round_time io)
unfolding on_message
on_message-IsPaced io (ok (FromHolder.bytes at bytes)) f p = p
on_message-IsPaced io (ok (FromHolder.exited ending)) f p = p
on_message-IsPaced io (ok (FromHolder.displaced by)) f p = elim (Bool-cases io.detached) [
  | inl dropped ↦ simp dropped p
  | inr still ↦ simp still (after_verdict-IsPaced io _ f p)
]
on_message-IsPaced io (ok (FromHolder.hello proto pid child_pid)) f p = p
on_message-IsPaced io (ok (FromHolder.status s)) f p = p
on_message-IsPaced io (ok (FromHolder.refused reason)) f p = p
on_message-IsPaced io failed f p = unlink-IsPaced io f p

-- The clock of the rounds never goes back.
abbrev pub IsMonotone : ℕ → List (FollowIo × IoResult FromHolder) → Type 0
IsMonotone now [] = Unit
IsMonotone now ((io, read) ∷ more) = (now ≤ round_time io) × IsMonotone (round_time io) more

follow_paced :
    (now : ℕ) (rounds : List (FollowIo × IoResult FromHolder)) (f : Follower)
    → IsMonotone now rounds
    → FollowerIsPaced f now
    → (from : ℕ) → count_if (within from) (follow rounds f).launched ≤ revive_budget
unfolding follow
follow_paced now [] f m p = p.paced
follow_paced now ((io, read) ∷ more) f m p = elim (follow_round io read more f) [
  | inl (on, e) ↦ rw e (
      follow_paced (round_time io) more (on_message io read f) m.1
        (on_message-IsPaced io read f (IsPaced-later m.0 p)))
  | inr (over, e) ↦ rw e p.paced
]

-- While a daemon follows a pane, with a clock that never goes back, and whatever it reads and the
-- system answers: in any window of `REVIVE_WINDOW` it sets out to start a holder for the pane at most
-- `REVIVE_BUDGET` times.
pub follow_launches_bounds :
    (w : World) (now : ℕ) (rounds : List (FollowIo × IoResult FromHolder)) (from : ℕ)
    → IsMonotone now rounds
    → count_if (within from) (follow rounds (start_following w)).launched ≤ revive_budget
follow_launches_bounds w now rounds from m =
    follow_paced now rounds (start_following w) m
      (record { old = []; split = refl; past = tt; few = omega arith; paced = λ t. omega arith })
      from
