-- ===== src/Tamotsu/Held/Tests.antt =====
-- The daemon's side of tamotsu/src at concrete inputs.
use tear.Base.{
  ℕ, ◌*◌, ◌≤◌, ◌≡◌, ◌≢◌, ◌⊎◌, refl, true, false, List, [], ◌∷◌, map, none, some, Any, count_if,
  arith,
}
use tear.Base.Int.{pos}
use tear.Makimono.Lease.{
  LeaseDoc, document, IoResult, ok, failed, held, current, recorded, raise_above,
}
use tear.TearCore.Runtime.{exited}
use tear.Tamotsu.Proto.{FromHolder}
use tear.Tamotsu.Authority.{holds, lose, newest, displaced, displaced_from}
use tear.Tamotsu.Held.{follow_bytes}
use tear.Tamotsu.Held.Repair.{World, require, reconnect, recent_revivals, launch, revive, repair}
use tear.Tamotsu.Held.Follow.{
  FollowIo, Follower, following, returned, reported, after_repair, relink, unlink, after_verdict,
  on_message, follow, start_following,
}
use tear.Tamotsu.Held.Reviving.{within, follow_launches_bounds}
use tear.Tamotsu.Held.Losing.{AnyFails, follow-Retires}
use tear.Tamotsu.Held.Reporting.{Tells, IsGivenUp, follow-Reports}

abbrev Rounds : Type 0
Rounds = List (FollowIo × IoResult FromHolder)

abbrev as_it_is : LeaseDoc → LeaseDoc
as_it_is doc = doc

-- The holder is gone, and a new one starts at the given second, with an empty journal.
abbrev at_second : ℕ → FollowIo
at_second s = record {
  detached = false;
  displacing = as_it_is;
  raising = record { lock_ok = true; read_ok = true; write_ok = true };
  detached_then = false;
  tombstone = ok none;
  checking = as_it_is;
  repairing = record {
    tries = λ n. record { changes = as_it_is; connects = false; greets = false };
    revive = record {
      changes = as_it_is;
      now = s * 1000000000;
      spawned = true;
      ready = some 0;
      greets = true;
    };
  };
  detached_since = false;
  rechecking = as_it_is;
}

abbrev third : World
third = record {
  doc = document 3;
  authority = record {
    lease = some (record { incarnation = 3 });
    lost = false;
    waits = true;
    told = [];
  };
}

program : Unit {0}
unfolding follow on_message follow_bytes unlink relink after_repair after_verdict repair reconnect
    revive launch recent_revivals require holds lose newest displaced displaced_from held current
    recorded raise_above
program = tt

-- Five holders in six seconds; then one after the first has grown too old to count.
abbrev six_failures : Rounds
six_failures = map (λ s. (at_second s, failed)) (1 ∷ (2 ∷ (3 ∷ (4 ∷ (5 ∷ (6 ∷ []))))))

gives_up :
    ((follow six_failures (start_following third)).launched
      ≡ 1000000000 ∷ (2000000000 ∷ (3000000000 ∷ (4000000000 ∷ (5000000000 ∷ [])))))
    × ((follow six_failures (start_following third)).phase ≡ reported none)
unfolding program
gives_up = (refl, refl)

abbrev a_minute_later : Rounds
a_minute_later = map (λ s. (at_second s, failed)) (1 ∷ (2 ∷ (3 ∷ (4 ∷ (5 ∷ (62 ∷ []))))))

goes_on :
    ((follow a_minute_later (start_following third)).phase ≡ following)
    × ((follow a_minute_later (start_following third)).asked
        ≡ (0, some 3)
          ∷ ((0, some 3) ∷ ((0, some 3) ∷ ((0, some 3) ∷ ((0, some 3) ∷ ((0, some 3) ∷ []))))))
unfolding program
goes_on = (refl, refl)

follow_launches_bounds_example :
    count_if (within 1000000000) (follow six_failures (start_following third)).launched ≤ 5
follow_launches_bounds_example =
    follow_launches_bounds third 0 six_failures 1000000000 (omega arith)

-- A holder that saw incarnation 7 when the document was lost: the lease is raised above it.
raised_above :
    (follow ((at_second 1, ok (FromHolder.displaced 7)) ∷ []) (start_following third)).asked
    ≡ (0, some 8) ∷ []
unfolding program
raised_above = refl

-- Another daemon has taken the store: the loop ends, and the callback is told who it was.
abbrev taken_over : FollowIo
taken_over = record (at_second 1) { displacing = λ doc. document 4 }

abbrev displaced_by_4 : Rounds
displaced_by_4 = (taken_over, ok (FromHolder.displaced 4)) ∷ []

lost_to_4 :
    ((follow displaced_by_4 (start_following third)).phase ≡ returned)
    × ((follow displaced_by_4 (start_following third)).world.authority.told ≡ 4 ∷ [])
unfolding program
lost_to_4 = (refl, refl)

-- A daemon that was displaced through another pane, and follows on until a read fails.
abbrev displaced_elsewhere : Follower
displaced_elsewhere = start_following (record third {
  authority = record {
    lease = some (record { incarnation = 3 });
    lost = true;
    waits = false;
    told = 4 ∷ [];
  };
})

abbrev bytes_then_end : Rounds
bytes_then_end = (at_second 1, ok (FromHolder.bytes 0 (65 ∷ []))) ∷ ((at_second 2, failed) ∷ [])

follow-Retires_example :
    ((follow bytes_then_end displaced_elsewhere).launched ≡ displaced_elsewhere.launched)
    × ((follow bytes_then_end displaced_elsewhere).asked ≡ displaced_elsewhere.asked)
    × ((follow bytes_then_end displaced_elsewhere).world.authority
        ≡ displaced_elsewhere.world.authority)
    × (AnyFails bytes_then_end → (follow bytes_then_end displaced_elsewhere).phase ≢ following)
follow-Retires_example =
    follow-Retires bytes_then_end displaced_elsewhere (record { incarnation = 3 }) refl refl

-- The holder is gone, and has left a tombstone.
abbrev ended_with_3 : Rounds
ended_with_3 = (record (at_second 1) { tombstone = ok (some (exited (some (pos 3)))) }, failed) ∷ []

follow-Reports_example :
    Any (Tells (some (pos 3))) ended_with_3
    ⊎ IsGivenUp (some (pos 3)) (follow ended_with_3 (start_following third))
unfolding program
follow-Reports_example =
    follow-Reports ended_with_3 (start_following third) (some (pos 3)) refl refl
