-- ===== src/TearCore/Recording/Latest.antt =====
-- A recording of tear-core/src/recording.rs holds the latest events since it was enabled.
use tear.Base.{
  ℕ, zero, suc, ◌-◌, ◌≤◌, ◌<◌, true, false, List, [], ◌∷◌, ◌++◌, Option, none, some, if◌then◌else◌,
  ◌==◌, length, drop, ◌≡◌, refl, ap, ◌∙◌, sym, inl, inr, arith, Bool-cases, length-append,
  length-drop,
}
use tear.TearCore.Recording.{
  PaneEvent, RecordingState, new_recording, enable, disable, pop_oldest, push, Call, enabled,
  disabled, pushed, handle_call, handle_calls,
}

-- What a recording without a bound would hold.
pub record Unbounded : Type 0 where
  pub running : Option ℕ
  pub all : List PaneEvent

-- The unbounded recording after a call.
abbrev pub handle_unbounded : Call → Unbounded → Unbounded
handle_unbounded (enabled now now_unix_ms cols rows) u = record { running = some now; all = [] }
handle_unbounded disabled u = record u { running = none }
handle_unbounded (pushed now bytes) u = elim u.running [
  | none ↦ u
  | some start ↦ record u { all = u.all ++ (record { ts_ms = now - start; bytes = bytes } ∷ []) }
]

abbrev pub handle_all_unbounded : List Call → Unbounded → Unbounded
handle_all_unbounded [] u = u
handle_all_unbounded (call ∷ calls) u = handle_all_unbounded calls (handle_unbounded call u)

-- The last events of a list, as many as a bound allows.
abbrev pub latest : ℕ → List PaneEvent → List PaneEvent
latest n events = drop (length events - n) events

drop-append_within :
    (k : ℕ) (events more : List PaneEvent)
    → k ≤ length events
    → drop k (events ++ more) ≡ drop k events ++ more
drop-append_within zero events more h = refl
drop-append_within (suc k) [] more h = absurd (omega arith)
drop-append_within (suc k) (e ∷ events) more h = drop-append_within k events more (omega arith)

pop_oldest-drop :
    (k : ℕ) (events : List PaneEvent) → pop_oldest (drop k events) ≡ drop (suc k) events
pop_oldest-drop zero [] = refl
pop_oldest-drop zero (e ∷ events) = refl
pop_oldest-drop (suc k) [] = refl
pop_oldest-drop (suc k) (e ∷ events) = pop_oldest-drop k events

-- An event behind the latest ones, of which the oldest leaves where the bound is reached.
latest-append :
    (n : ℕ) (events : List PaneEvent) (e : PaneEvent)
    → 0 < n
    → (if length (latest n events) == n then pop_oldest (latest n events) else latest n events)
        ++ (e ∷ [])
      ≡ latest n (events ++ (e ∷ []))
latest-append n events e h = elim (Bool-cases (length (latest n events) == n)) [
  | inl full ↦ rw full (
      ap (λ kept. kept ++ (e ∷ [])) (pop_oldest-drop (length events - n) events)
      ∙ sym (drop-append_within (suc (length events - n)) events (e ∷ []) (some_left full))
      ∙ ap (λ k. drop k (events ++ (e ∷ []))) (next_full full))
  | inr free ↦ rw free (
      sym (drop-append_within (length events - n) events (e ∷ []) (omega arith))
      ∙ ap (λ k. drop k (events ++ (e ∷ []))) (next_free free))
]
  where
    some_left : (length (latest n events) == n) ≡ true → suc (length events - n) ≤ length events
    some_left full = ground (arith, length-drop (length events - n) events)

    next_full :
        (length (latest n events) == n) ≡ true
        → suc (length events - n) ≡ length (events ++ (e ∷ [])) - n
    next_full full =
        ground (arith, length-drop (length events - n) events, length-append events (e ∷ []))

    next_free :
        (length (latest n events) == n) ≡ false
        → length events - n ≡ length (events ++ (e ∷ [])) - n
    next_free free =
        ground (arith, length-drop (length events - n) events, length-append events (e ∷ []))

-- A recording that stands for an unbounded one.
pub record IsLatest (r : RecordingState) (u : Unbounded) (most : ℕ) : Type 0 where
  pub same_start : r.started_at ≡ u.running
  pub same_events : r.events ≡ latest most u.all
  pub same_max : r.max_events ≡ most

push-IsLatest :
    (now : ℕ) (bytes : List ℕ) {r : RecordingState} {u : Unbounded} {most : ℕ}
    → 0 < most
    → IsLatest r u most
    → IsLatest (push now bytes r) (handle_unbounded (pushed now bytes) u) most
unfolding push
push-IsLatest now bytes {r} {u} {most} h v = by_start r.started_at u.running refl refl v.same_start
  where
    by_start :
        (o p : Option ℕ)
        → r.started_at ≡ o
        → u.running ≡ p
        → o ≡ p
        → IsLatest
            (elim o [
              | none ↦ r
              | some start ↦ record r {
                events =
                    (if length r.events == r.max_events then pop_oldest r.events else r.events)
                    ++ (record { ts_ms = now - start; bytes = bytes } ∷ []);
              }
            ])
            (elim p [
              | none ↦ u
              | some start ↦ record u {
                all = u.all ++ (record { ts_ms = now - start; bytes = bytes } ∷ []);
              }
            ])
            most
    by_start none none e f same = v
    by_start none (some b) e f same = cc
    by_start (some a) none e f same = cc
    by_start (some a) (some b) e f same =
        let equal : a ≡ b = ground arith in
        record {
          same_start = v.same_start;
          same_events =
              rw (equal, v.same_events, v.same_max)
                (latest-append most u.all (record { ts_ms = now - b; bytes = bytes }) h);
          same_max = v.same_max;
        }

handle_call-IsLatest :
    (call : Call) {r : RecordingState} {u : Unbounded} {most : ℕ}
    → 0 < most
    → IsLatest r u most
    → IsLatest (handle_call call r) (handle_unbounded call u) most
unfolding handle_call enable disable
handle_call-IsLatest (enabled now now_unix_ms cols rows) {r} {u} {most} h v = record {
  same_start = refl;
  same_events = empty (0 - most);
  same_max = v.same_max;
}
  where
    empty : (k : ℕ) → [] ≡ drop {A = PaneEvent} k []
    empty zero = refl
    empty (suc k) = refl
handle_call-IsLatest disabled h v = record {
  same_start = refl;
  same_events = v.same_events;
  same_max = v.same_max;
}
handle_call-IsLatest (pushed now bytes) h v = push-IsLatest now bytes h v

handle_calls-IsLatest :
    (calls : List Call) {r : RecordingState} {u : Unbounded} {most : ℕ}
    → 0 < most
    → IsLatest r u most
    → IsLatest (handle_calls calls r) (handle_all_unbounded calls u) most
unfolding handle_calls
handle_calls-IsLatest [] h v = v
handle_calls-IsLatest (call ∷ calls) h v =
    handle_calls-IsLatest calls h (handle_call-IsLatest call h v)

-- After any calls on a new recording whose bound is not 0: it is running just when the unbounded
-- recording of the same calls is, from the same time; and its events are the last ones of the
-- unbounded recording, which begins anew where it is enabled, as many as the bound allows.
pub handle_calls-new_recording :
    (calls : List Call) (most : ℕ)
    → 0 < most
    → IsLatest
        (handle_calls calls (new_recording most))
        (handle_all_unbounded calls (record { running = none; all = [] }))
        most
unfolding new_recording
handle_calls-new_recording calls most h =
    handle_calls-IsLatest calls h
      (record { same_start = refl; same_events = empty (0 - most); same_max = refl })
  where
    empty : (k : ℕ) → [] ≡ drop {A = PaneEvent} k []
    empty zero = refl
    empty (suc k) = refl
