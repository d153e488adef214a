-- ===== src/TearCore/Recording/Tests.antt =====
-- The recording of tear-core/src/recording.rs at concrete inputs.
use tear.Base.{List, [], ◌∷◌, none, ◌≡◌, refl, map, arith}
use tear.TearCore.Recording.{
  PaneEvent, new_recording, Call, enabled, disabled, pushed, handle_calls, read_around,
  cast_timestamp,
}
use tear.TearCore.Recording.Latest.{IsLatest, handle_all_unbounded, handle_calls-new_recording}

-- Four events with room for three, and a stop.
abbrev four_events : List Call
four_events =
    pushed 1 (9 ∷ [])
    ∷ (enabled 10 5000 80 24
        ∷ (pushed 11 (97 ∷ [])
            ∷ (pushed 12 (98 ∷ [])
                ∷ (pushed 15 (99 ∷ []) ∷ (pushed 19 (100 ∷ []) ∷ (disabled ∷ []))))))

kept_events :
    map (λ (e : PaneEvent). e.ts_ms) (handle_calls four_events (new_recording 3)).events
    ≡ 2 ∷ (5 ∷ (9 ∷ []))
unfolding handle_calls new_recording
kept_events = refl

events_around :
    map (λ (e : PaneEvent). e.ts_ms) (read_around 5 2 (handle_calls four_events (new_recording 3)))
    ≡ 2 ∷ (5 ∷ [])
unfolding read_around handle_calls new_recording
events_around = refl

-- A recording that was stopped is stamped with the time of the export.
stopped_timestamp : cast_timestamp 9000 (handle_calls four_events (new_recording 3)) ≡ 9
unfolding cast_timestamp handle_calls new_recording
stopped_timestamp = refl

handle_calls-new_recording_example :
    IsLatest
      (handle_calls four_events (new_recording 3))
      (handle_all_unbounded four_events (record { running = none; all = [] }))
      3
handle_calls-new_recording_example = handle_calls-new_recording four_events 3 (omega arith)
