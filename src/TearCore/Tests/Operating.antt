-- ===== src/TearCore/Tests/Operating.antt =====
-- Single operations on two panes of one session (tear-core/src/inproc.rs).
use tear.Base.{
  ℕ, ◌≡◌, ◌↔◌, ◌⊎◌, refl, true, false, arith, Distinct, ◌&&◌, ◌||◌, [], ◌∷◌, ◌++◌, none, some,
  if◌then◌else◌, ◌==◌, elem, nat_eq,
}
use tear.Base.Maps.{get, contains_key}
use tear.Base.Int.{ℤ}
use tear.Kukaku.Direction.{Direction}
use tear.Kukaku.Arrange.{LayoutKind}
use tear.TearTypes.Pane.{Cells}
use tear.TearCore.Runtime.{pane_resize_absolute}
use tear.TearCore.Arranging.{resize_pane, apply_layout}
use tear.TearCore.Arranging.Steady.{IsSteady, arranging-IsSteady}
use tear.Kukaku.Fixed.{Fixed, fixed_float}
use tear.TearTypes.Control.{ControlError, done, fails, may_have_delivered}
use tear.TearTypes.Pane.{is_automation, is_unknown}
use tear.TearTypes.Session.{TearSession, Admission, RefusalReason, policy_admission, admits}
use tear.TearCore.Registry.{locate_pane}
use tear.TearCore.Runtime.{SystemIo}
use tear.TearCore.Spawning.{Minted, new_window}
use tear.TearCore.Validity.Locating.{Holds, locate_pane_lem}
use tear.TearCore.Closing.{kill_session}
use tear.TearCore.Closing.Detaching.{IsDetached, ending_of, kill_session-Closes}
use tear.TearCore.Brake.{is_wanted, set_freio}
use tear.TearCore.Brake.Reporting.{set_freio-Reports}
use tear.TearTypes.Session.{unbrakable}
use tear.TearCore.Brake.Admission.{set_freio-Brakes}
use tear.TearCore.Steering.{send_keys}
use tear.TearCore.Steering.Input.{takes, given, written_to, send_keys-Delivers}
use tear.TearCore.Spawning.Outcome.{new_window-Opens, new_session-Opens}
use tear.TearTypes.Session.{SessionSource}
use tear.TearCore.Runtime.{at_least_one}
use tear.TearCore.Spawning.{new_session}
use tear.TearCore.Tests.{size}
use tear.TearCore.Tests.{io, spec, two, pane_at, session_two, two_reads, two_IsValid}

locate_pane_lem_example :
    ((at : ℕ × ℕ) → locate_pane two.registry 101 ≡ some at → Holds two.registry 101 at)
    × ((sid : ℕ) (s : TearSession Fixed)
        → get sid two.registry ≡ some s
        → contains_key 101 s.panes ≡ true
        → (wid : ℕ) × (locate_pane two.registry 101 ≡ some (sid, wid)))
locate_pane_lem_example = locate_pane_lem two.registry 101 two_IsValid

kill_session-Closes_example :
    ((kill_session io 1 two).1 ≡ done tt)
    × ((sid : ℕ)
        → get sid (kill_session io 1 two).0.registry
          ≡ (if 1 == sid then none else get sid two.registry))
    × IsDetached (λ pane. contains_key pane session_two.panes) two (kill_session io 1 two).0
    × ((pane : ℕ)
        → get pane (kill_session io 1 two).0.tombstones ≡ (
            if contains_key pane session_two.panes
            then ending_of io pane (get pane two.tombstones)
            else get pane two.tombstones))
kill_session-Closes_example = kill_session-Closes io 1 two session_two two_reads

set_freio-Brakes_example :
    (s' : TearSession Fixed) × (get 1 (set_freio 1700000001 none true two).0.registry ≡ some s')
    × (admits s' 101 ≡ (
        if is_wanted none 1
        then some (
            if true && is_automation (pane_at 101 40 40).yurai
            then Admission.refuse RefusalReason.freio
            else policy_admission (pane_at 101 40 40).input_policy)
        else admits session_two 101))
    × ((is_wanted none 1 && true && is_automation (pane_at 101 40 40).yurai ≡ false)
        ⊎ (elem 101 (set_freio 1700000001 none true two).2 ≡ true))
    × ((is_wanted none 1 && true && is_unknown (pane_at 101 40 40).yurai ≡ false)
        ⊎ (elem 101 (set_freio 1700000001 none true two).3 ≡ true))
set_freio-Brakes_example =
    set_freio-Brakes 1700000001 none true two 1 session_two 101 (pane_at 101 40 40) two_reads refl

-- The write fails after one byte.
abbrev broken : SystemIo
broken = record io { write_ok = false; delivered = 1 }

send_keys-Delivers_example :
    (((send_keys broken 101 (97 ∷ 13 ∷ []) two).1 ≡ done tt)
      ↔ (takes broken 101 (pane_at 101 40 40) two ≡ true))
    × ((pane : ℕ)
        → written_to (get pane (send_keys broken 101 (97 ∷ 13 ∷ []) two).0.ptys)
          ≡ written_to (get pane two.ptys)
            ++ (if 101 == pane
                then given broken 101 (pane_at 101 40 40) (97 ∷ 13 ∷ []) two
                else []))
    × ((e : ControlError)
        → (send_keys broken 101 (97 ∷ 13 ∷ []) two).1 ≡ fails e
        → may_have_delivered e ≡ false
        → (send_keys broken 101 (97 ∷ 13 ∷ []) two).0 ≡ two)
    × ((send_keys broken 101 (97 ∷ 13 ∷ []) two).0.registry ≡ two.registry)
send_keys-Delivers_example =
    send_keys-Delivers broken 101 (97 ∷ 13 ∷ []) two 1 session_two (pane_at 101 40 40) two_IsValid
      two_reads refl

-- The child of the second window does not start.
abbrev failing : SystemIo
failing = record io { spawn_ok = false }

abbrev more_ids : Minted
more_ids = record { session_id = 0; window_id = 11; pane_id = 102 }

new_window-Opens_example :
    ((new_window failing more_ids 1 "logs" spec two).1
      ≡ (if failing.spawn_ok then done 11 else fails ControlError.internal))
    × ((s' : TearSession Fixed) × (get 1 (new_window failing more_ids 1 "logs" spec two).0.registry
          ≡ some s')
        × (contains_key 11 s'.windows ≡ true)
        × (contains_key 102 s'.panes ≡ true))
    × (contains_key 102 (new_window failing more_ids 1 "logs" spec two).0.grids ≡ true)
    × ((pane : ℕ)
        → contains_key pane (new_window failing more_ids 1 "logs" spec two).0.ptys
          ≡ (failing.spawn_ok && 102 == pane || contains_key pane two.ptys))
new_window-Opens_example = new_window-Opens failing more_ids 1 "logs" spec two session_two two_reads

abbrev fresh_ids : Minted
fresh_ids = record { session_id = 2; window_id = 12; pane_id = 103 }

new_session-Opens_example :
    ((new_session failing fresh_ids "logs" spec SessionSource.human size two).1
      ≡ (if failing.spawn_ok then done 2 else fails ControlError.internal))
    × (contains_key 2
          (new_session failing fresh_ids "logs" spec SessionSource.human size two).0.registry
        ≡ failing.spawn_ok)
    × ((j : ℕ)
        → (2 == j) ≡ false
        → get j (new_session failing fresh_ids "logs" spec SessionSource.human size two).0.registry
          ≡ get j two.registry)
    × (get 103 (new_session failing fresh_ids "logs" spec SessionSource.human size two).0.grids
        ≡ some (at_least_one size))
    × ((pane : ℕ)
        → contains_key pane
            (new_session failing fresh_ids "logs" spec SessionSource.human size two).0.ptys
          ≡ (failing.spawn_ok && 103 == pane || contains_key pane two.ptys))
new_session-Opens_example =
    new_session-Opens failing fresh_ids "logs" spec SessionSource.human size two

set_freio-Reports_example :
    ((pane : ℕ)
      → elem pane (set_freio 1700000001 (some 1) true two).2
        ≡ (elim (get pane session_two.panes) [ none ↦ false | some p ↦ is_automation p.yurai ]))
    × ((pane : ℕ)
        → elem pane (set_freio 1700000001 (some 1) true two).3
          ≡ (elim (get pane session_two.panes) [ none ↦ false | some p ↦ is_unknown p.yurai ]))
    × Distinct (set_freio 1700000001 (some 1) true two).2
    × Distinct (set_freio 1700000001 (some 1) true two).3
    × ((set_freio 1700000001 (some 1) true two).3 ≡ unbrakable session_two)
set_freio-Reports_example =
    set_freio-Reports 1700000001 1 two session_two two_IsValid two_reads (ground arith)

arranging-IsSteady_example :
    ((d : Direction) (delta_cells : ℤ) → IsSteady two (resize_pane io 101 d delta_cells two).0)
    × ((kind : LayoutKind) → IsSteady two (apply_layout io 101 kind two).0)
    × ((new_size : Cells) → IsSteady two (pane_resize_absolute io 101 new_size two).0)
arranging-IsSteady_example = arranging-IsSteady io 101 two
