-- ===== src/TearCore/Arranging.antt =====
-- tear-core/src/inproc.rs: `resize_pane` and `apply_layout`.
pub mod Validity
pub mod Steady
use tear.Base.{ℕ, suc, none, some, if◌then◌else◌, ltb, nat_eq}
use tear.Base.Int.{ℤ, pos, negsuc}
use tear.Base.Maps.{get, modify, contains_key, find_first}
use tear.Kukaku.Arrange.{LayoutKind, from_kind}
use tear.Kukaku.Direction.{Direction, SplitOrientation, orientation}
use tear.Kukaku.Float.{Float}
use tear.Kukaku.Layout.{panes}
use tear.Kukaku.Resize.{resize_leaf}
use tear.TearTypes.Control.{ControlResult, done, fails, ControlError}
use tear.TearTypes.Pane.{Cells}
use tear.TearTypes.Session.{TearWindow}
use tear.TearCore.Registry.{locate_pane}
use tear.TearCore.Steering.{holds_window}
use tear.TearCore.Runtime.{InProcess, SystemIo, apply_layout_geometry}

-- The window's size on the axis of a direction.
abbrev pub span_of : SplitOrientation → Cells → ℕ
span_of SplitOrientation.vertical size = size.cols
span_of SplitOrientation.horizontal size = size.rows

module _ {Num : Type 0} ⦃f : Float Num⦄ where
  -- `f32::from(i16)`
  abbrev pub of_i16 : ℤ → Num
  of_i16 (pos n) = f.of_ℕ n
  of_i16 (negsuc n) = f.mul_f f.neg_one_f (f.of_ℕ (suc n))

  -- The step of the divider, as a fraction of the span.
  unfoldable pub delta_fraction : ℤ → ℕ → Num
  delta_fraction delta_cells span =
      if ltb 0 span then f.div_f (of_i16 delta_cells) (f.of_ℕ span) else f.zero_f

  -- The window's part of `resize_pane`.
  unfoldable pub slide_divider : ℕ → Direction → ℤ → TearWindow Num → TearWindow Num
  unfolding delta_fraction
  slide_divider id direction delta_cells w =
      let delta = delta_fraction delta_cells (span_of (orientation direction) w.size_cells) in
      record w { layout = (resize_leaf w.layout id direction delta).0 }

  -- `InProcess::resize_pane`
  unfoldable pub resize_pane :
      SystemIo → ℕ → Direction → ℤ → InProcess Num → InProcess Num × ControlResult (Unit {0})
  unfolding slide_divider
  resize_pane io id direction delta_cells st = elim (locate_pane st.registry id) [
    | none ↦ (st, fails (ControlError.no_such_pane id))
    | some at ↦ elim (get at.0 st.registry) [
      | none ↦ (st, fails (ControlError.no_such_session at.0))
      | some s ↦
          let slid = record st {
            registry =
                modify at.0
                  (λ s. record s {
                    windows = modify at.1 (slide_divider id direction delta_cells) s.windows;
                  })
                  st.registry;
          } in
          if contains_key at.1 s.windows
          then (apply_layout_geometry io at.0 at.1 slid, done tt)
          else (st, fails (ControlError.no_such_window at.1))
    ]
  ]

  -- `InProcess::apply_layout`
  unfoldable pub apply_layout :
      SystemIo → ℕ → LayoutKind → InProcess Num → InProcess Num × ControlResult (Unit {0})
  apply_layout io window kind st = elim (find_first (holds_window window) st.registry) [
    | none ↦ (st, fails (ControlError.no_such_window window))
    | some found ↦ elim (get window found.1.windows) [
      | none ↦ (st, fails (ControlError.no_such_window window))
      | some w ↦ elim (from_kind kind (panes w.layout)) [
        | none ↦ (st, done tt)
        | some tree ↦ (
          apply_layout_geometry io found.0 window (record st {
            registry =
                modify found.0
                  (λ s. record s {
                    windows = modify window (λ w. record w { layout = tree }) s.windows;
                  })
                  st.registry;
          }),
          done tt,
        )
      ]
    ]
  ]
