-- ===== src/TearCore/Arranging/Steady.antt =====
-- The operations of tear-core/src/inproc.rs that only move and resize: no pane's record and no terminal
-- comes or goes.
use tear.Base.Int.{ℤ}
use tear.Kukaku.Arrange.{LayoutKind, from_kind}
use tear.Kukaku.Direction.{Direction}
use tear.Kukaku.Layout.{panes}
use tear.TearTypes.Pane.{Cells, TearPane}
use tear.TearCore.Arranging.{resize_pane, apply_layout}
use tear.TearCore.Steering.{holds_window}
use tear.Base.{
  ℕ, ◌≡◌, refl, ◌∙◌, ◌||◌, List, [], ◌∷◌, arith, nat_eq, ◌==◌, Option-cases, inl, inr, if_both,
  Bool-cases,
}
use tear.Base.Maps.{BTreeMap, get, contains_key, modify, contains-modify, find_first}
use tear.Kukaku.Float.{Float}
use tear.Kukaku.Geometry.{Rect}
use tear.TearTypes.Session.{TearSession}
use tear.TearCore.Registry.{Registry, locate_pane}
use tear.TearCore.Runtime.{
  InProcess, SystemIo, in_registry, pane_resize_absolute, resize_ptys, apply_layout_geometry,
  window_rects, record_absolute_size, record_size, stamp_rects,
}

contains-stamp_rects :
    (pane : ℕ) (rects : List (ℕ × Rect)) (m : BTreeMap TearPane)
    → contains_key pane (stamp_rects rects m) ≡ contains_key pane m
unfolding stamp_rects
contains-stamp_rects pane [] m = refl
contains-stamp_rects pane ((p, rect) ∷ rects) m =
    contains-stamp_rects pane rects _ ∙ contains-modify p pane _ m

module _ {Num : Type 0} where
  -- A change of sessions that keeps what each records of a pane keeps it for the registry.
  pub in_registry-modify :
      (pane k : ℕ) (g : TearSession Num → TearSession Num) (r : Registry Num)
      → ((s : TearSession Num) → contains_key pane (g s).panes ≡ contains_key pane s.panes)
      → in_registry pane (modify k g r) ≡ in_registry pane r
  in_registry-modify pane k g [] h = refl
  in_registry-modify pane k g ((j, s) ∷ r) h = ground (arith, h s, in_registry-modify pane k g r h)

  -- Neither the records nor the terminals come or go.
  pub record IsSteady (st t : InProcess Num) : Type 0 where
    pub recorded : (pane : ℕ) → in_registry pane t.registry ≡ in_registry pane st.registry
    pub terminals : (pane : ℕ) → contains_key pane t.ptys ≡ contains_key pane st.ptys

  IsSteady-trans : (st t u : InProcess Num) → IsSteady st t → IsSteady t u → IsSteady st u
  IsSteady-trans st t u a b = record {
    recorded = λ pane. b.recorded pane ∙ a.recorded pane;
    terminals = λ pane. b.terminals pane ∙ a.terminals pane;
  }

  IsSteady-refl : (st : InProcess Num) → IsSteady st st
  IsSteady-refl st = record { recorded = λ pane. refl; terminals = λ pane. refl }

  record_absolute_size-recorded :
      (pane id : ℕ) (size : Cells) (r : Registry Num)
      → in_registry pane (record_absolute_size id size r) ≡ in_registry pane r
  unfolding record_absolute_size record_size
  record_absolute_size-recorded pane id size r = elim (Option-cases (locate_pane r id)) [
    | inl missed ↦ rw (missed, record_absolute_size) refl
    | inr (at, is) ↦
        rw (is, record_absolute_size)
          (in_registry-modify pane at.0 _ r (λ s. contains-modify id pane _ s.panes))
  ]

  pub pane_resize_absolute-IsSteady :
      (io : SystemIo) (id : ℕ) (size : Cells) (st : InProcess Num)
      → IsSteady st (pane_resize_absolute io id size st).0
  unfolding pane_resize_absolute
  pane_resize_absolute-IsSteady io id size st = record {
    recorded = λ pane. ground (arith, record_absolute_size-recorded pane id size st.registry);
    terminals = λ pane.
        ground (arith, contains-modify id pane (λ pty. record pty { winsize = size }) st.ptys);
  }

  resize_ptys-IsSteady :
      (io : SystemIo) (rects : List (ℕ × Rect)) (st : InProcess Num)
      → IsSteady st (resize_ptys io rects st)
  unfolding resize_ptys
  resize_ptys-IsSteady io [] st = IsSteady-refl st
  resize_ptys-IsSteady io ((pane, rect) ∷ rects) st =
      IsSteady-trans st _ _
        (if_both (IsSteady st) (rect.w == 0 || rect.h == 0) (IsSteady-refl st)
          (pane_resize_absolute-IsSteady io pane (record { cols = rect.w; rows = rect.h }) st))
        (resize_ptys-IsSteady io rects _)

module _ {Num : Type 0} ⦃f : Float Num⦄ where
  pub apply_layout_geometry-IsSteady :
      (io : SystemIo) (sid wid : ℕ) (st : InProcess Num)
      → IsSteady st (apply_layout_geometry io sid wid st)
  unfolding apply_layout_geometry
  apply_layout_geometry-IsSteady io sid wid st = elim (Option-cases (get sid st.registry)) [
    | inl missed ↦ rw (missed, apply_layout_geometry) (IsSteady-refl st)
    | inr (s, at) ↦ elim (Option-cases (get wid s.windows)) [
      | inl missed ↦ rw (at, missed, apply_layout_geometry) (IsSteady-refl st)
      | inr (w, there) ↦
          rw (at, there, apply_layout_geometry)
            (IsSteady-trans st _ _
              (record {
                recorded = λ pane.
                    in_registry-modify pane sid _ st.registry
                      (λ s. contains-stamp_rects pane (window_rects w) s.panes);
                terminals = λ pane. refl;
              })
              (resize_ptys-IsSteady io (window_rects w) _))
    ]
  ]

  pub resize_pane-IsSteady :
      (io : SystemIo) (id : ℕ) (d : Direction) (delta_cells : ℤ) (st : InProcess Num)
      → IsSteady st (resize_pane io id d delta_cells st).0
  unfolding resize_pane
  resize_pane-IsSteady io id d delta_cells st = elim (Option-cases (locate_pane st.registry id)) [
    | inl missed ↦ rw (missed, resize_pane) (IsSteady-refl st)
    | inr (at, is) ↦ elim (Option-cases (get at.0 st.registry)) [
      | inl missed ↦ rw (is, missed, resize_pane) (IsSteady-refl st)
      | inr (s, found) ↦ elim (Bool-cases (contains_key at.1 s.windows)) [
        | inl has ↦
            rw (is, found, resize_pane, has)
              (IsSteady-trans st _ _
                (record {
                  recorded = λ pane. in_registry-modify pane at.0 _ st.registry (λ s. refl);
                  terminals = λ pane. refl;
                })
                (apply_layout_geometry-IsSteady io at.0 at.1 _))
        | inr lacks ↦ rw (is, found, resize_pane, lacks) (IsSteady-refl st)
      ]
    ]
  ]

  pub apply_layout-IsSteady :
      (io : SystemIo) (window : ℕ) (kind : LayoutKind) (st : InProcess Num)
      → IsSteady st (apply_layout io window kind st).0
  unfolding apply_layout
  apply_layout-IsSteady io window kind st =
      elim (Option-cases (find_first (holds_window window) st.registry)) [
        | inl missed ↦ rw (missed, apply_layout) (IsSteady-refl st)
        | inr (at, is) ↦ elim (Option-cases (get window at.1.windows)) [
          | inl missed ↦ rw (is, missed, apply_layout) (IsSteady-refl st)
          | inr (w, found) ↦ elim (Option-cases (from_kind {Num = Num} kind (panes w.layout))) [
            | inl custom ↦ rw (is, found, custom, apply_layout) (IsSteady-refl st)
            | inr (tree, made) ↦
                rw (is, found, made, apply_layout)
                  (IsSteady-trans st _ _
                    (record {
                      recorded = λ pane. in_registry-modify pane at.0 _ st.registry (λ s. refl);
                      terminals = λ pane. refl;
                    })
                    (apply_layout_geometry-IsSteady io at.0 window _))
          ]
        ]
      ]

  -- Moving a divider, rearranging a window and resizing a pane never add or drop a pane's record or a
  -- terminal, whatever the system answers and also where they fail.
  pub arranging-IsSteady :
      (io : SystemIo) (id : ℕ) (st : InProcess Num)
      → ((d : Direction) (delta_cells : ℤ) → IsSteady st (resize_pane io id d delta_cells st).0)
        × ((kind : LayoutKind) → IsSteady st (apply_layout io id kind st).0)
        × ((size : Cells) → IsSteady st (pane_resize_absolute io id size st).0)
  arranging-IsSteady io id st = (
    λ d delta_cells. resize_pane-IsSteady io id d delta_cells st,
    λ kind. apply_layout-IsSteady io id kind st,
    λ size. pane_resize_absolute-IsSteady io id size st,
  )
