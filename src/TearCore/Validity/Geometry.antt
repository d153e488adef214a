-- ===== src/TearCore/Validity/Geometry.antt =====
-- The geometry of tear-core/src/inproc.rs keeps `RegistryIsValid`: sizes and positions of panes and
-- windows are recorded, and nothing else changes in the registry.
use mathlib.Core.Path.{◌∙◌}
use tear.Base.{
  ℕ, ◌≡◌, inl, inr, refl, sym, Bool, true, false, ◌||◌, List, [], ◌∷◌, some, none, if◌then◌else◌,
  ◌==◌, length, Bool-cases, Option-cases, nat_eq, if_both,
}
use tear.Base.Maps.{BTreeMap, get, contains_key, modify, contains-modify}
use tear.Kukaku.Float.{Float}
use tear.Kukaku.Geometry.{Rect}
use tear.Kukaku.Layout.{panes}
use tear.TearTypes.Pane.{TearPane, Cells}
use tear.TearTypes.Session.{TearSession, TearWindow}
use tear.TearCore.Registry.{Registry, locate_pane}
use tear.TearCore.Runtime.{
  InProcess, SystemIo, record_size, record_absolute_size, pane_resize_absolute, stamp_rects,
  resize_ptys, window_rects, apply_layout_geometry, at_least_one,
}
use tear.TearCore.Validity.{WindowIsValid, SessionIsValid, RegistryIsValid}
use tear.TearCore.Validity.Windows.{WindowKeeps, records-AreValid, window-AreValid}
use tear.TearCore.Validity.Sessions.{Evolves, modify-RegistryIsValid}

pub contains-stamp_rects :
    (pane : ℕ) (rects : List (ℕ × Rect)) (records : BTreeMap TearPane)
    → contains_key pane (stamp_rects rects records) ≡ contains_key pane records
unfolding stamp_rects
contains-stamp_rects pane [] records = refl
contains-stamp_rects pane ((id, rect) ∷ rects) records =
    contains-stamp_rects pane rects _ ∙ contains-modify id pane _ records

module _ {Num : Type 0} ⦃f : Float Num⦄ (r : Registry Num) (target sid : ℕ) where
  -- New records for the same panes.
  pub records-Evolves :
      (s : TearSession Num) (records' : BTreeMap TearPane)
      → ((pane : ℕ) → contains_key pane records' ≡ contains_key pane s.panes)
      → SessionIsValid s
      → Evolves r target sid s (record s { panes = records' })
  records-Evolves s records' same v = record {
    valid = records-AreValid s.windows s.panes records' s.active_window same v;
    same_id = refl;
    panes_from = λ pane h. inl (sym (same pane) ∙ h);
    windows_from = λ wid h. inl h;
  }

  -- A window's tree, focus or size changed, with the same panes in it.
  pub window-Evolves :
      (s : TearSession Num) (wid : ℕ) (change : TearWindow Num → TearWindow Num)
      → ((w : TearWindow Num) → get wid s.windows ≡ some w → WindowKeeps w (change w))
      → SessionIsValid s
      → Evolves r target sid s (record s { windows = modify wid change s.windows })
  window-Evolves s wid change keeps v = record {
    valid = window-AreValid wid change s.windows s.panes s.active_window keeps v;
    same_id = refl;
    panes_from = λ pane h. inl h;
    windows_from = λ j h. inl (sym (contains-modify wid j change s.windows) ∙ h);
  }

  pub Evolves-trans :
      (s t u : TearSession Num)
      → Evolves r target sid s t
      → Evolves r target sid t u
      → Evolves r target sid s u
  Evolves-trans s t u e e' = record {
    valid = e'.valid;
    same_id = e'.same_id ∙ e.same_id;
    panes_from = λ pane h. elim (e'.panes_from pane h) [
      | inl old ↦ e.panes_from pane old
      | inr new ↦ inr new
    ];
    windows_from = λ wid h. elim (e'.windows_from wid h) [
      | inl old ↦ e.windows_from wid old
      | inr new ↦ inr new
    ];
  }

module _ {Num : Type 0} ⦃f : Float Num⦄ where
  resized-keeps :
      (w : TearWindow Num) (size : Cells) (b : Bool)
      → WindowIsValid w
      → WindowKeeps w (if b then record w { size_cells = size } else w)
  resized-keeps w size true v = record {
    same_panes = refl;
    valid = record { well_formed = v.well_formed; focused = v.focused };
  }
  resized-keeps w size false v = record { same_panes = refl; valid = v }

  record_size-Evolves :
      (r : Registry Num) (sid wid id : ℕ) (size : Cells) (s : TearSession Num)
      → SessionIsValid s
      → Evolves r sid sid s (record_size wid id size s)
  unfolding record_size
  record_size-Evolves r sid wid id size s v =
      let resize = λ (w : TearWindow Num).
        if length (panes w.layout) == 1 then record w { size_cells = at_least_one size } else w in
      let windowed = record s { windows = modify wid resize s.windows } in
      let first =
        window-Evolves r sid sid s wid resize
          (λ w at.
            resized-keeps w (at_least_one size) (length (panes w.layout) == 1) (v.valid wid w at))
          v in
      Evolves-trans r sid sid s windowed _ first (
        records-Evolves r sid sid windowed _ (λ pane. contains-modify id pane _ s.panes)
          first.valid)

  pub record_absolute_size-IsValid :
      (id : ℕ) (size : Cells) (r : Registry Num)
      → RegistryIsValid r
      → RegistryIsValid (record_absolute_size id size r)
  unfolding record_absolute_size
  record_absolute_size-IsValid id size r v =
      elim (locate_pane r id)
        as (λ at.
          RegistryIsValid
            (elim at [ none ↦ r | some at ↦ modify at.0 (record_size at.1 id size) r ])) [
              | none ↦ v
              | some at ↦
                  modify-RegistryIsValid r at.0 (record_size at.1 id size) v
                    (λ s found. record_size-Evolves r at.0 at.1 id size s (v.valid at.0 s found))
            ]

  pub pane_resize_absolute-IsValid :
      (io : SystemIo) (id : ℕ) (size : Cells) (st : InProcess Num)
      → RegistryIsValid st.registry
      → RegistryIsValid (pane_resize_absolute io id size st).0.registry
  unfolding pane_resize_absolute
  pane_resize_absolute-IsValid io id size st v = elim (Bool-cases (contains_key id st.ptys)) [
    | inl has ↦ elim (Bool-cases (io.resize_ok id)) [
      | inl done ↦ rw (has, done) (record_absolute_size-IsValid id size st.registry v)
      | inr refused ↦ rw (has, refused) v
    ]
    | inr gone ↦ rw gone v
  ]

  pub resize_ptys-IsValid :
      (io : SystemIo) (rects : List (ℕ × Rect)) (st : InProcess Num)
      → RegistryIsValid st.registry
      → RegistryIsValid (resize_ptys io rects st).registry
  unfolding resize_ptys
  resize_ptys-IsValid io [] st v = v
  resize_ptys-IsValid io ((pane, rect) ∷ rects) st v = resize_ptys-IsValid io rects _ (
      if_both (λ (st : InProcess Num). RegistryIsValid st.registry) (rect.w == 0 || rect.h == 0) v
        (pane_resize_absolute-IsValid io pane (record { cols = rect.w; rows = rect.h }) st v))

  pub apply_layout_geometry-IsValid :
      (io : SystemIo) (sid wid : ℕ) (st : InProcess Num)
      → RegistryIsValid st.registry
      → RegistryIsValid (apply_layout_geometry io sid wid st).registry
  unfolding apply_layout_geometry
  apply_layout_geometry-IsValid io sid wid st v = elim (Option-cases (get sid st.registry)) [
    | inl none_there ↦ rw (none_there, apply_layout_geometry) v
    | inr (s, at) ↦ elim (Option-cases (get wid s.windows)) [
      | inl no_window ↦ rw (at, no_window, apply_layout_geometry) v
      | inr (w, there) ↦
          rw (at, there, apply_layout_geometry)
            (resize_ptys-IsValid io (window_rects w) _ (
              modify-RegistryIsValid st.registry sid _ v (λ old found.
                records-Evolves st.registry sid sid old _
                  (λ pane. contains-stamp_rects pane (window_rects w) old.panes)
                  (v.valid sid old found))))
    ]
  ]
