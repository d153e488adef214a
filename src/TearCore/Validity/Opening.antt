-- ===== src/TearCore/Validity/Opening.antt =====
-- Changes of one session that keep `AreValid`: a window opened, and a window closed.
use mathlib.Core.Path.{◌∙◌}
use tear.Base.{
  ℕ, ◌≡◌, ◌≢◌, inl, inr, sym, true, false, some, arith, nat_eq, ◌==◌, ==_iff, Bool-cases,
  if◌then◌else◌,
}
use tear.Base.Maps.{
  BTreeMap, get, contains_key, insert, remove, first_key, first_key-contains, get-insert,
  get-remove, contains-insert, contains-remove, contains_of_get,
}
use tear.Base.Maps.Entries.{get-insert_cases, get-remove_found, insert-Ascending, remove-Ascending}
use tear.Kukaku.Float.{Float}
use tear.TearTypes.Pane.{TearPane}
use tear.TearTypes.Session.{TearWindow, null_id}
use tear.TearCore.Validity.{shows, WindowIsValid, AreValid}

-- A window with one pane; neither id is in use.
module _ {Num : Type 0} ⦃f : Float Num⦄ (wid id : ℕ) (w₀ : TearWindow Num) (p₀ : TearPane)
    (windows : BTreeMap (TearWindow Num)) (records : BTreeMap TearPane) (active_window : ℕ)
    (fresh_window : contains_key wid windows ≡ false) (fresh_pane : contains_key id records ≡ false)
    (opened_valid : WindowIsValid w₀) (only : (q : ℕ) → shows w₀ q ≡ (id == q))
    (v : AreValid windows records active_window) where
  other_than : (j : ℕ) (w : TearWindow Num) → get j windows ≡ some w → wid ≢ j
  other_than j w found e = cc (contains_of_get j w windows found, fresh_window, e)

  not_shown : (j : ℕ) (w : TearWindow Num) → get j windows ≡ some w → shows w id ≡ false
  not_shown j w found = elim (Bool-cases (shows w id)) [
    | inl s ↦ absurd (cc (v.recorded j w found id s, fresh_pane))
    | inr n ↦ n
  ]

  shown' :
      (pane : ℕ)
      → contains_key pane (insert id p₀ records) ≡ true
      → (j : ℕ) × (w : TearWindow Num) × (get j (insert wid w₀ windows) ≡ some w)
        × (shows w pane ≡ true)
  shown' pane has = elim (Bool-cases (id == pane)) [
    | inl hit ↦ (wid, w₀, ground (arith, get-insert wid wid w₀ windows), only pane ∙ hit)
    | inr miss ↦
        let (j, w, found, s) = v.shown pane (ground (arith, contains-insert id pane p₀ records)) in
        let ne : wid ≢ j = other_than j w found in
        (j, w, ground (arith, get-insert wid j w₀ windows), s)
  ]

  once' :
      (j j' : ℕ) (w w' : TearWindow Num)
      → get j (insert wid w₀ windows) ≡ some w
      → get j' (insert wid w₀ windows) ≡ some w'
      → (pane : ℕ) → shows w pane ≡ true
      → shows w' pane ≡ true
      → j ≡ j'
  once' j j' w w' at at' pane s s' = elim (get-insert_cases wid j w₀ windows w at) [
    | inl (e, is) ↦
        let hit : id ≡ pane = (==_iff id pane).0 (sym (only pane) ∙ (rw (← is) s)) in
        elim (get-insert_cases wid j' w₀ windows w' at') [
          | inl (e', is') ↦ sym e ∙ e'
          | inr (ne', found') ↦ absurd (cc (not_shown j' w' found', hit, s'))
        ]
    | inr (ne, found) ↦ elim (get-insert_cases wid j' w₀ windows w' at') [
      | inl (e', is') ↦
          let hit : id ≡ pane = (==_iff id pane).0 (sym (only pane) ∙ (rw (← is') s')) in
          absurd (cc (not_shown j w found, hit, s))
      | inr (ne', found') ↦ v.once j j' w w' found found' pane s s'
    ]
  ]

  pub opened-AreValid :
      AreValid
        (insert wid w₀ windows)
        (insert id p₀ records)
        (if active_window == null_id then wid else active_window)
  opened-AreValid = record {
    ordered = insert-Ascending wid w₀ windows v.ordered;
    valid = λ j w at. elim (get-insert_cases wid j w₀ windows w at) [
      | inl (e, is) ↦ rw is opened_valid
      | inr (ne, found) ↦ v.valid j w found
    ];
    recorded = λ j w at pane s. elim (get-insert_cases wid j w₀ windows w at) [
      | inl (e, is) ↦
          let hit : (id == pane) ≡ true = sym (only pane) ∙ (rw (← is) s) in
          ground (arith, contains-insert id pane p₀ records)
      | inr (ne, found) ↦
          ground (arith, contains-insert id pane p₀ records, v.recorded j w found pane s)
    ];
    shown = shown';
    once = once';
    focus = inr (elim v.focus [
      | inl (none_yet, null) ↦ rw (none_yet, null) (ground arith)
      | inr at ↦
          ground (
            arith,
            contains-insert wid wid w₀ windows,
            contains-insert wid active_window w₀ windows,
          )
    ]);
  }

-- A window closed, with the records of its panes.
module _ {Num : Type 0} ⦃f : Float Num⦄ (wid : ℕ) (w₀ : TearWindow Num)
    (windows : BTreeMap (TearWindow Num)) (records records' : BTreeMap TearPane) (active_window : ℕ)
    (there : get wid windows ≡ some w₀)
    (has_rest : (q : ℕ)
      → contains_key q records' ≡ (if shows w₀ q then false else contains_key q records))
    (v : AreValid windows records active_window) where
  pub closed-AreValid :
      AreValid
        (remove wid windows)
        records'
        (if active_window == wid then first_key (remove wid windows) else active_window)
  closed-AreValid = record {
    ordered = remove-Ascending wid windows v.ordered;
    valid = λ j w at. v.valid j w (get-remove_found wid j windows w at).1;
    recorded = λ j w at pane s.
        let (ne, found) = get-remove_found wid j windows w at in
        elim (Bool-cases (shows w₀ pane)) [
          | inl both ↦ absurd (ne (v.once wid j w₀ w there found pane both s))
          | inr not_there ↦ ground (arith, has_rest pane, v.recorded j w found pane s)
        ];
    shown = λ pane has.
        let not_there : shows w₀ pane ≡ false = ground (arith, has_rest pane) in
        let (j, w, found, s) = v.shown pane (ground (arith, has_rest pane)) in
        let ne : wid ≢ j = λ e. cc (there, found, e, s, not_there) in
        (j, w, ground (arith, get-remove wid j windows), s);
    once = λ j j' w w' at at'.
        v.once j j' w w' (get-remove_found wid j windows w at).1
          (get-remove_found wid j' windows w' at').1;
    focus = elim (first_key-contains (remove wid windows)) [
      | inl gone ↦ elim v.focus [
        | inl (none_yet, null) ↦ absurd (cc (there, none_yet))
        | inr at ↦ inl (gone, ground (arith, gone, contains-remove wid active_window windows))
      ]
      | inr first ↦ elim v.focus [
        | inl (none_yet, null) ↦ absurd (cc (there, none_yet))
        | inr at ↦ inr (ground (arith, contains-remove wid active_window windows))
      ]
    ];
  }
