-- ===== src/TearCore/Restoring/Started.antt =====
-- tear-core/src/inproc/durable.rs: what a start makes of the state, and how it comes about
-- from the first document and the others.
use mathlib.Core.Path.{◌∙◌}
use tear.Base.{
  ℕ, ◌≡◌, inl, inr, sym, ap, true, false, ◌∷◌, some, none, arith, ◌==◌, ==_iff, Bool-cases, nat_eq,
}
use tear.Base.Maps.{get, contains_key, contains_key-get, contains_of_get}
use tear.Base.Maps.Entries.{AllAbove-absent}
use tear.Kukaku.Float.{Float, IsIeee}
use tear.TearTypes.Session.{TearSession}
use tear.TearCore.Registry.{Registry}
use tear.TearCore.Runtime.{InProcess, in_registry}
use tear.TearCore.Validity.{RegistryIsValid}
use tear.TearCore.Restoring.{PaneOnDisk, AttachIo, RestoreReport, restore_session}
use tear.TearCore.Restoring.Attaching.{gets_back, IsSettled}
use tear.TearCore.Restoring.Documents.{AreNew, pane_of_first, same_id, restored}
use tear.TearCore.Restoring.Outcome.{lives, IsRestored}

-- What a start makes of the state. A session that is there already hides its document.
pub record IsRestarted {Num : Type 0} ⦃f : Float Num⦄ (disk : ℕ → PaneOnDisk) (ios : ℕ → AttachIo)
    (docs : Registry Num) (st st' : InProcess Num) : Type 0 where
  pub valid : RegistryIsValid st'.registry
  pub kept :
      (sid : ℕ) → contains_key sid st.registry ≡ true → get sid st'.registry ≡ get sid st.registry
  pub others :
      (sid : ℕ) → contains_key sid docs ≡ false → get sid st'.registry ≡ get sid st.registry
  pub over :
      (sid : ℕ) (doc : TearSession Num)
      → get sid docs ≡ some doc
      → contains_key sid st.registry ≡ false
      → ((q : ℕ) → lives disk doc q ≡ false)
      → get sid st'.registry ≡ none
  pub back :
      (sid : ℕ) (doc : TearSession Num) (some_pane : ℕ)
      → get sid docs ≡ some doc
      → contains_key sid st.registry ≡ false
      → lives disk doc some_pane ≡ true
      → (s : TearSession Num) × (get sid st'.registry ≡ some s)
        × ((q : ℕ) → contains_key q s.panes ≡ lives disk doc q)
        × ((wid : ℕ) → contains_key wid s.windows ≡ true → contains_key wid doc.windows ≡ true)
        × ((q : ℕ) → IsSettled (gets_back disk ios) sid q st')
  pub untouched :
      (q : ℕ)
      → in_registry q docs ≡ false
      → (contains_key q st'.ptys ≡ contains_key q st.ptys)
        × (contains_key q st'.grids ≡ contains_key q st.grids)

module _ {Num : Type 0} ⦃f : Float Num⦄ (disk : ℕ → PaneOnDisk) (ios : ℕ → AttachIo) (k : ℕ)
    (doc : TearSession Num) (r : Registry Num) (st st' : InProcess Num) where
  -- A document whose session is there already is passed over.
  pub hidden-IsRestarted :
      contains_key k st.registry ≡ true
      → IsRestarted disk ios r st st'
      → IsRestarted disk ios ((k, doc) ∷ r) st st'
  hidden-IsRestarted hidden rest =
      let later : (sid : ℕ) (d : TearSession Num)
          → get sid ((k, doc) ∷ r) ≡ some d
          → contains_key sid st.registry ≡ false
          → get sid r ≡ some d =
        λ sid d at out. ground (arith, hidden) in
      record {
        valid = rest.valid;
        kept = rest.kept;
        others = λ sid h. rest.others sid (ground arith);
        over = λ sid d at out none_lives. rest.over sid d (later sid d at out) out none_lives;
        back = λ sid d pane at out h. rest.back sid d pane (later sid d at out) out h;
        untouched = λ q h. rest.untouched q (ground arith);
      }

module _ {Num : Type 0} ⦃f : Float Num⦄ (ieee : IsIeee f) (disk : ℕ → PaneOnDisk)
    (ios : ℕ → AttachIo) (k : ℕ) (doc : TearSession Num) (r : Registry Num) (st : InProcess Num)
    (report : RestoreReport) (v : RegistryIsValid st.registry) (new : AreNew ((k, doc) ∷ r) st)
    (absent : contains_key k st.registry ≡ false) (st' : InProcess Num)
    (rest : IsRestarted disk ios r (restore_session disk ios doc (st, report)).0 st') where
  abbrev first : InProcess Num
  first = (restore_session disk ios doc (st, report)).0

  own_id : doc.id ≡ k
  own_id = same_id ieee disk ios k doc r st report v new

  after : IsRestored disk ios doc st first
  after = restored ieee disk ios k doc r st report v new

  absent_later : contains_key k r ≡ false
  absent_later = ground (arith, contains_key-get k r, AllAbove-absent k r new.well_formed.ordered.0)

  other_session : (sid : ℕ) → (k == sid) ≡ false → get sid first.registry ≡ get sid st.registry
  other_session sid ne = after.others sid (ground (arith, own_id))

  stays_absent :
      (sid : ℕ)
      → (k == sid) ≡ false
      → contains_key sid st.registry ≡ false
      → contains_key sid first.registry ≡ false
  stays_absent sid ne out = ground (
    arith,
    contains_key-get sid first.registry,
    contains_key-get sid st.registry,
    other_session sid ne,
  )

  kept_after :
      (sid : ℕ) → contains_key sid st.registry ≡ true → get sid st'.registry ≡ get sid st.registry
  kept_after sid h =
      let ne : (k == sid) ≡ false = ground (arith, absent) in
      let same = other_session sid ne in
      let still : contains_key sid first.registry ≡ true =
        ground (arith, contains_key-get sid first.registry, contains_key-get sid st.registry) in
      rest.kept sid still ∙ same

  own_over : ((q : ℕ) → lives disk doc q ≡ false) → get k st'.registry ≡ none
  own_over none_lives =
      let same = after.over none_lives in
      rest.others k absent_later
      ∙ ap (λ (x : InProcess Num). get k x.registry) same
      ∙ ground (arith, contains_key-get k st.registry)

  own_back :
      (some_pane : ℕ)
      → lives disk doc some_pane ≡ true
      → (s : TearSession Num) × (get k st'.registry ≡ some s)
        × ((q : ℕ) → contains_key q s.panes ≡ lives disk doc q)
        × ((wid : ℕ) → contains_key wid s.windows ≡ true → contains_key wid doc.windows ≡ true)
        × ((q : ℕ) → IsSettled (gets_back disk ios) k q st')
  own_back some_pane h =
      let (s, at, panes, windows) = after.back some_pane h in
      let at_first : get k first.registry ≡ some s =
        ap (λ j. get j first.registry) (sym own_id) ∙ at in
      let there = contains_of_get k s first.registry at_first in
      let at_last : get k st'.registry ≡ some s = rest.kept k there ∙ at_first in
      (
        s,
        at_last,
        panes,
        windows,
        λ q p found.
            let at_pane : get q s.panes ≡ some p = ground (arith, at_last) in
            let has = contains_of_get q p s.panes at_pane in
            let out = pane_of_first new.well_formed q (ground (arith, panes q)) in
            let (ptys, grids) = rest.untouched q out in
            elim (after.settled some_pane h q p (ground (arith, at))) [
              | inl (works, runs, pty) ↦ inl (works, runs, ptys ∙ pty)
              | inr (fails, exited, dark) ↦ inr (fails, exited, grids ∙ dark)
            ],
      )

  pub restored-IsRestarted : IsRestarted disk ios ((k, doc) ∷ r) st st'
  restored-IsRestarted = record {
    valid = rest.valid;
    kept = kept_after;
    others = λ sid h. rest.others sid (ground arith) ∙ other_session sid (ground arith);
    over = λ sid d at out none_lives. elim (Bool-cases (k == sid)) [
      | inl own ↦
          let e : k ≡ sid = (==_iff k sid).0 own in
          let same : doc ≡ d = ground arith in
          rw (← e) (own_over (λ q. ap (λ x. lives disk x q) same ∙ none_lives q))
      | inr other ↦ rest.over sid d (ground arith) (stays_absent sid other out) none_lives
    ];
    back = λ sid d pane at out h. elim (Bool-cases (k == sid)) [
      | inl own ↦
          let e : k ≡ sid = (==_iff k sid).0 own in
          let same : doc ≡ d = ground arith in
          rw (← e, ← same) (own_back pane (ap (λ x. lives disk x pane) same ∙ h))
      | inr other ↦ rest.back sid d pane (ground arith) (stays_absent sid other out) h
    ];
    untouched = λ q h.
        let (ptys, grids) = rest.untouched q (ground arith) in
        let (ptys', grids') = after.untouched q (ground arith) in (ptys ∙ ptys', grids ∙ grids');
  }
