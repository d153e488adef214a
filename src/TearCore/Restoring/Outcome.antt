-- ===== src/TearCore/Restoring/Outcome.antt =====
-- tear-core/src/inproc/durable.rs: what `restore_session` makes of a document of the store.
use mathlib.Core.Path.{◌∙◌}
use tear.Base.{
  none, some, All, ℕ, ◌≡◌, ◌≢◌, ◌⊎◌, inl, inr, refl, sym, ap, Bool, true, false, not, ◌&&◌, [], ◌∷◌,
  some, arith, ◌==◌, Bool-cases, List-cases, nat_eq, elem, subst, Distinct, length, ◌+◌,
}
use tear.Base.Maps.{
  BTreeMap, get, contains_key, insert, get-insert, Ascending, contains_key-get, contains_of_get,
}
use tear.Base.Maps.Entries.{AllAbove-absent}
use tear.Kukaku.Float.{Float, IsIeee}
use tear.Makimono.Lease.{ok, failed}
use tear.TearTypes.Pane.{TearPane, PaneState}
use tear.TearTypes.Session.{TearSession}
use tear.TearCore.Runtime.{InProcess}
use tear.TearCore.Validity.{SessionIsValid, RegistryIsValid}
use tear.TearCore.Validity.Windows.{records-AreValid}
use tear.TearCore.Restoring.{
  Planned, classify, PaneOnDisk, AttachIo, RestoreReport, Verdict, held, orphaned, ended,
  verdict_on, ended_panes, restore_plan, set_running, prune_all, attach_all, restore_session,
}
use tear.TearCore.Restoring.Pruning.{prune_all-panes, prune_all-Shrinks}
use tear.TearCore.Restoring.Attaching.{
  attempt, gets_back, ids, pane_at, IsSettled, Stands, attach_all-IsSettled, attach_all_others,
}
use tear.TearCore.Restoring.Validity.{
  IsApart, contains-set_running, insert-RegistryIsValid, attach_all-IsValid,
}
use tear.TearCore.Restoring.Marks.{attach_all-Marks}

abbrev pub is_ended : Verdict → Bool
is_ended (ended e) = true
is_ended held = false
is_ended orphaned = false

module _ (disk : ℕ → PaneOnDisk) where
  elem-ended_panes :
      (q : ℕ) (m : BTreeMap TearPane)
      → elem q (ended_panes disk m) ≡ (contains_key q m && is_ended (verdict_on disk q))
  unfolding ended_panes
  elem-ended_panes q [] = refl
  elem-ended_panes q ((pid, pane) ∷ m) = ground (arith, elem-ended_panes q m)

  elem-restore_plan :
      (q : ℕ) (m : BTreeMap TearPane)
      → elem q (ids (restore_plan disk m))
        ≡ (contains_key q m && not (is_ended (verdict_on disk q)))
  unfolding restore_plan
  elem-restore_plan q [] = refl
  elem-restore_plan q ((pid, pane) ∷ m) = ground (arith, elem-restore_plan q m)

  restore_plan-Distinct :
      (m : BTreeMap TearPane) → Ascending m → Distinct (ids (restore_plan disk m))
  unfolding restore_plan
  restore_plan-Distinct [] asc = tt
  restore_plan-Distinct ((pid, pane) ∷ m) asc =
      let absent : contains_key pid m ≡ false =
        ground (arith, contains_key-get pid m, AllAbove-absent pid m asc.0) in
      ground (arith, restore_plan-Distinct m asc.1, elem-restore_plan pid m, absent)

  -- The plan revives the panes whose holder does not answer.
  restore_plan-attempt :
      (ios : ℕ → AttachIo) (m : BTreeMap TearPane)
      → All
          (λ (p : Planned). gets_back disk ios p.0 ≡ attempt (ios p.0) (not p.2))
          (restore_plan disk m)
  unfolding restore_plan verdict_on classify
  restore_plan-attempt ios [] = tt
  restore_plan-attempt ios ((pid, pane) ∷ m) = ground (arith, restore_plan-attempt ios m)

set_running-running :
    (q : ℕ) (panes : BTreeMap TearPane) (p : TearPane)
    → get q (set_running panes) ≡ some p
    → p.state ≡ PaneState.running
unfolding set_running
set_running-running q [] p at = absurd (cc at)
set_running-running q ((pid, pane) ∷ panes) p at = ground (arith, set_running-running q panes p)

none_of : (m : BTreeMap TearPane) → ((q : ℕ) → contains_key q m ≡ false) → m ≡ []
none_of [] h = refl
none_of ((k, p) ∷ m) h = absurd (ground (arith, h k))

-- The store has a readable tombstone of the pane.
abbrev pub has_tombstone : PaneOnDisk → Bool
has_tombstone pane = elim pane.tombstone [
  | failed ↦ false
  | ok found ↦ elim found [ none ↦ false | some ending ↦ true ]
]

-- A pane of the document that has no tombstone, whether or not a holder answers for it.
abbrev pub lives : {Num : Type 0} → (ℕ → PaneOnDisk) → TearSession Num → ℕ → Bool
lives disk doc q = contains_key q doc.panes && not (has_tombstone (disk q))

verdict_on-has_tombstone :
    (disk : ℕ → PaneOnDisk) (q : ℕ) → is_ended (verdict_on disk q) ≡ has_tombstone (disk q)
unfolding verdict_on classify
verdict_on-has_tombstone disk q = ground arith

-- What `restore_session` makes of the state.
pub record IsRestored {Num : Type 0} ⦃f : Float Num⦄ (disk : ℕ → PaneOnDisk) (ios : ℕ → AttachIo)
    (doc : TearSession Num) (st st' : InProcess Num) : Type 0 where
  pub valid : RegistryIsValid st'.registry
  pub others : (j : ℕ) → (doc.id == j) ≡ false → get j st'.registry ≡ get j st.registry
  pub over : ((q : ℕ) → lives disk doc q ≡ false) → st' ≡ st
  pub back :
      (some_pane : ℕ)
      → lives disk doc some_pane ≡ true
      → (s : TearSession Num) × (get doc.id st'.registry ≡ some s)
        × ((q : ℕ) → contains_key q s.panes ≡ lives disk doc q)
        × ((wid : ℕ) → contains_key wid s.windows ≡ true → contains_key wid doc.windows ≡ true)
  pub untouched :
      (q : ℕ)
      → contains_key q doc.panes ≡ false
      → (contains_key q st'.ptys ≡ contains_key q st.ptys)
        × (contains_key q st'.grids ≡ contains_key q st.grids)
  pub settled :
      (some_pane : ℕ)
      → lives disk doc some_pane ≡ true
      → (q : ℕ) → IsSettled (gets_back disk ios) doc.id q st'

module _ {Num : Type 0} ⦃f : Float Num⦄ (ieee : IsIeee f) (disk : ℕ → PaneOnDisk)
    (ios : ℕ → AttachIo) (doc : TearSession Num) (st : InProcess Num) (report : RestoreReport)
    (fits : SessionIsValid doc) (asc : Ascending doc.panes) (apart : IsApart st.registry doc)
    (v : RegistryIsValid st.registry) where
  abbrev pruned : TearSession Num
  pruned = prune_all (ended_panes disk doc.panes) doc

  abbrev inserted : InProcess Num
  inserted = record st {
    registry = insert doc.id (record pruned { panes = set_running pruned.panes }) st.registry;
  }

  pruned-lives : (q : ℕ) → contains_key q pruned.panes ≡ lives disk doc q
  pruned-lives q =
      prune_all-panes (ended_panes disk doc.panes) doc q
      ∙ ground (arith, elem-ended_panes disk q doc.panes, verdict_on-has_tombstone disk q)

  inserted-IsValid : RegistryIsValid inserted.registry
  inserted-IsValid =
      let shrunk = prune_all-Shrinks ieee (ended_panes disk doc.panes) doc fits in
      let running : TearSession Num = record pruned { panes = set_running pruned.panes } in
      subst (λ sid. RegistryIsValid (insert sid running st.registry)) shrunk.same_id
        (insert-RegistryIsValid st.registry running v
          (records-AreValid pruned.windows pruned.panes (set_running pruned.panes)
            pruned.active_window (λ q. contains-set_running q pruned.panes) shrunk.valid)
          (record {
            panes_new = λ q h.
                apart.panes_new q
                  (ground (arith, contains-set_running q pruned.panes, pruned-lives q));
            windows_new = λ wid h. apart.windows_new wid (shrunk.windows_from wid h);
          }))

  inserted-here :
      get doc.id inserted.registry ≡ some (record pruned { panes = set_running pruned.panes })
  inserted-here =
      let running : TearSession Num = record pruned { panes = set_running pruned.panes } in
      ground (arith, get-insert doc.id doc.id running st.registry)

  inserted_others : (j : ℕ) → (doc.id == j) ≡ false → get j inserted.registry ≡ get j st.registry
  inserted_others j ne =
      let running : TearSession Num = record pruned { panes = set_running pruned.panes } in
      ground (arith, get-insert doc.id j running st.registry)

  read_inserted :
      (q : ℕ) (p : TearPane)
      → pane_at doc.id q inserted.registry ≡ some p
      → get q (set_running pruned.panes) ≡ some p
  read_inserted q p at = ground (arith, inserted-here)

  -- Before the plan is carried out every pane of the session runs, and every one is planned.
  plan-Stands :
      (q : ℕ) → Stands (gets_back disk ios) doc.id q (restore_plan disk doc.panes) inserted
  plan-Stands q = elim (Bool-cases (elem q (ids (restore_plan disk doc.panes)))) [
    | inl planned ↦ rw planned λ p at. set_running-running q pruned.panes p (read_inserted q p at)
    | inr unplanned ↦ rw unplanned λ p at.
        let here = contains_of_get q p (set_running pruned.panes) (read_inserted q p at) in
        absurd (
          ground (
            arith,
            here,
            contains-set_running q pruned.panes,
            pruned-lives q,
            elem-restore_plan disk q doc.panes,
            verdict_on-has_tombstone disk q,
          ))
  ]

  abbrev counted : RestoreReport
  counted = record report {
    sessions = report.sessions + 1;
    ended = report.ended + length (ended_panes disk doc.panes);
  }

  abbrev attached : InProcess Num
  attached = (attach_all ios doc.id (restore_plan disk doc.panes) (inserted, counted)).0

  restored_cases :
      ((pruned.panes ≡ []) × ((restore_session disk ios doc (st, report)).0 ≡ st))
      ⊎ ((pruned.panes ≢ []) × ((restore_session disk ios doc (st, report)).0 ≡ attached))
  unfolding restore_session
  restored_cases = elim (List-cases pruned.panes) [
    | inl gone ↦ inl (gone, ground arith)
    | inr (k, more, e) ↦ inr (λ h. cc, ground arith)
  ]

  -- A document of which nothing is left changes nothing.
  none_left : pruned.panes ≡ [] → IsRestored disk ios doc st st
  none_left gone =
      let over : (q : ℕ) → lives disk doc q ≡ true → ⊥ =
        λ q h. absurd (cc (h, pruned-lives q, ap (contains_key q) gone)) in
      record {
        valid = v;
        others = λ j ne. refl;
        over = λ h. refl;
        back = λ q h. absurd (over q h);
        untouched = λ q other. (refl, refl);
        settled = λ q h. absurd (over q h);
      }

  some_left : pruned.panes ≢ [] → IsRestored disk ios doc st attached
  some_left left =
      let plan = restore_plan disk doc.panes in
      let shrunk = prune_all-Shrinks ieee (ended_panes disk doc.panes) doc fits in
      let marks = attach_all-Marks ios doc.id plan inserted counted in
      let (s, at, same, windows) =
        marks.own (record pruned { panes = set_running pruned.panes }) inserted-here in
      record {
        valid = attach_all-IsValid ios doc.id plan inserted counted inserted-IsValid;
        others = λ j ne. marks.others j ne ∙ inserted_others j ne;
        over = λ h. absurd (left (none_of pruned.panes (λ q. pruned-lives q ∙ h q)));
        back = λ some_pane h. (
          s,
          at,
          λ q. same q ∙ contains-set_running q pruned.panes ∙ pruned-lives q,
          λ wid has. shrunk.windows_from wid (sym (ap (contains_key wid) windows) ∙ has),
        );
        untouched = λ q other.
            attach_all_others ios doc.id q plan inserted counted
              (ground (arith, elem-restore_plan disk q doc.panes, verdict_on-has_tombstone disk q));
        settled = λ some_pane h q.
            attach_all-IsSettled ios doc.id q plan inserted counted (gets_back disk ios)
              (restore_plan-attempt disk ios doc.panes) (restore_plan-Distinct disk doc.panes asc)
              (plan-Stands q);
      }

  pub living_cases :
      ((q : ℕ) → lives disk doc q ≡ false) ⊎ ((some_pane : ℕ) × (lives disk doc some_pane ≡ true))
  living_cases = elim (List-cases pruned.panes) [
    | inl gone ↦ inl λ q. sym (pruned-lives q) ∙ ap (contains_key q) gone
    | inr ((k, p), more, e) ↦ inr (k, ground (arith, pruned-lives k, ap (contains_key k) e))
  ]

  -- For the document of a valid session, with its panes in key order, and a valid registry that knows
  -- none of its panes and windows, whatever the store and the system answer: the registry is valid
  -- after `restore_session`, every other session is as before, and so is which panes of others have a
  -- terminal or a grid. Where every pane of the document
  -- has a tombstone the state is unchanged. Otherwise the session is in the registry with exactly the
  -- panes that have no tombstone, and no window that the document does not have; each of its panes
  -- that gets a holder, be it the one that answers or a new one, is running and has a terminal; each
  -- other one is shown as exited with code -1 and has no grid.
  pub restore_session-IsRestored :
      IsRestored disk ios doc st (restore_session disk ios doc (st, report)).0
  restore_session-IsRestored = elim restored_cases [
    | inl (gone, e) ↦ rw e (none_left gone)
    | inr (left, e) ↦ rw e (some_left left)
  ]
