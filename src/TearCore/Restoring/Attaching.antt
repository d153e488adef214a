-- ===== src/TearCore/Restoring/Attaching.antt =====
-- tear-core/src/inproc/durable.rs: what becomes of the panes of a restored session as its plan is
-- carried out.
use mathlib.Core.Path.{◌∙◌}
use tear.Base.{
  ℕ, ◌≡◌, ◌≢◌, ◌⊎◌, inl, inr, refl, sym, ap, Bool, true, false, List, [], ◌∷◌, Option, some, none,
  arith, ◌==◌, ==_iff, Bool-cases, Option-cases, nat_eq, elem, Distinct, if◌then◌else◌, not, ◌&&◌,
  All,
}
use tear.Base.Int.{minus_one}
use tear.Base.Maps.{get, contains_key, get-modify, contains-insert, contains-remove}
use tear.Makimono.Lease.{ok, failed}
use tear.TearTypes.Pane.{TearPane, PaneState, Cells}
use tear.TearCore.Registry.{Registry}
use tear.TearCore.Runtime.{InProcess, Pty, at_least_one}
use tear.TearCore.Exit.{mark_exited}
use tear.TearCore.Restoring.{
  PaneOnDisk, adopted, denied, gone, gets_holder, launch_restored, AttachIo, RestoreReport, Planned,
  attach_restored, give_up, attach_planned, attach_all,
}

abbrev pub ids : List Planned → List ℕ
ids [] = []
ids ((pid, size, revive) ∷ plan) = pid ∷ ids plan

-- Whether the pane gets a holder: where the one on the disk answers and can be taken over it is, and
-- otherwise a new one is started, unless the daemon has lost the store.
abbrev pub attempt : AttachIo → Bool → Bool
attempt io answers =
    let starts = io.still_holds && (io.meta_written && io.launched) in
    io.holds
    && (io.created
        && (if answers
            then (elim io.adoption [ adopted ↦ true | denied ↦ false | gone ↦ starts ])
            else starts))

abbrev pub gets_back : (ℕ → PaneOnDisk) → (ℕ → AttachIo) → ℕ → Bool
gets_back disk ios q = attempt (ios q) (disk q).answers

module _ {Num : Type 0} where
  -- The record of a pane in one session.
  abbrev pub pane_at : ℕ → ℕ → Registry Num → Option TearPane
  pane_at sid q r = elim (get sid r) [ none ↦ none | some s ↦ get q s.panes ]

  -- The pane gets a holder, runs and has a terminal; or it gets none, is shown as exited and has no
  -- grid.
  abbrev pub IsSettled : (ℕ → Bool) → ℕ → ℕ → InProcess Num → Type 0
  IsSettled back sid q st =
      (p : TearPane)
      → pane_at sid q st.registry ≡ some p
      → ((back q ≡ true) × (p.state ≡ PaneState.running) × (contains_key q st.ptys ≡ true))
        ⊎ ((back q ≡ false)
            × (p.state ≡ PaneState.exited minus_one)
            × (contains_key q st.grids ≡ false))

  abbrev pub IsRunning : ℕ → ℕ → InProcess Num → Type 0
  IsRunning sid q st =
      (p : TearPane) → pane_at sid q st.registry ≡ some p → p.state ≡ PaneState.running

  -- What one round does to the registry: nothing, or the mark on its pane.
  pub attach_restored-registry :
      (io : AttachIo) (p : Planned) (st : InProcess Num)
      → (attach_restored io p st).0.registry ≡ st.registry
  unfolding attach_restored
  attach_restored-registry io (pid, size, revive) st = ground arith

  pane_at-give_up :
      (sid pid q : ℕ) (st : InProcess Num)
      → pane_at sid q (give_up sid pid st).registry ≡ (
          if pid == q
          then (elim (pane_at sid q st.registry) [
            | none ↦ none
            | some p ↦ some (record p { state = PaneState.exited minus_one })
          ])
          else pane_at sid q st.registry)
  unfolding give_up mark_exited
  pane_at-give_up sid pid q st = elim (Option-cases (get sid st.registry)) [
    | inl missing ↦
        ground (arith, missing, get-modify sid sid (mark_exited pid minus_one) st.registry)
    | inr (s, at) ↦ ground (
      arith,
      at,
      get-modify sid sid (mark_exited pid minus_one) st.registry,
      get-modify pid q (λ p. record p { state = PaneState.exited minus_one }) s.panes,
    )
  ]

  give_up_parts :
      (sid pid q : ℕ) (st : InProcess Num)
      → ((give_up sid pid st).ptys ≡ st.ptys)
        × (contains_key q (give_up sid pid st).grids
            ≡ (if pid == q then false else contains_key q st.grids))
  unfolding give_up
  give_up_parts sid pid q st = (refl, contains-remove pid q st.grids)

  attach_restored_terminal :
      (io : AttachIo) (pid : ℕ) (size : Cells) (revive : Bool) (st : InProcess Num)
      → (attach_restored io (pid, size, revive) st).1 ≡ ok tt
      → contains_key pid (attach_restored io (pid, size, revive) st).0.ptys ≡ true
  unfolding attach_restored
  attach_restored_terminal io pid size revive st h =
      let pty : Pty = record { winsize = at_least_one size; written = [] } in
      ground (arith, contains-insert pid pid pty st.ptys)

  attach_restored_result :
      (io : AttachIo) (pid : ℕ) (size : Cells) (revive : Bool) (st : InProcess Num)
      → (attach_restored io (pid, size, revive) st).1
        ≡ (if attempt io (not revive) then ok tt else failed)
  unfolding attach_restored gets_holder launch_restored
  attach_restored_result io pid size revive st = ground arith

  attach_restored_others :
      (io : AttachIo) (pid q : ℕ) (size : Cells) (revive : Bool) (st : InProcess Num)
      → pid ≢ q
      → (contains_key q (attach_restored io (pid, size, revive) st).0.ptys ≡ contains_key q st.ptys)
        × (contains_key q (attach_restored io (pid, size, revive) st).0.grids
            ≡ contains_key q st.grids)
  unfolding attach_restored
  attach_restored_others io pid q size revive st ne =
      let pty : Pty = record { winsize = at_least_one size; written = [] } in
      (
        ground (arith, contains-insert pid q pty st.ptys),
        ground (arith, contains-insert pid q (at_least_one size) st.grids),
      )

  -- The state after a round, by the result of its attempt.
  pub attach_planned_cases :
      (ios : ℕ → AttachIo) (sid pid : ℕ) (size : Cells) (revive : Bool) (st : InProcess Num)
      (report : RestoreReport)
      → let (after, result) = attach_restored (ios pid) (pid, size, revive) st in
        let round = (attach_planned ios sid (pid, size, revive) (st, report)).0 in
        ((result ≡ ok tt) × (round ≡ after)) ⊎ ((result ≡ failed) × (round ≡ give_up sid pid after))
  unfolding attach_planned
  attach_planned_cases ios sid pid size revive st report = ground arith

  -- Its own pane is settled by a round, and every other stays so.
  attach_planned-IsSettled :
      (ios : ℕ → AttachIo) (sid pid : ℕ) (size : Cells) (revive : Bool) (st : InProcess Num)
      (report : RestoreReport) (back : ℕ → Bool)
      → back pid ≡ attempt (ios pid) (not revive)
      → IsRunning sid pid st
      → IsSettled back sid pid (attach_planned ios sid (pid, size, revive) (st, report)).0
  attach_planned-IsSettled ios sid pid size revive st report back own running p =
      let answer = attach_restored_result (ios pid) pid size revive st in
      let after = (attach_restored (ios pid) (pid, size, revive) st).0 in
      let same = attach_restored-registry (ios pid) (pid, size, revive) st in
      elim (attach_planned_cases ios sid pid size revive st report) [
        | inl (good, e) ↦ rw e λ at. inl (
          ground (arith, answer, good, own),
          running p (ap (pane_at sid pid) (sym same) ∙ at),
          attach_restored_terminal (ios pid) pid size revive st good,
        )
        | inr (bad, e) ↦ rw e λ at. inr (
          ground (arith, answer, bad, own),
          ground (arith, pane_at-give_up sid pid pid after),
          ground (arith, give_up_parts sid pid pid after),
        )
      ]

  attach_planned_others :
      (ios : ℕ → AttachIo) (sid pid q : ℕ) (size : Cells) (revive : Bool) (st : InProcess Num)
      (report : RestoreReport)
      → pid ≢ q
      → (contains_key q (attach_planned ios sid (pid, size, revive) (st, report)).0.ptys
          ≡ contains_key q st.ptys)
        × (contains_key q (attach_planned ios sid (pid, size, revive) (st, report)).0.grids
            ≡ contains_key q st.grids)
        × (pane_at sid q (attach_planned ios sid (pid, size, revive) (st, report)).0.registry
            ≡ pane_at sid q st.registry)
  attach_planned_others ios sid pid q size revive st report ne =
      let after = (attach_restored (ios pid) (pid, size, revive) st).0 in
      let same = attach_restored-registry (ios pid) (pid, size, revive) st in
      let (ptys, grids) = attach_restored_others (ios pid) pid q size revive st ne in
      elim (attach_planned_cases ios sid pid size revive st report) [
        | inl (good, e) ↦ rw e (ptys, grids, ap (pane_at sid q) same)
        | inr (bad, e) ↦ rw e (
          ap (contains_key q) (give_up_parts sid pid q after).0 ∙ ptys,
          ground (arith, give_up_parts sid pid q after, grids),
          ground (arith, pane_at-give_up sid pid q after, ap (pane_at sid q) same),
        )
      ]

  -- The terminals and the grids of other panes are as before.
  pub attach_all_others :
      (ios : ℕ → AttachIo) (sid q : ℕ) (plan : List Planned) (st : InProcess Num)
      (report : RestoreReport)
      → elem q (ids plan) ≡ false
      → (contains_key q (attach_all ios sid plan (st, report)).0.ptys ≡ contains_key q st.ptys)
        × (contains_key q (attach_all ios sid plan (st, report)).0.grids ≡ contains_key q st.grids)
  unfolding attach_all
  attach_all_others ios sid q [] st report other = (refl, refl)
  attach_all_others ios sid q ((pid, size, revive) ∷ plan) st report other =
      let (after, report') = attach_planned ios sid (pid, size, revive) (st, report) in
      let (ptys, grids, same) =
        attach_planned_others ios sid pid q size revive st report (ground arith) in
      let (ptys', grids') = attach_all_others ios sid q plan after report' (ground arith) in
      (ptys' ∙ ptys, grids' ∙ grids)

  -- How it stands with a pane while `plan` is still to be carried out.
  abbrev pub Stands : (ℕ → Bool) → ℕ → ℕ → List Planned → InProcess Num → Type 0
  Stands back sid q plan st =
      if elem q (ids plan) then IsRunning sid q st else IsSettled back sid q st

  attach_planned-Stands :
      (ios : ℕ → AttachIo) (sid pid q : ℕ) (size : Cells) (revive : Bool) (plan : List Planned)
      (st : InProcess Num) (report : RestoreReport) (back : ℕ → Bool)
      → back pid ≡ attempt (ios pid) (not revive)
      → elem pid (ids plan) ≡ false
      → Stands back sid q ((pid, size, revive) ∷ plan) st
      → Stands back sid q plan (attach_planned ios sid (pid, size, revive) (st, report)).0
  attach_planned-Stands ios sid pid q size revive plan st report back answered new h =
      elim (Bool-cases (pid == q)) [
        | inl own ↦
            let e : pid ≡ q = (==_iff pid q).0 own in
            let running : IsRunning sid q st = rw own at h in
            rw (← e, new)
              (attach_planned-IsSettled ios sid pid size revive st report back answered
                (rw e running))
        | inr other ↦
            let (ptys, grids, same) =
              attach_planned_others ios sid pid q size revive st report (ground arith) in
            let before : Stands back sid q plan st = rw other at h in
            elim (Bool-cases (elem q (ids plan))) [
              | inl planned ↦
                  let running : IsRunning sid q st = rw planned at before in
                  rw planned λ p at. running p (sym same ∙ at)
              | inr done ↦
                  let settled : IsSettled back sid q st = rw done at before in
                  rw done λ p at. elim (settled p (sym same ∙ at)) [
                    | inl (works, runs, has) ↦ inl (works, runs, ptys ∙ has)
                    | inr (fails, exited, absent) ↦ inr (fails, exited, grids ∙ absent)
                  ]
            ]
      ]

  -- A pane that runs and is planned is settled once the plan is carried out; so is one that is not
  -- planned and was settled before.
  pub attach_all-IsSettled :
      (ios : ℕ → AttachIo) (sid q : ℕ) (plan : List Planned) (st : InProcess Num)
      (report : RestoreReport) (back : ℕ → Bool)
      → All (λ (p : Planned). back p.0 ≡ attempt (ios p.0) (not p.2)) plan
      → Distinct (ids plan)
      → Stands back sid q plan st
      → IsSettled back sid q (attach_all ios sid plan (st, report)).0
  unfolding attach_all
  attach_all-IsSettled ios sid q [] st report back answered distinct h = h
  attach_all-IsSettled ios sid q ((pid, size, revive) ∷ plan) st report back answered distinct h =
      let (after, report') = attach_planned ios sid (pid, size, revive) (st, report) in
      attach_all-IsSettled ios sid q plan after report' back answered.1 distinct.1 (
        attach_planned-Stands ios sid pid q size revive plan st report back answered.0 distinct.0 h)
