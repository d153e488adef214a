-- ===== src/TearCore/Restoring/Marks.antt =====
-- tear-core/src/inproc/durable.rs: the loop over the plan changes only marks on the panes
-- of one session.
use mathlib.Core.Path.{◌∙◌}
use tear.Base.{ℕ, ◌≡◌, inl, inr, refl, ap, false, List, [], ◌∷◌, some, arith, ◌==◌, nat_eq}
use tear.Base.Maps.{get, contains_key, get-modify, contains-modify}
use tear.Base.Int.{minus_one}
use tear.TearTypes.Session.{TearSession}
use tear.TearCore.Runtime.{InProcess}
use tear.TearCore.Exit.{mark_exited}
use tear.TearCore.Restoring.{
  AttachIo, RestoreReport, Planned, give_up, attach_restored, attach_planned, attach_all,
}
use tear.TearCore.Restoring.Attaching.{attach_restored-registry, attach_planned_cases}

module _ {Num : Type 0} where
  -- The sessions of a registry, but for the marks on the panes of one.
  pub record Marks (sid : ℕ) (st st' : InProcess Num) : Type 0 where
    pub others : (j : ℕ) → (sid == j) ≡ false → get j st'.registry ≡ get j st.registry
    pub own :
        (s : TearSession Num)
        → get sid st.registry ≡ some s
        → (s' : TearSession Num) × (get sid st'.registry ≡ some s')
          × ((q : ℕ) → contains_key q s'.panes ≡ contains_key q s.panes)
          × (s'.windows ≡ s.windows)

  Marks-same : (sid : ℕ) (st st' : InProcess Num) → st'.registry ≡ st.registry → Marks sid st st'
  Marks-same sid st st' e = record {
    others = λ j ne. ap (get j) e;
    own = λ s at. (s, ap (get sid) e ∙ at, λ q. refl, refl);
  }

  Marks-trans :
      {sid : ℕ} {st st' st'' : InProcess Num}
      → Marks sid st st'
      → Marks sid st' st''
      → Marks sid st st''
  Marks-trans m n = record {
    others = λ j ne. n.others j ne ∙ m.others j ne;
    own = λ s at.
        let (s', at', same, windows) = m.own s at in
        let (s'', at'', same', windows') = n.own s' at' in
        (s'', at'', λ q. same' q ∙ same q, windows' ∙ windows);
  }

  give_up-Marks : (sid pid : ℕ) (st : InProcess Num) → Marks sid st (give_up sid pid st)
  unfolding give_up mark_exited
  give_up-Marks sid pid st = record {
    others = λ j ne. ground (arith, get-modify sid j (mark_exited pid minus_one) st.registry);
    own = λ s at. (
      mark_exited pid minus_one s,
      ground (arith, get-modify sid sid (mark_exited pid minus_one) st.registry),
      λ q. contains-modify pid q _ s.panes,
      refl,
    );
  }

  attach_planned-Marks :
      (ios : ℕ → AttachIo) (sid : ℕ) (p : Planned) (st : InProcess Num) (report : RestoreReport)
      → Marks sid st (attach_planned ios sid p (st, report)).0
  attach_planned-Marks ios sid (pid, size, revive) st report =
      let after = (attach_restored (ios pid) (pid, size, revive) st).0 in
      let attached =
        Marks-same sid st after (attach_restored-registry (ios pid) (pid, size, revive) st) in
      elim (attach_planned_cases ios sid pid size revive st report) [
        | inl (good, e) ↦ rw e attached
        | inr (bad, e) ↦ rw e (Marks-trans attached (give_up-Marks sid pid after))
      ]

  pub attach_all-Marks :
      (ios : ℕ → AttachIo) (sid : ℕ) (plan : List Planned) (st : InProcess Num)
      (report : RestoreReport)
      → Marks sid st (attach_all ios sid plan (st, report)).0
  unfolding attach_all
  attach_all-Marks ios sid [] st report = Marks-same sid st st refl
  attach_all-Marks ios sid (p ∷ plan) st report =
      let (after, report') = attach_planned ios sid p (st, report) in
      Marks-trans (attach_planned-Marks ios sid p st report)
        (attach_all-Marks ios sid plan after report')
