-- ===== src/TearCore/Restoring/Validity.antt =====
-- tear-core/src/inproc/durable.rs: a restored session keeps the registry valid.
use mathlib.Core.Path.{◌∙◌}
use tear.Base.{ℕ, ◌≡◌, inl, inr, refl, sym, ap, true, false, List, [], ◌∷◌, arith, nat_eq}
use tear.Base.Int.{minus_one}
use tear.Base.Maps.{BTreeMap, contains_key, insert, contains-modify}
use tear.Base.Maps.Entries.{get-insert_cases, insert-Ascending}
use tear.Kukaku.Float.{Float}
use tear.TearTypes.Pane.{TearPane}
use tear.TearTypes.Session.{TearSession}
use tear.TearCore.Registry.{Registry}
use tear.TearCore.Runtime.{InProcess, in_registry}
use tear.TearCore.Exit.{mark_exited}
use tear.TearCore.Validity.{SessionIsValid, RegistryIsValid}
use tear.TearCore.Validity.Sessions.{
  window_known, in_registry-get, window_known-get, modify-RegistryIsValid,
}
use tear.TearCore.Validity.Windows.{records-AreValid}
use tear.TearCore.Restoring.{
  AttachIo, RestoreReport, Planned, set_running, give_up, attach_restored, attach_planned,
  attach_all,
}
use tear.TearCore.Restoring.Attaching.{attach_restored-registry, attach_planned_cases}

-- A session that has no pane and no window of the registry.
pub record IsApart {Num : Type 0} (r : Registry Num) (s : TearSession Num) : Type 0 where
  pub panes_new : (pane : ℕ) → contains_key pane s.panes ≡ true → in_registry pane r ≡ false
  pub windows_new : (wid : ℕ) → contains_key wid s.windows ≡ true → window_known wid r ≡ false

pub contains-set_running :
    (q : ℕ) (panes : BTreeMap TearPane) → contains_key q (set_running panes) ≡ contains_key q panes
unfolding set_running
contains-set_running q [] = refl
contains-set_running q ((pid, pane) ∷ panes) = ground (arith, contains-set_running q panes)

module _ {Num : Type 0} ⦃f : Float Num⦄ where
  pub insert-RegistryIsValid :
      (r : Registry Num) (s : TearSession Num)
      → RegistryIsValid r
      → SessionIsValid s
      → IsApart r s
      → RegistryIsValid (insert s.id s r)
  insert-RegistryIsValid r s v fits apart = record {
    ordered = insert-Ascending s.id s r v.ordered;
    valid = λ sid u at. elim (get-insert_cases s.id sid s r u at) [
      | inl (here, is) ↦ rw is fits
      | inr (ne, found) ↦ v.valid sid u found
    ];
    own_id = λ sid u at. elim (get-insert_cases s.id sid s r u at) [
      | inl (here, is) ↦ ap (λ (x : TearSession Num). x.id) is ∙ here
      | inr (ne, found) ↦ v.own_id sid u found
    ];
    panes_apart = λ sid sid' u u' at at' pane h h'. elim (get-insert_cases s.id sid s r u at) [
      | inl (here, is) ↦ elim (get-insert_cases s.id sid' s r u' at') [
        | inl (here', is') ↦ sym here ∙ here'
        | inr (ne', found') ↦
            let new = apart.panes_new pane (rw is at h) in
            absurd (cc (in_registry-get pane sid' u' r new found', h'))
      ]
      | inr (ne, found) ↦ elim (get-insert_cases s.id sid' s r u' at') [
        | inl (here', is') ↦
            let new = apart.panes_new pane (rw is' at h') in
            absurd (cc (in_registry-get pane sid u r new found, h))
        | inr (ne', found') ↦ v.panes_apart sid sid' u u' found found' pane h h'
      ]
    ];
    windows_apart = λ sid sid' u u' at at' wid h h'. elim (get-insert_cases s.id sid s r u at) [
      | inl (here, is) ↦ elim (get-insert_cases s.id sid' s r u' at') [
        | inl (here', is') ↦ sym here ∙ here'
        | inr (ne', found') ↦
            let new = apart.windows_new wid (rw is at h) in
            absurd (cc (window_known-get wid sid' u' r new found', h'))
      ]
      | inr (ne, found) ↦ elim (get-insert_cases s.id sid' s r u' at') [
        | inl (here', is') ↦
            let new = apart.windows_new wid (rw is' at h') in
            absurd (cc (window_known-get wid sid u r new found, h))
        | inr (ne', found') ↦ v.windows_apart sid sid' u u' found found' wid h h'
      ]
    ];
  }

  give_up-IsValid :
      (sid pid : ℕ) (st : InProcess Num)
      → RegistryIsValid st.registry
      → RegistryIsValid (give_up sid pid st).registry
  unfolding give_up mark_exited
  give_up-IsValid sid pid st v =
      modify-RegistryIsValid st.registry sid (mark_exited pid minus_one) v (λ s at. record {
        valid =
            records-AreValid s.windows s.panes _ s.active_window
              (λ q. contains-modify pid q _ s.panes) (v.valid sid s at);
        same_id = refl;
        panes_from = λ q h. inl (sym (contains-modify pid q _ s.panes) ∙ h);
        windows_from = λ wid h. inl h;
      })

  attach_planned-IsValid :
      (ios : ℕ → AttachIo) (sid : ℕ) (p : Planned) (st : InProcess Num) (report : RestoreReport)
      → RegistryIsValid st.registry
      → RegistryIsValid (attach_planned ios sid p (st, report)).0.registry
  attach_planned-IsValid ios sid (pid, size, revive) st report v =
      let same = attach_restored-registry (ios pid) (pid, size, revive) st in
      let attached : RegistryIsValid (attach_restored (ios pid) (pid, size, revive) st).0.registry =
        rw same v in
      elim (attach_planned_cases ios sid pid size revive st report) [
        | inl (good, e) ↦ rw e attached
        | inr (bad, e) ↦ rw e (give_up-IsValid sid pid _ attached)
      ]

  pub attach_all-IsValid :
      (ios : ℕ → AttachIo) (sid : ℕ) (plan : List Planned) (st : InProcess Num)
      (report : RestoreReport)
      → RegistryIsValid st.registry
      → RegistryIsValid (attach_all ios sid plan (st, report)).0.registry
  unfolding attach_all
  attach_all-IsValid ios sid [] st report v = v
  attach_all-IsValid ios sid (p ∷ plan) st report v =
      let (after, report') = attach_planned ios sid p (st, report) in
      attach_all-IsValid ios sid plan after report' (attach_planned-IsValid ios sid p st report v)
