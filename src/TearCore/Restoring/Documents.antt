-- ===== src/TearCore/Restoring/Documents.antt =====
-- tear-core/src/inproc/durable.rs: the documents that a start finds in the store, and what
-- restoring the first of them leaves of the others.
use mathlib.Core.Path.{◌∙◌}
use tear.Base.{
  ℕ, ◌≡◌, ◌≢◌, ◌⊎◌, inl, inr, sym, ap, true, false, List, [], ◌∷◌, some, none, arith, ◌==◌, ==_iff,
  Bool-cases, nat_eq,
}
use tear.Base.Maps.{get, contains_key, AllAbove, Ascending}
use tear.Base.Maps.Entries.{AllAbove-absent}
use tear.Kukaku.Float.{Float, IsIeee}
use tear.Makimono.Lease.{ok, failed}
use tear.TearTypes.Session.{TearSession}
use tear.TearCore.Registry.{Registry}
use tear.TearCore.Runtime.{InProcess, in_registry}
use tear.TearCore.Validity.{RegistryIsValid}
use tear.TearCore.Validity.Sessions.{window_known, in_registry-get, window_known-get}
use tear.TearCore.Restoring.{PaneOnDisk, AttachIo, RestoreReport, SessionOnDisk, restore_session}
use tear.TearCore.Restoring.Validity.{IsApart}
use tear.TearCore.Restoring.Outcome.{lives, IsRestored, restore_session-IsRestored, living_cases}

module _ {Num : Type 0} where
  -- The documents that can be read, under the ids of their directories.
  abbrev pub documents : List (SessionOnDisk Num) → Registry Num
  documents [] = []
  documents (dir ∷ dirs) =
      let rest = documents dirs in
      elim dir.doc [
        | failed ↦ rest
        | ok found ↦ elim found [ none ↦ rest | some doc ↦ (dir.id, doc) ∷ rest ]
      ]

  in_registry-found :
      (pane : ℕ) (r : Registry Num)
      → Ascending r
      → in_registry pane r ≡ true
      → (sid : ℕ) × (s : TearSession Num) × (get sid r ≡ some s)
        × (contains_key pane s.panes ≡ true)
  in_registry-found pane [] asc h = absurd (cc h)
  in_registry-found pane ((k, s) ∷ r) asc h = elim (Bool-cases (contains_key pane s.panes)) [
    | inl here ↦ (k, s, ground arith, here)
    | inr other ↦
        let (sid, u, at, has) = in_registry-found pane r asc.1 (ground arith) in
        let absent = AllAbove-absent k r asc.0 in (sid, u, ground arith, has)
  ]

  window_known-found :
      (wid : ℕ) (r : Registry Num)
      → Ascending r
      → window_known wid r ≡ true
      → (sid : ℕ) × (s : TearSession Num) × (get sid r ≡ some s)
        × (contains_key wid s.windows ≡ true)
  window_known-found wid [] asc h = absurd (cc h)
  window_known-found wid ((k, s) ∷ r) asc h = elim (Bool-cases (contains_key wid s.windows)) [
    | inl here ↦ (k, s, ground arith, here)
    | inr other ↦
        let (sid, u, at, has) = window_known-found wid r asc.1 (ground arith) in
        let absent = AllAbove-absent k r asc.0 in (sid, u, ground arith, has)
  ]

-- Documents of valid sessions, new to the registry.
pub record AreNew {Num : Type 0} ⦃f : Float Num⦄ (docs : Registry Num) (st : InProcess Num)
    : Type 0 where
  pub well_formed : RegistryIsValid docs
  pub in_order : (sid : ℕ) (doc : TearSession Num) → get sid docs ≡ some doc → Ascending doc.panes
  pub apart : (sid : ℕ) (doc : TearSession Num) → get sid docs ≡ some doc → IsApart st.registry doc

module _ {Num : Type 0} ⦃f : Float Num⦄ where
  get-later :
      (k : ℕ) (doc : TearSession Num) (r : Registry Num) (sid : ℕ) (s : TearSession Num)
      → AllAbove k r
      → get sid r ≡ some s
      → get sid ((k, doc) ∷ r) ≡ some s
  get-later k doc r sid s above at = ground (arith, AllAbove-absent k r above)

  module _ {k : ℕ} {doc : TearSession Num} {r : Registry Num} where
    pub later-RegistryIsValid : RegistryIsValid ((k, doc) ∷ r) → RegistryIsValid r
    later-RegistryIsValid v =
        let later = λ (sid : ℕ) (s : TearSession Num) (at : get sid r ≡ some s).
          get-later k doc r sid s v.ordered.0 at in
        record {
          ordered = v.ordered.1;
          valid = λ sid s at. v.valid sid s (later sid s at);
          own_id = λ sid s at. v.own_id sid s (later sid s at);
          panes_apart = λ sid sid' s s' at at'.
              v.panes_apart sid sid' s s' (later sid s at) (later sid' s' at');
          windows_apart = λ sid sid' s s' at at'.
              v.windows_apart sid sid' s s' (later sid s at) (later sid' s' at');
        }

    pub hidden-AreNew : (st : InProcess Num) → AreNew ((k, doc) ∷ r) st → AreNew r st
    hidden-AreNew st new =
        let later = λ (sid : ℕ) (s : TearSession Num) (at : get sid r ≡ some s).
          get-later k doc r sid s new.well_formed.ordered.0 at in
        record {
          well_formed = later-RegistryIsValid new.well_formed;
          in_order = λ sid d at. new.in_order sid d (later sid d at);
          apart = λ sid d at. new.apart sid d (later sid d at);
        }

  -- A pane of the first document is in no other.
  pub pane_of_first :
      {k : ℕ} {doc : TearSession Num} {r : Registry Num}
      → RegistryIsValid ((k, doc) ∷ r)
      → (q : ℕ) → contains_key q doc.panes ≡ true
      → in_registry q r ≡ false
  pane_of_first {k} {doc} {r} v q has = elim (Bool-cases (in_registry q r)) [
    | inr out ↦ out
    | inl within ↦
        let (sid, s, at, has') = in_registry-found q r v.ordered.1 within in
        let same =
          v.panes_apart k sid doc s (ground arith) (get-later k doc r sid s v.ordered.0 at) q has
            has' in
        absurd (ground (arith, AllAbove-absent k r v.ordered.0))
  ]

module _ {Num : Type 0} ⦃f : Float Num⦄ (ieee : IsIeee f) (disk : ℕ → PaneOnDisk)
    (ios : ℕ → AttachIo) (k : ℕ) (doc : TearSession Num) (r : Registry Num) (st : InProcess Num)
    (report : RestoreReport) (v : RegistryIsValid st.registry)
    (new : AreNew ((k, doc) ∷ r) st) where
  pub here : get k ((k, doc) ∷ r) ≡ some doc
  here = ground arith

  pub same_id : doc.id ≡ k
  same_id = new.well_formed.own_id k doc here

  abbrev pub mid : InProcess Num
  mid = (restore_session disk ios doc (st, report)).0

  pub restored : IsRestored disk ios doc st mid
  restored =
      restore_session-IsRestored ieee disk ios doc st report (new.well_formed.valid k doc here)
        (new.in_order k doc here) (new.apart k doc here) v

  pub living : ((q : ℕ) → lives disk doc q ≡ false) ⊎ ((pane : ℕ) × (lives disk doc pane ≡ true))
  living =
      living_cases ieee disk ios doc st report (new.well_formed.valid k doc here)
        (new.in_order k doc here) (new.apart k doc here) v

  -- What the registry has after the first document is of that document, or was there before.
  found_where :
      (sid : ℕ) (s : TearSession Num)
      → get sid mid.registry ≡ some s
      → (get sid st.registry ≡ some s)
        ⊎ ((sid ≡ k)
            × ((q : ℕ) → contains_key q s.panes ≡ true → contains_key q doc.panes ≡ true)
            × ((wid : ℕ) → contains_key wid s.windows ≡ true → contains_key wid doc.windows ≡ true))
  found_where sid s at = elim (Bool-cases (doc.id == sid)) [
    | inr other ↦ inl (sym (restored.others sid other) ∙ at)
    | inl own ↦
        let e : doc.id ≡ sid = (==_iff doc.id sid).0 own in
        elim living [
          | inl none_lives ↦
              inl (
                sym (ap (λ (x : InProcess Num). get sid x.registry) (restored.over none_lives))
                ∙ at)
          | inr (pane, h) ↦
              let (s', at', panes, windows) = restored.back pane h in
              let same : s' ≡ s = ground (arith, at, at', e) in
              inr (
                sym e ∙ same_id,
                λ q has. ground (arith, panes q, ap (λ x. contains_key q x.panes) same, has),
                λ wid has. windows wid (ap (λ x. contains_key wid x.windows) same ∙ has),
              )
        ]
  ]

  module _ (sid : ℕ) (d : TearSession Num) (at : get sid r ≡ some d) where
    later : get sid ((k, doc) ∷ r) ≡ some d
    later = get-later k doc r sid d new.well_formed.ordered.0 at

    is_later : k ≢ sid
    is_later e = absurd (ground (arith, AllAbove-absent k r new.well_formed.ordered.0))

    after-IsApart : IsApart mid.registry d
    after-IsApart = record {
      panes_new = λ q has. elim (Bool-cases (in_registry q mid.registry)) [
        | inr out ↦ out
        | inl within ↦
            let (j, s, found, has') =
              in_registry-found q mid.registry restored.valid.ordered within in
            elim (found_where j s found) [
              | inl before ↦
                  let out = (new.apart sid d later).panes_new q has in
                  absurd (cc (in_registry-get q j s st.registry out before, has'))
              | inr (own, panes, windows) ↦ absurd (
                  is_later
                    (new.well_formed.panes_apart k sid doc d here later q (panes q has') has))
            ]
      ];
      windows_new = λ wid has. elim (Bool-cases (window_known wid mid.registry)) [
        | inr out ↦ out
        | inl within ↦
            let (j, s, found, has') =
              window_known-found wid mid.registry restored.valid.ordered within in
            elim (found_where j s found) [
              | inl before ↦
                  let out = (new.apart sid d later).windows_new wid has in
                  absurd (cc (window_known-get wid j s st.registry out before, has'))
              | inr (own, panes, windows) ↦ absurd (
                  is_later (
                    new.well_formed.windows_apart k sid doc d here later wid (windows wid has')
                      has))
            ]
      ];
    }

  pub later-AreNew : AreNew r mid
  later-AreNew = record {
    well_formed = later-RegistryIsValid new.well_formed;
    in_order = λ sid d at. new.in_order sid d (later sid d at);
    apart = after-IsApart;
  }
