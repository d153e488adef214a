-- ===== src/TearCore/Restoring/Restart.antt =====
-- tear-core/src/inproc/durable.rs: what `restore_durable` makes of all the documents of the store.
use tear.Base.{ℕ, ◌≡◌, inl, inr, refl, List, [], ◌∷◌, Option, some, none, Bool-cases, nat_eq}
use tear.Base.Maps.{get, contains_key, Ascending}
use tear.Kukaku.Float.{Float, IsIeee}
use tear.Makimono.Lease.{IoResult, ok, failed}
use tear.TearTypes.Session.{TearSession}
use tear.TearCore.Runtime.{InProcess}
use tear.TearCore.Validity.{RegistryIsValid}
use tear.TearCore.Restoring.{
  PaneOnDisk, AttachIo, RestoreReport, SessionOnDisk, restore_session, restore_durable,
}
use tear.TearCore.Restoring.Validity.{IsApart}
use tear.TearCore.Restoring.Documents.{
  documents, AreNew, hidden-AreNew, mid, restored, later-AreNew,
}
use tear.TearCore.Restoring.Started.{IsRestarted, hidden-IsRestarted, restored-IsRestarted}

module _ {Num : Type 0} ⦃f : Float Num⦄ (ieee : IsIeee f) (disk : ℕ → PaneOnDisk)
    (ios : ℕ → AttachIo) where
  -- A round of the loop, where the rounds that follow it do as they should.
  round-IsRestarted :
      (k : ℕ) (found : IoResult (Option (TearSession Num))) (dirs : List (SessionOnDisk Num))
      (st : InProcess Num) (report : RestoreReport)
      → RegistryIsValid st.registry
      → AreNew (documents (record { id = k; doc = found } ∷ dirs)) st
      → ((st : InProcess Num) (report : RestoreReport)
          → RegistryIsValid st.registry
          → AreNew (documents dirs) st
          → IsRestarted disk ios (documents dirs) st (restore_durable disk ios dirs (st, report)).0)
      → IsRestarted disk ios
          (documents (record { id = k; doc = found } ∷ dirs))
          st
          (restore_durable disk ios (record { id = k; doc = found } ∷ dirs) (st, report)).0
  unfolding restore_durable
  round-IsRestarted k failed dirs st report v new rest =
      elim (Bool-cases (contains_key k st.registry)) [
        | inl there ↦ rw (there, restore_durable) (rest st report v new)
        | inr absent ↦ rw (absent, restore_durable) (rest st _ v new)
      ]
  round-IsRestarted k (ok none) dirs st report v new rest =
      elim (Bool-cases (contains_key k st.registry)) [
        | inl there ↦ rw (there, restore_durable) (rest st report v new)
        | inr absent ↦ rw (absent, restore_durable) (rest st report v new)
      ]
  round-IsRestarted k (ok (some doc)) dirs st report v new rest =
      let docs = documents dirs in
      elim (Bool-cases (contains_key k st.registry)) [
        | inl there ↦
            rw (there, restore_durable)
              (hidden-IsRestarted disk ios k doc docs st _ there
                (rest st report v (hidden-AreNew st new)))
        | inr absent ↦
            let (mid, report') = restore_session disk ios doc (st, report) in
            let valid = (restored ieee disk ios k doc docs st report v new).valid in
            let next = later-AreNew ieee disk ios k doc docs st report v new in
            rw (absent, restore_durable)
              (restored-IsRestarted ieee disk ios k doc docs st report v new absent _
                (rest mid report' valid next))
      ]

  restart :
      (dirs : List (SessionOnDisk Num)) (st : InProcess Num) (report : RestoreReport)
      → RegistryIsValid st.registry
      → AreNew (documents dirs) st
      → IsRestarted disk ios (documents dirs) st (restore_durable disk ios dirs (st, report)).0
  unfolding restore_durable
  restart [] st report v new = record {
    valid = v;
    kept = λ sid h. refl;
    others = λ sid h. refl;
    over = λ sid d at. absurd (cc at);
    back = λ sid d pane at. absurd (cc at);
    untouched = λ q h. (refl, refl);
  }
  restart (dir ∷ dirs) st report v new =
      round-IsRestarted dir.id dir.doc dirs st report v new (restart dirs)

  -- Let the registry be valid, let the documents that can be read make a valid registry, each with its
  -- panes in key order, and let the registry know none of their panes and windows. Then, whatever the
  -- store and the system answer to `restore_durable`: the registry is valid after it; a session that
  -- was there is as before, and so is every id without a document. A document under a new id of which
  -- every pane has a tombstone that can be read gives no session, even where a holder answers for the
  -- pane. One with a pane that has none gives a session with exactly the panes that have none, and no
  -- window that the document does not have. Each of its panes that gets a holder, by taking over the
  -- one that answers or by a new one, is running and has a terminal; each other one is shown as exited
  -- with code -1 and has no grid. Which panes that are in no document have a terminal or a grid is as
  -- before.
  pub restore_durable-IsRestarted :
      (dirs : List (SessionOnDisk Num)) (st : InProcess Num) (report : RestoreReport)
      → RegistryIsValid st.registry
      → RegistryIsValid (documents dirs)
      → ((sid : ℕ) (doc : TearSession Num)
          → get sid (documents dirs) ≡ some doc
          → Ascending doc.panes × IsApart st.registry doc)
      → IsRestarted disk ios (documents dirs) st (restore_durable disk ios dirs (st, report)).0
  restore_durable-IsRestarted dirs st report v well_formed h = restart dirs st report v (record {
    well_formed = well_formed;
    in_order = λ sid doc at. (h sid doc at).0;
    apart = λ sid doc at. (h sid doc at).1;
  })
