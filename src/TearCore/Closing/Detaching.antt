-- ===== src/TearCore/Closing/Detaching.antt =====
-- What closing removes besides the records: the terminals, grids, subscribers and recordings of the
-- panes, and the endings that are written for them (tear-core/src/inproc.rs and inproc/durable.rs).
use tear.Base.{
  ℕ, ◌≡◌, ◌⊎◌, refl, Bool, true, false, ◌&&◌, List, [], ◌∷◌, Option, none, some, if◌then◌else◌,
  ◌==◌, arith, elem, nat_eq,
}
use tear.Base.Maps.{
  BTreeMap, get, remove_all, keys, contains_key, contains_key-get, get-insert, get-remove,
}
use tear.Base.Maps.Removal.{get-remove_all}
use tear.TearTypes.Control.{done}
use tear.TearTypes.Session.{TearSession}
use tear.TearCore.Registry.{Registry}
use tear.TearCore.Runtime.{
  InProcess, SystemIo, Ending, ended_by_control, in_registry, write_tombstone, end_by_human,
  record_human_end, detach_panes,
}
use tear.TearCore.Closing.{kill_session}

pub elem-keys : {V : Type 0} (k : ℕ) (m : BTreeMap V) → elem k (keys m) ≡ contains_key k m
elem-keys k [] = refl
elem-keys k ((j, v) ∷ m) = ground (arith, elem-keys k m)

-- The ending of a pane that a human closes: an earlier one stays, and one is written if the store
-- is attached and takes it.
abbrev pub ending_of : SystemIo → ℕ → Option Ending → Option Ending
ending_of io pane (some ending) = some ending
ending_of io pane none =
    if io.durable && io.tombstone_ok pane then some (ended_by_control io.now_unix) else none

module _ {Num : Type 0} where
  -- Exactly the panes of a set have lost their terminal, grid, subscribers and recording.
  pub record IsDetached (gone : ℕ → Bool) (st st' : InProcess Num) : Type 0 where
    pub ptys : (pane : ℕ) → get pane st'.ptys ≡ (if gone pane then none else get pane st.ptys)
    pub grids : (pane : ℕ) → get pane st'.grids ≡ (if gone pane then none else get pane st.grids)
    pub subscribers :
        (pane : ℕ)
        → get pane st'.subscribers ≡ (if gone pane then none else get pane st.subscribers)
    pub recordings :
        (pane : ℕ) → get pane st'.recordings ≡ (if gone pane then none else get pane st.recordings)

  -- One pane's turn in the loop over the dying panes.
  abbrev ended : SystemIo → Registry Num → ℕ → BTreeMap Ending → BTreeMap Ending
  ended io r p tombstones =
      if io.durable && in_registry p r
      then write_tombstone io p (ended_by_control io.now_unix) tombstones
      else tombstones

  get-ended :
      (io : SystemIo) (r : Registry Num) (p pane : ℕ) (tombstones : BTreeMap Ending)
      → get pane (ended io r p tombstones) ≡ (
          if p == pane && in_registry pane r
          then ending_of io pane (get pane tombstones)
          else get pane tombstones)
  unfolding write_tombstone
  get-ended io r p pane tombstones = ground (
    arith,
    get-insert p pane (ended_by_control io.now_unix) tombstones,
    contains_key-get p tombstones,
  )

  pub get-end_by_human :
      (io : SystemIo) (r : Registry Num) (dying : List ℕ) (pane : ℕ) (tombstones : BTreeMap Ending)
      → get pane (end_by_human io r dying tombstones) ≡ (
          if elem pane dying && in_registry pane r
          then ending_of io pane (get pane tombstones)
          else get pane tombstones)
  unfolding end_by_human
  get-end_by_human io r [] pane tombstones = refl
  get-end_by_human io r (p ∷ dying) pane tombstones =
      rw
        (
          get-end_by_human io r dying pane (ended io r p tombstones),
          get-ended io r p pane tombstones,
        )
        (ground arith)

  -- `kill_session` of a session that exists succeeds and removes that session alone. Its panes lose
  -- their terminal, grid, subscribers and recording, and no other pane loses any. Each of its panes
  -- keeps the ending that it had or else gets that of a human close, where the store is attached and
  -- takes it; no other ending changes.
  pub kill_session-Closes :
      (io : SystemIo) (id : ℕ) (st : InProcess Num) (s : TearSession Num)
      → get id st.registry ≡ some s
      → ((kill_session io id st).1 ≡ done tt)
        × ((sid : ℕ)
            → get sid (kill_session io id st).0.registry
              ≡ (if id == sid then none else get sid st.registry))
        × IsDetached (λ pane. contains_key pane s.panes) st (kill_session io id st).0
        × ((pane : ℕ)
            → get pane (kill_session io id st).0.tombstones ≡ (
                if contains_key pane s.panes
                then ending_of io pane (get pane st.tombstones)
                else get pane st.tombstones))
  unfolding kill_session detach_panes record_human_end
  kill_session-Closes io id st s at =
      rw (at, kill_session)
        (
          refl,
          (λ sid. get-remove id sid st.registry),
          record {
            ptys = λ pane. gone pane st.ptys;
            grids = λ pane. gone pane st.grids;
            subscribers = λ pane. gone pane st.subscribers;
            recordings = λ pane. gone pane st.recordings;
          },
          (λ pane. ground (
            arith,
            get-end_by_human io st.registry (keys s.panes) pane st.tombstones,
            elem-keys pane s.panes,
            in_registry-of pane st.registry s at,
          )),
        )
    where
      gone :
          {V : Type 0} (pane : ℕ) (m : BTreeMap V)
          → get pane (remove_all (keys s.panes) m)
            ≡ (if contains_key pane s.panes then none else get pane m)
      gone pane m = rw (get-remove_all (keys s.panes) pane m, elem-keys pane s.panes)

      in_registry-of :
          (pane : ℕ) (r : Registry Num) (s : TearSession Num)
          → get id r ≡ some s
          → (contains_key pane s.panes ≡ false) ⊎ (in_registry pane r ≡ true)
      in_registry-of pane [] s at = absurd (cc at)
      in_registry-of pane ((j, u) ∷ r) s at = ground (arith, in_registry-of pane r s)
