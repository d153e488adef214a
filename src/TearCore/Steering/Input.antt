-- ===== src/TearCore/Steering/Input.antt =====
-- `send_keys` of tear-core/src/inproc.rs: which pane gets the bytes.
use tear.Base.{
  ℕ, ◌≡◌, ◌↔◌, Bool, true, ◌&&◌, not, List, [], ◌∷◌, ◌++◌, Option, none, some, if◌then◌else◌, ◌==◌,
  arith, append-nil, take, false,
}
use tear.Base.Maps.{get, contains_key, get-modify, contains_of_get, contains_key-get}
use tear.Kukaku.Float.{Float}
use tear.TearTypes.Control.{ControlError, done, fails, may_have_delivered}
use tear.TearTypes.Pane.{TearPane, is_locked}
use tear.TearTypes.Session.{TearSession}
use tear.TearCore.Registry.{Registry, locate_pane}
use tear.TearCore.Runtime.{InProcess, SystemIo, Pty}
use tear.TearCore.Steering.{located_pane, send_keys}
use tear.TearCore.Validity.{RegistryIsValid}
use tear.TearCore.Validity.Locating.{locate_pane_lem}

-- What a terminal was given so far.
abbrev pub written_to : Option Pty → List (List ℕ)
written_to none = []
written_to (some pty) = pty.written

module _ {Num : Type 0} ⦃f : Float Num⦄ where
  -- The pane accepts input, has a terminal, and the terminal takes the write.
  abbrev pub takes : SystemIo → ℕ → TearPane → InProcess Num → Bool
  takes io id p st = not (is_locked p.input_policy) && (contains_key id st.ptys && io.write_ok)

  located_lem :
      (id sid : ℕ) (s : TearSession Num) (p : TearPane) (r : Registry Num)
      → RegistryIsValid r
      → get sid r ≡ some s
      → get id s.panes ≡ some p
      → located_pane r id (locate_pane r id) ≡ some p
  located_lem id sid s p r v at there =
      let (wid, is) = (locate_pane_lem r id v).1 sid s at (contains_of_get id p s.panes there) in
      rw (is, located_pane, at) there

  -- What the pane's terminal is given: all the bytes, or the part that goes through before the write
  -- fails.
  abbrev pub given : SystemIo → ℕ → TearPane → List ℕ → InProcess Num → List (List ℕ)
  given io id p bytes st =
      if not (is_locked p.input_policy) && contains_key id st.ptys
      then (if io.write_ok then bytes else take io.delivered bytes) ∷ []
      else []

  -- For a pane that some session of a valid registry has: `send_keys` succeeds exactly if the pane
  -- is not locked, has a terminal, and the terminal takes the write. The bytes are then the last write
  -- of that terminal; if the write fails a part from their start is. A pane that is locked or has no
  -- terminal is given nothing, and no other terminal ever is. An error that says that nothing can have
  -- been delivered leaves the state as it was. The registry stays.
  pub send_keys-Delivers :
      (io : SystemIo) (id : ℕ) (bytes : List ℕ) (st : InProcess Num) (sid : ℕ) (s : TearSession Num)
      (p : TearPane)
      → RegistryIsValid st.registry
      → get sid st.registry ≡ some s
      → get id s.panes ≡ some p
      → (((send_keys io id bytes st).1 ≡ done tt) ↔ (takes io id p st ≡ true))
        × ((pane : ℕ)
            → written_to (get pane (send_keys io id bytes st).0.ptys)
              ≡ written_to (get pane st.ptys)
                ++ (if id == pane then given io id p bytes st else []))
        × ((e : ControlError)
            → (send_keys io id bytes st).1 ≡ fails e
            → may_have_delivered e ≡ false
            → (send_keys io id bytes st).0 ≡ st)
        × ((send_keys io id bytes st).0.registry ≡ st.registry)
  unfolding send_keys may_have_delivered
  send_keys-Delivers io id bytes st sid s p v at there =
      let part = if io.write_ok then bytes else take io.delivered bytes in
      rw (located_lem id sid s p st.registry v at there, send_keys)
        (
          ground (arith),
          (λ pane. ground (
            arith,
            append-nil (written_to (get pane st.ptys)),
            get-modify id pane (λ pty. record pty { written = pty.written ++ part ∷ [] }) st.ptys,
            contains_key-get id st.ptys,
          )),
          (λ e failed quiet. ground arith),
          ground arith,
        )
