-- ===== src/TearCore/Exit/Reaping.antt =====
-- The end of a session whose children have all exited (`on_exit` of tear-core/src/inproc.rs).
use tear.Base.{
  ℕ, ◌≡◌, inl, inr, refl, sym, ◌∙◌, ap, if-true, Bool, true, false, List, [], ◌∷◌, Option, none,
  some, if◌then◌else◌, arith, elem, nat_eq, Option-cases,
}
use tear.Base.Int.{ℤ}
use tear.Base.Maps.{
  BTreeMap, get, insert, remove, keys, modify, contains_key, get-insert, get-modify, get-remove,
  contains-modify, find_first, modify_first,
}
use tear.Base.Maps.Entries.{find_first_found, find_first_missed, modify_first-found}
use tear.Base.Maps.Removal.{get-remove_all}
use tear.Kukaku.Float.{Float}
use tear.TearTypes.Pane.{TearPane, PaneState}
use tear.TearTypes.Session.{TearSession}
use tear.TearCore.Closing.{witness, all_exited, reap_proven_dead}
use tear.TearCore.Closing.Detaching.{elem-keys}
use tear.TearCore.Exit.{
  watched_by, entry_or_default, sibling_watched, close_stream, fully_exited, holds_pane,
  mark_exited, exit_status, session_watched, reap_if_dead, reap_unwatched, end_pane, on_exit,
}
use tear.TearCore.Runtime.{InProcess, SystemIo, PaneSubscribers, detach_panes}
use tear.TearCore.Validity.{RegistryIsValid}

-- The pane has a subscriber.
abbrev pub is_watched : ℕ → BTreeMap PaneSubscribers → Bool
is_watched pane subs = watched_by (entry_or_default (get pane subs)).senders

sibling_watched-none :
    (id : ℕ) (status : ℤ) (subs : BTreeMap PaneSubscribers) (ps : List ℕ)
    → ((q : ℕ) → elem q ps ≡ true → is_watched q subs ≡ false)
    → sibling_watched id (insert id (record { closed = some status; senders = [] }) subs) ps ≡ false
unfolding sibling_watched
sibling_watched-none id status subs [] h = refl
sibling_watched-none id status subs (p ∷ ps) h = ground (
  arith,
  h p (ground arith),
  get-insert id p (record { closed = some status; senders = [] }) subs,
  sibling_watched-none id status subs ps (λ q m. h q (ground (arith, m))),
)

module _ {Num : Type 0} where
  witness_complete :
      (s : TearSession Num) (pane : ℕ)
      → contains_key pane s.panes ≡ true
      → all_exited s.panes ≡ true
      → witness s ≡ some s.id
  unfolding witness
  witness_complete s pane has all = ground arith

  -- A session whose panes have all exited goes, with their terminals.
  reaped :
      (sid pane : ℕ) (st : InProcess Num) (s : TearSession Num)
      → get sid st.registry ≡ some s
      → s.id ≡ sid
      → contains_key pane s.panes ≡ true
      → all_exited s.panes ≡ true
      → (get sid (reap_if_dead sid st).registry ≡ none)
        × ((q : ℕ)
            → get q (reap_if_dead sid st).ptys
              ≡ (if contains_key q s.panes then none else get q st.ptys))
  unfolding reap_if_dead reap_proven_dead detach_panes
  reaped sid pane st s at own has all =
      let dead : witness s ≡ some sid = witness_complete s pane has all ∙ ap some own in
      rw (at, dead, reap_if_dead)
        (rw (at, dead, reap_proven_dead)
          (
            ground (arith, get-remove sid sid st.registry),
            (λ q. rw (get-remove_all (keys s.panes) q st.ptys, elem-keys q s.panes) refl),
          ))

  -- The last step of `on_exit`, for a session that nobody watches.
  unwatched_reaped :
      (sid id : ℕ) (st : InProcess Num) (s : TearSession Num)
      → get sid st.registry ≡ some s
      → s.id ≡ sid
      → contains_key id s.panes ≡ true
      → all_exited s.panes ≡ true
      → session_watched id st.subscribers (some s) ≡ false
      → (get sid (reap_unwatched (some sid) id false st).registry ≡ none)
        × ((q : ℕ)
            → get q (reap_unwatched (some sid) id false st).ptys
              ≡ (if contains_key q s.panes then none else get q st.ptys))
  unfolding reap_unwatched
  unwatched_reaped sid id st s at own has all quiet =
      rw (at, quiet, reap_unwatched) (reaped sid id st s at own has all)

  marked-keys :
      (id : ℕ) (status : ℤ) (s : TearSession Num)
      → ((mark_exited id status s).id ≡ s.id)
        × ((q : ℕ) → contains_key q (mark_exited id status s).panes ≡ contains_key q s.panes)
  unfolding mark_exited
  marked-keys id status s = (refl, λ q. contains-modify id q _ s.panes)

  others-all_exited :
      (id : ℕ) (status : ℤ) (s : TearSession Num)
      → all_exited (remove id s.panes) ≡ true
      → all_exited (mark_exited id status s).panes ≡ true
  unfolding mark_exited
  others-all_exited id status s h = go s.panes h
    where
      go :
          (m : BTreeMap TearPane)
          → all_exited (remove id m) ≡ true
          → all_exited (modify id (λ p. record p { state = PaneState.exited status }) m) ≡ true
      go [] h = refl
      go ((j, p) ∷ m) h = ground (arith, go m)

module _ {Num : Type 0} ⦃f : Float Num⦄ where
  -- In a valid registry, when the last child of a session that had not exited exits, and no pane of the
  -- session has a subscriber: the session goes, its panes lose their terminals, and no other pane does.
  pub on_exit-Reaps :
      (io : SystemIo) (held : Bool) (id : ℕ) (code : Option ℤ) (sid : ℕ) (st : InProcess Num)
      (s : TearSession Num)
      → RegistryIsValid st.registry
      → get sid st.registry ≡ some s
      → contains_key id s.panes ≡ true
      → all_exited (remove id s.panes) ≡ true
      → ((q : ℕ) → contains_key q s.panes ≡ true → is_watched q st.subscribers ≡ false)
      → (get sid (on_exit io held id code st).registry ≡ none)
        × ((q : ℕ)
            → get q (on_exit io held id code st).ptys
              ≡ (if contains_key q s.panes then none else get q st.ptys))
  unfolding on_exit end_pane close_stream
  on_exit-Reaps io held id code sid st s v at has exited unwatched =
      elim (Option-cases (find_first (holds_pane id) st.registry)) [
        | inl missed ↦ cc (find_first_missed (holds_pane id) st.registry sid s missed at, has)
        | inr (found, is) ↦
            let (at', has') =
              find_first_found (holds_pane id) st.registry found.0 found.1 v.ordered is in
            let same : found.0 ≡ sid = v.panes_apart found.0 sid found.1 s at' at id has' has in
            let one : found.1 ≡ s = cc (at', at, same) in
            let hit : find_first (holds_pane id) st.registry ≡ some (sid, s) =
              is ∙ (λ i. some (same i, one i)) in
            let dead = others-all_exited id (exit_status code) s exited in
            let full : fully_exited id (exit_status code) (some (sid, s)) ≡ some sid =
              if-true _ _ dead ∙ ap some (v.own_id sid s at) in
            let marked = mark_exited id (exit_status code) s in
            let keeps = marked-keys id (exit_status code) s in
            let there : get sid
                  (modify_first (holds_pane id) (mark_exited id (exit_status code)) st.registry)
                ≡ some marked =
              rw
                (modify_first-found (holds_pane id) (mark_exited id (exit_status code)) st.registry
                  sid s v.ordered hit)
                (ground
                  (arith, get-modify sid sid (mark_exited id (exit_status code)) st.registry)) in
            let quiet =
              sibling_watched-none id (exit_status code) st.subscribers (keys marked.panes)
                (λ q m. unwatched q (sym (keeps.1 q) ∙ (sym (elem-keys q marked.panes) ∙ m))) in
            let (gone, terminals) =
              unwatched_reaped sid id _ marked there (keeps.0 ∙ v.own_id sid s at)
                (keeps.1 id ∙ has) dead quiet in
            rw hit (rw (full, unwatched id has) (gone, λ q. rw (← keeps.1 q) (terminals q)))
      ]
