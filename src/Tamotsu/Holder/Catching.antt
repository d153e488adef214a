-- ===== src/Tamotsu/Holder/Catching.antt =====
-- tamotsu/src/holder.rs and held.rs: a daemon that attaches again gets all that the pane has put out
-- since, each byte once.
use tear.Base.{
  ℕ, ◌+◌, ◌-◌, ◌≤◌, true, List, [], ◌∷◌, ◌++◌, length, drop, ◌≡◌, refl, ap, ◌∙◌, sym, arith, Option,
  none, some, append-nil, All, drop-drop,
}
use tear.Makimono.Lease.{IoResult, ok}
use tear.Makimono.Journal.{Journal, AppendIo, start, end, sync}
use tear.Makimono.Journal.Reader.{Chunk}
use tear.Makimono.Journal.Stream.{
  Stream, hole, present, present-append, present-stretch, view, forget, drop-append, drop-hole,
  length-hole,
}
use tear.Makimono.Journal.Valid.{IsValid}
use tear.Makimono.Journal.Lengths.{length-view}
use tear.Makimono.Journal.Writing.{sync_outcome}
use tear.Tamotsu.Proto.{FromHolder}
use tear.Tamotsu.Holder.{
  State, Writer, own, attached, admit, admission, Traffic, no_traffic, retire_displaced, replay,
}
use tear.Tamotsu.Holder.Attaching.{
  AttachIo, attach, attach_admitted, attached_after, take_stream, frames,
}
use tear.Tamotsu.Holder.Records.{
  Contributes, kept, missed, kept_and_missed, AllContribute, no_more, and_more, record_all,
  record_all-RunRecorded,
}
use tear.Tamotsu.Holder.Replay.{unseen, replay-Replayed}
use tear.Tamotsu.Held.{Following, follow_all}

-- The bytes of a run of calls.
abbrev pub output : List (AppendIo × List ℕ) → List ℕ
output [] = []
output ((io, bytes) ∷ calls) = bytes ++ output calls

abbrev pub AllDone : List (IoResult (Unit {0})) → Type 0
AllDone results = All (λ (r : IoResult (Unit {0})). r ≡ ok tt) results

present-Contributes :
    {bytes : List ℕ} {result : IoResult (Unit {0})} {s : Stream}
    → Contributes bytes result s
    → result ≡ ok tt
    → present s ≡ bytes
present-Contributes {bytes} kept e = present-stretch bytes
present-Contributes missed e = cc
present-Contributes kept_and_missed e = cc

present-AllContribute :
    {calls : List (AppendIo × List ℕ)} {results : List (IoResult (Unit {0}))} {s : Stream}
    → AllContribute calls results s
    → AllDone results
    → present s ≡ output calls
present-AllContribute no_more h = refl
present-AllContribute (and_more io bytes calls result results s t c rest) h =
    present-append s t
    ∙ rw (present-Contributes c h.0) (ap (◌++◌ bytes) (present-AllContribute rest h.1))

-- A forgotten prefix that a client is past makes no difference to it.
drop-forget : (k n : ℕ) (s : Stream) → k ≤ n → drop n (forget k s) ≡ drop n s
drop-forget k n s h =
    drop-append n (hole k) (drop k s)
    ∙ rw (drop-hole n k, length-hole k, sym (drop-drop k (n - k) s)) (rw (none_left, whole) refl)
  where
    none_left : k - n ≡ 0
    none_left = omega arith

    whole : k + (n - k) ≡ n
    whole = omega arith

module _ (calls : List (AppendIo × List ℕ)) {j : Journal} (v : IsValid j) (f : Following)
    (reached : f.next_offset ≤ end j) (still_there : start (record_all calls j).0 ≤ f.next_offset)
    (all_done : AllDone (record_all calls j).1) where
  unseen-record_all : unseen f (record_all calls j).0 ≡ unseen f j ++ output calls
  unseen-record_all =
      let run = record_all-RunRecorded calls v in
      ap (λ stream. present (drop f.next_offset stream)) run.stream
      ∙ ap present (
          drop-forget (start (record_all calls j).0) f.next_offset (view j ++ run.more) still_there
          ∙ drop-append f.next_offset (view j) run.more
          ∙ ap (λ k. drop f.next_offset (view j) ++ drop k run.more) within)
      ∙ present-append (drop f.next_offset (view j)) run.more
      ∙ ap (λ more. unseen f j ++ more) (present-AllContribute run.contribute all_done)
    where
      within : f.next_offset - length (view j) ≡ 0
      within = omega (arith, length-view v)

-- What an attach does with a connection that is admitted: the chunks of its replay, and what the
-- client has been handed on once it has followed them.
pub record HandsOn (f : Following) (id : ℕ) (st : State) (bytes : List ℕ)
    (out : Option (State × Writer × Traffic)) : Type 0 where
  pub after : State
  pub traffic : Traffic
  pub ends : out ≡ some (after, attached, traffic)
  pub chunks : List Chunk
  pub others : List (ℕ × FromHolder)
  pub first_sent : traffic.sent ≡ frames id chunks ++ others
  pub handed : (follow_all f chunks).handed_on ≡ f.handed_on ++ bytes
  pub nothing_left : unseen (follow_all f chunks) after.journal ≡ []

attach-admit :
    (io : AttachIo) (id from : ℕ) (incarnation : Option ℕ) (st : State)
    → admission incarnation st ≡ admit
    → attach io id own from incarnation st ≡ attach_admitted io id from incarnation st
unfolding attach take_stream
attach-admit io id from incarnation st e = rw (e, attach) refl

attach_admitted-replay :
    (io : AttachIo) (id from : ℕ) (incarnation : Option ℕ) (st : State) (chunks : List Chunk)
    (result : IoResult (Unit {0}))
    → replay io.readable io.stops from (sync io.synced io.now st.journal).0 ≡ some (chunks, result)
    → attach_admitted io id from incarnation st
      ≡ some (
          attached_after id incarnation
            (record st { journal = (sync io.synced io.now st.journal).0 })
            chunks
            result)
unfolding attach_admitted
attach_admitted-replay io id from incarnation st chunks result e = rw (e, attach_admitted) refl

attach_admitted-HandsOn :
    (io : AttachIo) (id : ℕ) (incarnation : Option ℕ) (f : Following) (st : State)
    → IsValid st.journal
    → io.readable ≡ true
    → io.stops ≡ none
    → HandsOn f id st (unseen f st.journal) (attach_admitted io id f.next_offset incarnation st)
unfolding attached_after
attach_admitted-HandsOn io id incarnation f st v readable unbroken =
    let (w, same) = sync_outcome io.synced io.now v in
    let r = replay-Replayed f io.stops w in
    let done = r.unbroken unbroken in
    let synced : State = record st { journal = (sync io.synced io.now st.journal).0 } in
    let retired : Traffic = elim st.attached [
      | none ↦ no_traffic
      | some previous ↦ retire_displaced previous incarnation
    ] in
    record {
      after = (attached_after id incarnation synced r.chunks (ok tt)).0;
      traffic = (attached_after id incarnation synced r.chunks (ok tt)).2;
      ends = attach_admitted-replay io id f.next_offset incarnation st r.chunks (ok tt) (
          ap (λ b. replay b io.stops f.next_offset synced.journal) readable
          ∙ r.ends
          ∙ ap {B = Option (List Chunk × IoResult (Unit {0}))} (λ result. some (r.chunks, result))
              done);
      chunks = r.chunks;
      others = retired.sent;
      first_sent = refl;
      handed =
          sym (append-nil (follow_all f r.chunks).handed_on)
          ∙ ap (λ more. (follow_all f r.chunks).handed_on ++ more) (sym (r.all done))
          ∙ r.same
          ∙ ap (λ stream. f.handed_on ++ present (drop f.next_offset stream)) same;
      nothing_left = r.all done;
    }

-- A daemon has followed a pane up to an offset and is cut off. The holder takes any run of output,
-- which its journal keeps, and does not evict the offset; then the daemon attaches again at it, is
-- admitted, and its replay goes through. The holder's answer begins with the chunks of the replay,
-- and once the daemon has followed them it has been handed on, behind what it had before, just what
-- it had not yet been given of the journal and all of the run's output, each byte once and in its
-- order, and nothing of the journal is left for it.
pub attach-HandsOn :
    (calls : List (AppendIo × List ℕ)) (j : Journal) (f : Following) (io : AttachIo) (id : ℕ)
    (incarnation : Option ℕ) (st : State)
    → IsValid j
    → f.next_offset ≤ end j
    → start (record_all calls j).0 ≤ f.next_offset
    → AllDone (record_all calls j).1
    → st.journal ≡ (record_all calls j).0
    → admission incarnation st ≡ admit
    → io.readable ≡ true
    → io.stops ≡ none
    → HandsOn f id st (unseen f j ++ output calls) (attach io id own f.next_offset incarnation st)
attach-HandsOn calls j f io id incarnation st v reached still_there all_done kept_by admitted
      readable unbroken =
    let run = record_all-RunRecorded calls v in
    rw
      (
        attach-admit io id f.next_offset incarnation st admitted,
        sym (unseen-record_all calls v f reached still_there all_done),
        sym kept_by,
      )
      (attach_admitted-HandsOn io id incarnation f st (rw kept_by run.valid) readable unbroken)
