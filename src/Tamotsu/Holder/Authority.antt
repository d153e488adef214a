-- ===== src/Tamotsu/Holder/Authority.antt =====
-- tamotsu/src/holder.rs: which incarnation of a daemon may hold a pane, over all that a holder's
-- threads do to its state.
use tear.Base.{
  ℕ, ◌≤◌, Bool, List, ◌≡◌, refl, ap, ◌∙◌, sym, subst, ◌⊎◌, inl, inr, arith, Option, none, some,
  Option-cases,
}
use tear.Makimono.Lease.{IoResult, ok, failed}
use tear.Makimono.Journal.{Journal, AppendIo, sync}
use tear.Makimono.Journal.Reader.{Chunk}
use tear.Tamotsu.Holder.{
  State, Writer, own, attached, silent, Admission, admit, refuse, leave_silent, admission, holding,
  retire_failed, ingest, Traffic, replay,
}
use tear.Tamotsu.Holder.Attaching.{
  AttachIo, take_stream, raised, attached_after, attach_admitted, attach, leave, tick,
}

-- A connection that declared an incarnation has the one with authority.
abbrev pub HoldsAuthority : State → Type 0
HoldsAuthority st = (n : ℕ) → holding st.attached ≡ some n → st.authority ≡ some n

-- An authority that is not below another.
abbrev pub AtLeast : Option ℕ → Option ℕ → Type 0
AtLeast none later = Unit
AtLeast (some m) none = ⊥
AtLeast (some m) (some n) = m ≤ n

AtLeast-refl : (a : Option ℕ) → AtLeast a a
AtLeast-refl none = tt
AtLeast-refl (some m) = omega arith

AtLeast-trans : (a b c : Option ℕ) → AtLeast a b → AtLeast b c → AtLeast a c
AtLeast-trans none b c h k = tt
AtLeast-trans (some m) none c h k = absurd h
AtLeast-trans (some m) (some n) none h k = absurd k
AtLeast-trans (some m) (some n) (some l) h k = omega arith

-- What a call does to the authority.
pub record Keeps (before after : State) : Type 0 where
  pub rises : AtLeast before.authority after.authority
  pub held : HoldsAuthority before → HoldsAuthority after

-- A call that leaves the authority alone, and the connection or none.
Keeps-of :
    (before after : State)
    → before.authority ≡ after.authority
    → (after.attached ≡ before.attached) ⊎ (after.attached ≡ none)
    → Keeps before after
Keeps-of before after e a = record {
  rises = rw (sym e) (AtLeast-refl before.authority);
  held = λ h n k. elim a [
    | inl same ↦ sym e ∙ h n (ap holding (sym same) ∙ k)
    | inr gone ↦ absurd (impossible n (ap holding (sym gone) ∙ k))
  ];
}
  where
    impossible : (n : ℕ) → holding none ≡ some n → ⊥
    impossible n k = cc

retire_failed-Keeps : (st : State) → Keeps st (retire_failed st).0
unfolding retire_failed
retire_failed-Keeps st = Keeps-of st (retire_failed st).0 (ground arith) (ground arith)

ingest-Keeps :
    (io : AppendIo) (send_ok : Bool) (bytes : List ℕ) (st : State)
    → Keeps st (ingest io send_ok bytes st).0
unfolding ingest
ingest-Keeps io send_ok bytes st =
    Keeps-of st (ingest io send_ok bytes st).0 (ground arith) (ground arith)

leave-Keeps : (id : ℕ) (st : State) → Keeps st (leave id st)
unfolding leave
leave-Keeps id st = Keeps-of st (leave id st) (ground arith) (ground arith)

tick-Keeps : (synced : Bool) (now : ℕ) (st : State) → Keeps st (tick synced now st)
unfolding tick
tick-Keeps synced now st = Keeps-of st (tick synced now st) refl (inl refl)

take_stream-Keeps :
    (id : ℕ) (writer : Writer) (st taken : State)
    → take_stream id writer st ≡ some taken
    → Keeps st taken
unfolding take_stream
take_stream-Keeps id own st taken e = Keeps-of st taken (cc) (ground arith)
take_stream-Keeps id silent st taken e = cc
take_stream-Keeps id attached st taken e = Keeps-of st taken (ground arith) (ground arith)

-- What an admission says of the authority.
admit_authority :
    (n : ℕ) (st : State) → admission (some n) st ≡ admit → raised (some n) st.authority ≡ some n
unfolding admission
admit_authority n st e = ground arith

admit_none : (st : State) → admission none st ≡ admit → holding st.attached ≡ none
unfolding admission
admit_none st e = ground arith

raised-AtLeast : (n held : Option ℕ) → AtLeast held (raised n held)
raised-AtLeast none held = AtLeast-refl held
raised-AtLeast (some n) none = tt
raised-AtLeast (some n) (some held) = omega arith

attached_after-Keeps :
    (id : ℕ) (incarnation : Option ℕ) (st : State) (chunks : List Chunk)
    (result : IoResult (Unit {0}))
    → admission incarnation st ≡ admit
    → Keeps st (attached_after id incarnation st chunks result).0
unfolding attached_after
attached_after-Keeps id incarnation st chunks failed e = Keeps-of st st refl (inl refl)
attached_after-Keeps id none st chunks (ok u) e = record {
  rises = AtLeast-refl st.authority;
  held = λ h n k. cc;
}
attached_after-Keeps id (some n) st chunks (ok u) e = record {
  rises = raised-AtLeast (some n) st.authority;
  held = λ h m k. admit_authority n st e ∙ k;
}

Keeps-trans : {a b c : State} → Keeps a b → Keeps b c → Keeps a c
Keeps-trans {a} {b} {c} k l = record {
  rises = AtLeast-trans a.authority b.authority c.authority k.rises l.rises;
  held = λ h. l.held (k.held h);
}

abbrev Kept : State → Option (State × Writer × Traffic) → Type 0
Kept st none = Unit
Kept st (some out) = Keeps st out.0

synced_admission :
    (incarnation : Option ℕ) (j : Journal) (st : State)
    → admission incarnation (record st { journal = j }) ≡ admission incarnation st
unfolding admission
synced_admission none j st = refl
synced_admission (some n) j st = refl

attach_admitted-Kept :
    (io : AttachIo) (id from : ℕ) (incarnation : Option ℕ) (st : State)
    → admission incarnation st ≡ admit
    → Kept st (attach_admitted io id from incarnation st)
unfolding attach_admitted admission
attach_admitted-Kept io id from incarnation st admitted =
    elim (Option-cases (replay io.readable io.stops from (sync io.synced io.now st.journal).0)) [
      | inl r ↦ rw (r, attach_admitted) tt
      | inr ((chunks, result), r) ↦
          let synced : State = record st { journal = (sync io.synced io.now st.journal).0 } in
          rw (r, attach_admitted)
            (Keeps-trans (Keeps-of st synced refl (inl refl)) (
              attached_after-Keeps id incarnation synced chunks result
                (synced_admission incarnation (sync io.synced io.now st.journal).0 st ∙ admitted)))
    ]

Admission-cases :
    (a : Admission)
    → (a ≡ admit) ⊎ (((by : ℕ) × (a ≡ refuse by)) ⊎ ((n : ℕ) × (a ≡ leave_silent n)))
Admission-cases admit = inl refl
Admission-cases (refuse by) = inr (inl (by, refl))
Admission-cases (leave_silent n) = inr (inr (n, refl))

Kept-trans :
    (st taken : State) (o : Option (State × Writer × Traffic))
    → Keeps st taken
    → Kept taken o
    → Kept st o
Kept-trans st taken none k l = tt
Kept-trans st taken (some out) k l = Keeps-trans k l

taken-Kept :
    (io : AttachIo) (id : ℕ) (writer : Writer) (from : ℕ) (incarnation : Option ℕ)
    (st taken : State)
    → take_stream id writer st ≡ some taken
    → Keeps st taken
    → Kept st (attach io id writer from incarnation st)
unfolding attach
taken-Kept io id writer from incarnation st taken t k =
    elim (Admission-cases (admission incarnation taken)) [
      | inl a ↦
          rw (t, attach)
            (rw a (
              Kept-trans st taken (attach_admitted io id from incarnation taken) k
                (attach_admitted-Kept io id from incarnation taken a)))
      | inr (inl (by, a)) ↦ rw (t, attach) (rw a k)
      | inr (inr (n, a)) ↦ rw (t, attach) (rw a k)
    ]

attach-Kept :
    (io : AttachIo) (id : ℕ) (writer : Writer) (from : ℕ) (incarnation : Option ℕ) (st : State)
    → Kept st (attach io id writer from incarnation st)
unfolding attach
attach-Kept io id writer from incarnation st = elim (Option-cases (take_stream id writer st)) [
  | inl t ↦ rw (t, attach) (Keeps-of st st refl (inl refl))
  | inr (taken, t) ↦
      taken-Kept io id writer from incarnation st taken t (take_stream-Keeps id writer st taken t)
]

-- What a holder's threads do to its state.
pub data Step : State → State → Type 0 where
  ingests :
      (io : AppendIo) (send_ok : Bool) (bytes : List ℕ) (st : State)
      → Step st (ingest io send_ok bytes st).0
  attaches :
      (io : AttachIo) (id : ℕ) (writer : Writer) (from : ℕ) (incarnation : Option ℕ) (st : State)
      (out : State × Writer × Traffic)
      → attach io id writer from incarnation st ≡ some out
      → Step st out.0
  reply_fails : (st : State) → Step st (retire_failed st).0
  leaves : (id : ℕ) (st : State) → Step st (leave id st)
  ticks : (synced : Bool) (now : ℕ) (st : State) → Step st (tick synced now st)

pub data Reach (s : State) : State → Type 0 where
  here : Reach s s
  next : {t u : State} → Reach s t → Step t u → Reach s u

Step-Keeps : {s t : State} → Step s t → Keeps s t
Step-Keeps (ingests io send_ok bytes st) = ingest-Keeps io send_ok bytes st
Step-Keeps (attaches io id writer from incarnation st out e) =
    subst (Kept st) e (attach-Kept io id writer from incarnation st)
Step-Keeps (reply_fails st) = retire_failed-Keeps st
Step-Keeps (leaves id st) = leave-Keeps id st
Step-Keeps (ticks synced now st) = tick-Keeps synced now st

Reach-Keeps : {s t : State} → Reach s t → Keeps s t
Reach-Keeps {s} here = Keeps-of s s refl (inl refl)
Reach-Keeps (next r step) = Keeps-trans (Reach-Keeps r) (Step-Keeps step)

-- The incarnation of the connection that is attached, if it declared one, is the authority.
abbrev pub IsHeld : Option ℕ → Option ℕ → Type 0
IsHeld none authority = Unit
IsHeld (some n) authority = authority ≡ some n

-- No declared incarnation is below an authority.
abbrev pub NotBelow : Option ℕ → Option ℕ → Type 0
NotBelow authority none = Unit
NotBelow authority (some n) = AtLeast authority (some n)

IsHeld-of :
    (a authority : Option ℕ) → ((n : ℕ) → a ≡ some n → authority ≡ some n) → IsHeld a authority
IsHeld-of none authority h = tt
IsHeld-of (some n) authority h = h n refl

IsHeld-apply :
    (a authority : Option ℕ) → IsHeld a authority → (n : ℕ) → a ≡ some n → authority ≡ some n
IsHeld-apply none authority h n e = cc
IsHeld-apply (some m) authority h n e = h ∙ e

NotBelow-of :
    (before after a : Option ℕ) → AtLeast before after → IsHeld a after → NotBelow before a
NotBelow-of before after none h k = tt
NotBelow-of before after (some n) h k = subst (AtLeast before) k h

-- Whatever the threads of a holder do: where the connection that is attached has the authority, if
-- it declared an incarnation, it is so again afterwards; the authority has not fallen; and no
-- connection is attached whose incarnation is below the authority that there was at first.
pub Reach-IsHeld :
    {s t : State}
    → IsHeld (holding s.attached) s.authority
    → Reach s t
    → IsHeld (holding t.attached) t.authority
      × AtLeast s.authority t.authority
      × NotBelow s.authority (holding t.attached)
Reach-IsHeld {s} {t} h r =
    let k = Reach-Keeps r in
    let after =
      IsHeld-of (holding t.attached) t.authority
        (k.held (IsHeld-apply (holding s.attached) s.authority h)) in
    (after, k.rises, NotBelow-of s.authority t.authority (holding t.attached) k.rises after)
