-- ===== src/Tamotsu/Holder/Replay.antt =====
-- tamotsu/src/holder.rs and held.rs: a replay from the offset at which a client stands gives it what
-- it has not yet seen of the journal, each byte once, also where the replay breaks off.
use mathlib.Core.List.{append_assoc}
use tear.Base.{
  ℕ, zero, suc, ◌+◌, ◌-◌, ◌≤◌, ◌<◌, true, false, List, [], ◌∷◌, ◌++◌, length, drop, min, leb, ◌≡◌,
  refl, ap, ◌∙◌, sym, inl, inr, arith, Option, none, some, Option-cases,
}
use tear.Makimono.Lease.{IoResult, ok, failed}
use tear.Makimono.Journal.{Journal, end}
use tear.Makimono.Journal.Reader.{Chunk, read_from}
use tear.Makimono.Journal.Stream.{present, present-hole, view}
use tear.Makimono.Journal.Valid.{IsValid}
use tear.Makimono.Journal.Lengths.{length-view}
use tear.Makimono.Journal.Chunking.{Reads}
use tear.Makimono.Journal.Reading.{read_from-Reads}
use tear.Makimono.Journal.Replaying.{present-Reads, length-Reads}
use tear.Tamotsu.Holder.{replay_onward, replay, replay_chunk, after_send, sent_before}
use tear.Tamotsu.Held.{Following, follow_bytes, follow_all}

-- The bytes of the journal that a client has not yet been given.
abbrev pub unseen : Following → Journal → List ℕ
unseen f j = present (drop f.next_offset (view j))

-- What a client has been given and will be.
abbrev pub pending : Following → Journal → List ℕ
pending f j = f.handed_on ++ unseen f j

-- A replay and what it leaves the client with.
pub record Replayed (f : Following) (j : Journal) (stops : Option ℕ)
    (out : Option (List Chunk × IoResult (Unit {0}))) : Type 0 where
  pub chunks : List Chunk
  pub result : IoResult (Unit {0})
  pub ends : out ≡ some (chunks, result)
  pub same : pending (follow_all f chunks) j ≡ pending f j
  pub all : result ≡ ok tt → unseen (follow_all f chunks) j ≡ []
  pub unbroken : stops ≡ none → result ≡ ok tt

follow_ahead :
    (f : Following) (c : Chunk)
    → f.next_offset ≤ c.at
    → 0 < length c.bytes
    → follow_bytes f c
      ≡ record { next_offset = c.at + length c.bytes; handed_on = f.handed_on ++ c.bytes }
unfolding follow_bytes
follow_ahead f c ahead some_bytes = rw (new, none_skipped) refl
  where
    new : leb (c.at + length c.bytes) f.next_offset ≡ false
    new = ground arith

    none_skipped : min (f.next_offset - c.at) (length c.bytes) ≡ 0
    none_skipped = omega arith

follow_none : (f : Following) → follow_all f [] ≡ f
unfolding follow_all
follow_none f = refl

follow_more :
    (f : Following) (c : Chunk) (chunks : List Chunk)
    → follow_all f (c ∷ chunks) ≡ follow_all (follow_bytes f c) chunks
unfolding follow_all
follow_more f c chunks = refl

-- A chunk that was read where the client stands moves its bytes over.
pending-follow :
    (f : Following) (j : Journal) (c : Chunk)
    → f.next_offset ≤ c.at
    → 0 < length c.bytes
    → unseen f j ≡ c.bytes ++ present (drop (c.at + length c.bytes) (view j))
    → pending (follow_bytes f c) j ≡ pending f j
pending-follow f j c ahead some_bytes e =
    rw (follow_ahead f c ahead some_bytes, e)
      (append_assoc f.handed_on c.bytes (present (drop (c.at + length c.bytes) (view j))))

-- One round of the replay.
round :
    (fuel : ℕ) (j : Journal) (f : Following) (stops : Option ℕ) (found : Option Chunk)
    → read_from true f.next_offset replay_chunk j ≡ ok found
    → Reads f.next_offset replay_chunk (view j) found
    → length (view j) - f.next_offset < suc fuel
    → ((g : Following) (left : Option ℕ)
        → length (view j) - g.next_offset < fuel
        → Replayed g j left (replay_onward fuel true j left g.next_offset))
    → Replayed f j stops (replay_onward (suc fuel) true j stops f.next_offset)
unfolding replay_onward
round fuel j f stops none e (inl z) h again = absurd (omega arith)
round fuel j f stops none e (inr (n, empty)) h again = record {
  chunks = [];
  result = ok tt;
  ends = rw (e, replay_onward) refl;
  same = rw (follow_none f) refl;
  all = λ done. rw (follow_none f) (rw (empty, present-hole n) refl);
  unbroken = λ z. refl;
}
round fuel j f stops (some chunk) e (above, some_bytes, within, reads) h again =
    elim (Option-cases (after_send stops)) [
      | inl s ↦ record {
        chunks = [];
        result = failed;
        ends = rw (e, replay_onward) (rw s refl);
        same = rw (follow_none f) refl;
        all = λ done. cc;
        unbroken = λ z. absurd (never stops s z);
      }
      | inr (left, s) ↦
          let rest = again (follow_bytes f chunk) left (
            rw (follow_ahead f chunk above some_bytes)
              (omega (arith, length-Reads f.next_offset (view j) chunk reads))) in
          record {
            chunks = chunk ∷ rest.chunks;
            result = rest.result;
            ends =
                rw (e, replay_onward)
                  (rw s (
                    ap (sent_before chunk)
                      (ap (replay_onward fuel true j left) (sym moved) ∙ rest.ends)));
            same = rw (follow_more f chunk rest.chunks) (
                rest.same
                ∙ pending-follow f j chunk above some_bytes
                    (present-Reads f.next_offset (view j) chunk reads));
            all = λ done. rw (follow_more f chunk rest.chunks) (rest.all done);
            unbroken = λ z. rest.unbroken (goes_on stops left s z);
          }
    ]
  where
    moved : (follow_bytes f chunk).next_offset ≡ chunk.at + length chunk.bytes
    moved = rw (follow_ahead f chunk above some_bytes) refl

    never : (stops : Option ℕ) → after_send stops ≡ none → stops ≡ none → ⊥
    never none s z = cc
    never (some n) s z = cc

    goes_on : (stops left : Option ℕ) → after_send stops ≡ some left → stops ≡ none → left ≡ none
    goes_on none left s z = cc
    goes_on (some n) left s z = cc

replay_onward-Replayed :
    (fuel : ℕ) {j : Journal} (v : IsValid j) (f : Following) (stops : Option ℕ)
    → length (view j) - f.next_offset < fuel
    → Replayed f j stops (replay_onward fuel true j stops f.next_offset)
replay_onward-Replayed zero {j} v f stops h = absurd (omega arith)
replay_onward-Replayed (suc fuel) {j} v f stops h =
    let (chunk, e, reads) = read_from-Reads f.next_offset replay_chunk v in
    round fuel j f stops chunk e reads h (replay_onward-Replayed fuel v)

-- The loop of `replay` ends, on a journal in order that can be read. A client that attached at its
-- offset has then, with what is left for it in the journal, neither lost a byte nor seen one twice,
-- wherever the sends broke off; nothing is left for it if they did not.
pub replay-Replayed :
    {j : Journal} (f : Following) (stops : Option ℕ)
    → IsValid j
    → Replayed f j stops (replay true stops f.next_offset j)
unfolding replay
replay-Replayed {j} f stops v =
    replay_onward-Replayed (suc (end j)) v f stops (omega (arith, length-view v))
