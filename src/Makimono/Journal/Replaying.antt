-- ===== src/Makimono/Journal/Replaying.antt =====
-- `read_all` of makimono/src/journal.rs: its loop ends, with all bytes of the stream.
use mathlib.Core.List.{append_assoc}
use tear.Base.{
  ℕ, zero, suc, ◌+◌, ◌-◌, ◌≤◌, ◌<◌, true, List, [], ◌++◌, Option, none, some, length, drop, ◌≡◌,
  refl, ap, ◌∙◌, sym, inl, inr, arith, length-map, length-drop, length-append, append-nil,
}
use tear.Makimono.Lease.{ok}
use tear.Makimono.Journal.{Journal, start, end}
use tear.Makimono.Journal.Reader.{Chunk, read_from, read_onward, read_all}
use tear.Makimono.Journal.Stream.{
  Stream, hole, stretch, view, present, present-append, present-hole, present-stretch,
}
use tear.Makimono.Journal.Valid.{IsValid}
use tear.Makimono.Journal.Writing.{view-forget}
use tear.Makimono.Journal.Reading.{read_from-Reads}
use tear.Makimono.Journal.Lengths.{length-view}
use tear.Makimono.Journal.Chunking.{Reads}

pub present-Reads :
    (at : ℕ) (stream : Stream) (chunk : Chunk)
    → drop at stream
      ≡ hole (chunk.at - at) ++ (stretch chunk.bytes ++ drop (chunk.at + length chunk.bytes) stream)
    → present (drop at stream)
      ≡ chunk.bytes ++ present (drop (chunk.at + length chunk.bytes) stream)
present-Reads at stream chunk e =
    ap present e ∙ simp (present-append, present-hole, present-stretch)

pub length-Reads :
    (at : ℕ) (stream : Stream) (chunk : Chunk)
    → drop at stream
      ≡ hole (chunk.at - at) ++ (stretch chunk.bytes ++ drop (chunk.at + length chunk.bytes) stream)
    → length chunk.bytes ≤ length stream - at
length-Reads at stream chunk e = omega (
  arith,
  ap length e,
  length-drop at stream,
  length-append (hole (chunk.at - at))
      (stretch chunk.bytes ++ drop (chunk.at + length chunk.bytes) stream),
  length-append (stretch chunk.bytes) (drop (chunk.at + length chunk.bytes) stream),
  length-map {B = Option ℕ} chunk.bytes some,
)

-- One round of the loop.
abbrev Round : Journal → ℕ → ℕ → List ℕ → Type 0
Round j fuel at out = read_onward fuel true j at out ≡ some (ok (out ++ present (drop at (view j))))

round :
    (fuel : ℕ) (j : Journal) (at : ℕ) (out : List ℕ) (found : Option Chunk)
    → read_from true at 1048576 j ≡ ok found
    → Reads at 1048576 (view j) found
    → length (view j) - at < suc fuel
    → ((next_at : ℕ) (so_far : List ℕ)
        → length (view j) - next_at < fuel
        → Round j fuel next_at so_far)
    → Round j (suc fuel) at out
unfolding read_onward
round fuel j at out none e (inl z) h again = absurd (omega arith)
round fuel j at out none e (inr (n, empty)) h again =
    rw (e, read_onward)
      (rw (empty, present-hole n) (ap (λ bytes. some (ok bytes)) (sym (append-nil out))))
round fuel j at out (some chunk) e (above, some_bytes, within, reads) h again =
    let after = drop (chunk.at + length chunk.bytes) (view j) in
    rw (e, read_onward)
      (rw
        (present-Reads at (view j) chunk reads, sym (append_assoc out chunk.bytes (present after)))
        (again (chunk.at + length chunk.bytes) (out ++ chunk.bytes)
          (omega (arith, length-Reads at (view j) chunk reads))))

read_onward-present :
    (fuel : ℕ) {j : Journal} (v : IsValid j) (at : ℕ) (out : List ℕ)
    → length (view j) - at < fuel
    → read_onward fuel true j at out ≡ some (ok (out ++ present (drop at (view j))))
read_onward-present zero {j} v at out h = absurd (omega arith)
read_onward-present (suc fuel) {j} v at out h =
    let (chunk, e, reads) = read_from-Reads at 1048576 v in
    round fuel j at out chunk e reads h (read_onward-present fuel v)

-- On a journal in order, and files that can be read, the loop of `read_all` ends, and gives just the
-- bytes that are there of the stream, in their order.
pub read_all-present : {j : Journal} → IsValid j → read_all true j ≡ some (ok (present (view j)))
unfolding read_all
read_all-present {j} v =
    read_onward-present (suc (end j)) v (start j) [] (omega (arith, length-view v))
    ∙ ap (λ bytes. some (ok bytes))
        (sym (
          ap present (view-forget j)
          ∙ present-append (hole (start j)) (drop (start j) (view j))
          ∙ rw (present-hole (start j)) refl))
