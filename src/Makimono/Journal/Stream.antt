-- ===== src/Makimono/Journal/Stream.antt =====
-- What a journal stands for: the stream of all bytes of the pane, by absolute offset, in which a
-- byte that was lost or evicted is a hole.
use Prim.Native.Nat.add
use mathlib.Core.List.{append_assoc}
use tear.Base.{
  ℕ, zero, suc, ◌+◌, ◌-◌, ◌≤◌, List, [], ◌∷◌, ◌++◌, map, Option, none, some, length, take, drop,
  ◌≡◌, refl, ap, arith,
}
use tear.Base.Maps.{get}
use tear.Makimono.Journal.{Segment, segment_end, SegmentFiles, Journal}

abbrev pub Stream : Type 0
Stream = List (Option ℕ)

abbrev pub hole : ℕ → Stream
hole zero = []
hole (suc n) = none ∷ hole n

-- A stretch of bytes that are all there.
abbrev pub stretch : List ℕ → Stream
stretch bytes = map some bytes

-- The bytes that are there.
abbrev pub present : Stream → List ℕ
present [] = []
present (none ∷ s) = present s
present (some b ∷ s) = b ∷ present s

-- The stream once the bytes below an offset are gone.
abbrev pub forget : ℕ → Stream → Stream
forget k s = hole k ++ drop k s

abbrev pub content : ℕ → SegmentFiles → List ℕ
content k files = elim (get k files) [ none ↦ [] | some bytes ↦ bytes ]

-- The stream from an offset on that segments and their files make, with what is lost at its end.
abbrev pub stream_from : SegmentFiles → ℕ → List Segment → ℕ → Stream
stream_from files floor [] lost = hole lost
stream_from files floor (s ∷ segs) lost =
    hole (s.start - floor)
    ++ (stretch (take s.len (content s.start files)) ++ stream_from files (segment_end s) segs lost)

abbrev pub view : Journal → Stream
view j = stream_from j.files 0 j.segments j.lost

pub sub_suc : (n k : ℕ) → suc n - suc k ≡ n - k
sub_suc n k = omega arith

pub sub_zero_left : (n : ℕ) → 0 - n ≡ 0
sub_zero_left n = omega arith

pub sub_zero_right : (n : ℕ) → n - 0 ≡ n
sub_zero_right n = omega arith

pub length-hole : (n : ℕ) → length (hole n) ≡ n
length-hole zero = refl
length-hole (suc n) = ap suc (length-hole n)

pub hole-add : (a b : ℕ) → hole (a + b) ≡ hole a ++ hole b
hole-add zero b = ground arith
hole-add (suc a) b = ground (arith, add.suc a b, hole-add a b)

pub drop-hole : (k n : ℕ) → drop k (hole n) ≡ hole (n - k)
drop-hole zero n = ground arith
drop-hole (suc k) zero = ground arith
drop-hole (suc k) (suc n) = ground (arith, drop-hole k n, sub_suc n k)

pub drop-append {ℓ} :
    {A : Type ℓ} (k : ℕ) (xs ys : List A) → drop k (xs ++ ys) ≡ drop k xs ++ drop (k - length xs) ys
drop-append zero [] ys = refl
drop-append zero (x ∷ xs) ys = rw (sub_zero_left (suc (length xs)))
drop-append (suc k) [] ys = rw (sub_zero_right (suc k))
drop-append (suc k) (x ∷ xs) ys = rw (sub_suc k (length xs)) (drop-append k xs ys)

pub take-append {ℓ} :
    {A : Type ℓ} (k : ℕ) (xs ys : List A) → take k (xs ++ ys) ≡ take k xs ++ take (k - length xs) ys
take-append zero [] ys = refl
take-append zero (x ∷ xs) ys = rw (sub_zero_left (suc (length xs)))
take-append (suc k) [] ys = rw (sub_zero_right (suc k))
take-append (suc k) (x ∷ xs) ys = rw (sub_suc k (length xs)) (ap (◌∷◌ x) (take-append k xs ys))

pub take-all {ℓ} : {A : Type ℓ} (n : ℕ) (xs : List A) → length xs ≤ n → take n xs ≡ xs
take-all zero [] h = refl
take-all zero (x ∷ xs) h = absurd (omega arith)
take-all (suc n) [] h = refl
take-all (suc n) (x ∷ xs) h = ap (◌∷◌ x) (take-all n xs (omega arith))

pub map-drop {ℓ κ} :
    {A : Type ℓ} {B : Type κ} (f : A → B) (n : ℕ) (xs : List A)
    → map f (drop n xs) ≡ drop n (map f xs)
map-drop f zero xs = refl
map-drop f (suc n) [] = refl
map-drop f (suc n) (x ∷ xs) = map-drop f n xs

pub present-append : (s t : Stream) → present (s ++ t) ≡ present s ++ present t
present-append [] t = refl
present-append (none ∷ s) t = present-append s t
present-append (some b ∷ s) t = ap (◌∷◌ b) (present-append s t)

pub present-hole : (n : ℕ) → present (hole n) ≡ []
present-hole zero = refl
present-hole (suc n) = present-hole n

pub present-stretch : (bytes : List ℕ) → present (stretch bytes) ≡ bytes
present-stretch [] = refl
present-stretch (b ∷ bytes) = ap (◌∷◌ b) (present-stretch bytes)

pub stream_from-lost :
    (files : SegmentFiles) (floor : ℕ) (segs : List Segment) (lost : ℕ)
    → stream_from files floor segs lost ≡ stream_from files floor segs 0 ++ hole lost
stream_from-lost files floor [] lost = refl
stream_from-lost files floor (s ∷ segs) lost =
    simp (stream_from-lost files (segment_end s) segs lost, append_assoc)
