-- ===== src/Tamotsu/Proto/Framing.antt =====
-- tamotsu/src/proto.rs: a frame that was written is read back, and what a length may be.
use mathlib.Core.List.{append_assoc}
use tear.Base.{
  ℕ, ◌+◌, ◌≤◌, ◌<◌, false, List, [], ◌∷◌, ◌++◌, ltb, ◌==◌, ◌||◌, length, take, drop, ◌≡◌, refl, ap,
  sym, arith, Bool-cases, inl, inr, length-append, ◌⊎◌,
}
use tear.Makimono.Lease.{ok, failed}
use tear.Tamotsu.Proto.{
  max_frame, be_bytes4, be_bytes8, from_be_bytes, write_frame, read_exact, read_frame,
}

pub from_be_bytes4 : (n : ℕ) → n < 4294967296 → from_be_bytes 0 (be_bytes4 n) ≡ n
unfolding from_be_bytes be_bytes4
from_be_bytes4 n h = omega arith

pub from_be_bytes8 : (n : ℕ) → n < 18446744073709551616 → from_be_bytes 0 (be_bytes8 n) ≡ n
unfolding from_be_bytes be_bytes8 be_bytes4
from_be_bytes8 n h = omega arith

pub take-length {ℓ} : {A : Type ℓ} (xs ys : List A) → take (length xs) (xs ++ ys) ≡ xs
take-length [] ys = refl
take-length (x ∷ xs) ys = ap (◌∷◌ x) (take-length xs ys)

pub drop-length {ℓ} : {A : Type ℓ} (xs ys : List A) → drop (length xs) (xs ++ ys) ≡ ys
drop-length [] ys = refl
drop-length (x ∷ xs) ys = drop-length xs ys

pub read_exact-append :
    (n : ℕ) (bytes rest : List ℕ)
    → length bytes ≡ n
    → read_exact n (bytes ++ rest) ≡ ok (bytes, rest)
unfolding read_exact
read_exact-append n bytes rest e =
    rw (sym e, within) (rw (take-length bytes rest, drop-length bytes rest) refl)
  where
    within : ltb (length (bytes ++ rest)) (length bytes) ≡ false
    within = ground (arith, length-append bytes rest)

-- A body can be written when it fits with its tag.
pub write_frame_cases :
    (tag : ℕ) (body : List ℕ)
    → ((length body < max_frame)
        × (write_frame tag body ≡ ok (be_bytes4 (1 + length body) ++ (tag ∷ body))))
      ⊎ ((max_frame ≤ length body) × (write_frame tag body ≡ failed))
unfolding write_frame
write_frame_cases tag body = elim (Bool-cases (ltb max_frame (1 + length body))) [
  | inl e ↦ inr (ground arith, rw e refl)
  | inr e ↦ inl (ground arith, rw e refl)
]

length-be_bytes4 : (n : ℕ) → length (be_bytes4 n) ≡ 4
unfolding be_bytes4
length-be_bytes4 n = refl

read_frame-framed :
    (tag : ℕ) (body rest : List ℕ)
    → length body < max_frame
    → read_frame (be_bytes4 (1 + length body) ++ ((tag ∷ body) ++ rest)) ≡ ok (tag, body, rest)
unfolding read_frame
read_frame-framed tag body rest h =
    rw
      (
        read_exact-append 4 (be_bytes4 (1 + length body)) ((tag ∷ body) ++ rest)
            (length-be_bytes4 (1 + length body)),
        read_frame,
      )
      (rw
        (
          from_be_bytes4 (1 + length body) (omega arith),
          within,
          read_exact-append (1 + length body) (tag ∷ body) rest (omega arith),
        )
        refl)
  where
    within : ((1 + length body == 0) || ltb max_frame (1 + length body)) ≡ false
    within = ground arith

-- A frame that could be written is read back, whatever follows it on the stream.
pub read_frame-write_frame :
    (tag : ℕ) (body rest frame : List ℕ)
    → write_frame tag body ≡ ok frame
    → read_frame (frame ++ rest) ≡ ok (tag, body, rest)
read_frame-write_frame tag body rest frame h = elim (write_frame_cases tag body) [
  | inr (_, e) ↦ cc
  | inl (fits, e) ↦
      let same : be_bytes4 (1 + length body) ++ (tag ∷ body) ≡ frame = cc in
      rw (sym same, append_assoc (be_bytes4 (1 + length body)) (tag ∷ body) rest)
        (read_frame-framed tag body rest fits)
]
