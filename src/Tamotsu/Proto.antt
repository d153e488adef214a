-- ===== src/Tamotsu/Proto.antt =====
-- tamotsu/src/proto.rs: the frames between a holder and the daemon that is attached to it. A frame
-- is its length in four bytes, a tag, and a body.
pub mod Messages
pub mod Framing
pub mod RoundTrip
use tear.Base.{
  ℕ, ◌+◌, ◌*◌, ◌/◌, ◌%◌, Bool, List, [], ◌∷◌, ◌++◌, Option, if◌then◌else◌, ltb, ◌==◌, ◌||◌, length,
  take, drop, ◌≡◌,
}
use tear.Makimono.Lease.{IoResult, ok, failed, and_then}
use tear.TearCore.Runtime.{Ending}

pub data ToHolder : Type 0 where
  hello : ℕ → ToHolder
  attach : ℕ → Option ℕ → ToHolder
  write : List ℕ → ToHolder
  resize : ℕ → ℕ → ToHolder
  end : ToHolder
  status : ToHolder

pub record HolderStatus : Type 0 where
  pub pid : ℕ
  pub child_pid : Option ℕ
  pub start : ℕ
  pub end : ℕ

-- A reason is text of the error, which nothing here reads.
pub data FromHolder : Type 0 where
  hello : ℕ → ℕ → Option ℕ → FromHolder
  bytes : ℕ → List ℕ → FromHolder
  exited : Ending → FromHolder
  status : HolderStatus → FromHolder
  refused : List ℕ → FromHolder
  displaced : ℕ → FromHolder

pub data ToControl : Type 0 where
  hello : ℕ → ToControl
  attach : ℕ → Option ℕ → ToControl
  resize : ℕ → ℕ → ToControl
  end : ToControl
  status : ToControl

pub data FromControl : Type 0 where
  hello : ℕ → ℕ → Option ℕ → FromControl
  exited : Ending → FromControl
  status : HolderStatus → FromControl
  refused : List ℕ → FromControl
  displaced : ℕ → FromControl

abbrev pub tag_control : ℕ
tag_control = 1

abbrev pub tag_data : ℕ
tag_data = 2

abbrev pub max_frame : ℕ
max_frame = 16777216

-- What the frames rely on of the CBOR library: a value that it encodes is the value that decoding
-- the bytes gives.
pub record Cbor (A : Type 0) : Type 0 where
  pub encode : A → IoResult (List ℕ)
  pub decode : List ℕ → IoResult A
  pub decode-encode : (a : A) (body : List ℕ) → encode a ≡ ok body → decode body ≡ ok a

-- `u32::to_be_bytes` and `u64::to_be_bytes`
unfoldable pub be_bytes4 : ℕ → List ℕ
be_bytes4 n = n / 16777216 % 256 ∷ n / 65536 % 256 ∷ n / 256 % 256 ∷ n % 256 ∷ []

unfoldable pub be_bytes8 : ℕ → List ℕ
unfolding be_bytes4
be_bytes8 n = be_bytes4 (n / 4294967296) ++ be_bytes4 n

-- `u32::from_be_bytes` and `u64::from_be_bytes`
unfoldable pub from_be_bytes : ℕ → List ℕ → ℕ
from_be_bytes acc [] = acc
from_be_bytes acc (b ∷ bs) = from_be_bytes (acc * 256 + b) bs

-- `write_frame`: the bytes that it puts on the stream. The body is the parts, joined.
unfoldable pub write_frame : ℕ → List ℕ → IoResult (List ℕ)
unfolding be_bytes4
write_frame tag body =
    if ltb max_frame (1 + length body)
    then failed
    else ok (be_bytes4 (1 + length body) ++ (tag ∷ body))

-- `Read::read_exact`: the bytes, and those that follow.
unfoldable pub read_exact : ℕ → List ℕ → IoResult (List ℕ × List ℕ)
read_exact n input = if ltb (length input) n then failed else ok (take n input, drop n input)

-- The tag and the body of what `read_frame` has read.
abbrev pub tagged : List ℕ × List ℕ → IoResult (ℕ × List ℕ × List ℕ)
tagged ([], rest) = failed
tagged (tag ∷ body, rest) = ok (tag, body, rest)

-- `read_frame`: the tag, the body, and the bytes that follow the frame.
unfoldable pub read_frame : List ℕ → IoResult (ℕ × List ℕ × List ℕ)
unfolding read_exact from_be_bytes
read_frame input = and_then (read_exact 4 input) (λ prefix.
    let len = from_be_bytes 0 prefix.0 in
    if len == 0 || ltb max_frame len then failed else and_then (read_exact len prefix.1) tagged)
