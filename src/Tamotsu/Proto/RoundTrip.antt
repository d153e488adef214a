-- ===== src/Tamotsu/Proto/RoundTrip.antt =====
-- tamotsu/src/proto.rs: every message that could be written is read back by the other side.
use tear.Base.{
  ℕ, ◌<◌, false, List, ◌++◌, length, ◌≡◌, refl, sym, arith, length-append, take, drop, ltb,
}
use tear.Makimono.Lease.{ok, and_then, and_then-eq-ok}
use tear.Tamotsu.Proto.{
  ToHolder, FromHolder, ToControl, FromControl, Cbor, tag_control, tag_data, be_bytes4, be_bytes8,
  write_frame,
}
use tear.Tamotsu.Proto.Messages.{
  write_to_holder, parse_to_holder, read_to_holder, to_holder, write_from_holder, parse_from_holder,
  read_from_holder, from_holder,
}
use tear.Tamotsu.Proto.Framing.{read_frame-write_frame, from_be_bytes8, take-length, drop-length}

module _ (cbor : Cbor ToControl) (rest frame : List ℕ) where
  control_back :
      (control : ToControl)
      → and_then (cbor.encode control) (write_frame tag_control) ≡ ok frame
      → read_to_holder cbor (frame ++ rest) ≡ ok (to_holder cbor control, rest)
  unfolding read_to_holder parse_to_holder
  control_back control h =
      let (body, e, w) = and_then-eq-ok (cbor.encode control) (write_frame tag_control) h in
      rw (read_frame-write_frame tag_control body rest frame w, read_to_holder)
        (rw (cbor.decode-encode control body e) refl)

  write_back :
      (payload : List ℕ)
      → write_frame tag_data payload ≡ ok frame
      → read_to_holder cbor (frame ++ rest) ≡ ok (ToHolder.write payload, rest)
  unfolding read_to_holder parse_to_holder
  write_back payload h =
      rw (read_frame-write_frame tag_data payload rest frame h, read_to_holder) refl

  -- A message to a holder that could be written is what the holder reads, whatever follows on the
  -- stream.
  pub read_to_holder-write_to_holder :
      (message : ToHolder)
      → write_to_holder cbor message ≡ ok frame
      → read_to_holder cbor (frame ++ rest) ≡ ok (message, rest)
  unfolding write_to_holder
  read_to_holder-write_to_holder (ToHolder.write payload) h = write_back payload h
  read_to_holder-write_to_holder (ToHolder.hello proto) h = control_back (ToControl.hello proto) h
  read_to_holder-write_to_holder (ToHolder.attach from incarnation) h =
      control_back (ToControl.attach from incarnation) h
  read_to_holder-write_to_holder (ToHolder.resize cols rows) h =
      control_back (ToControl.resize cols rows) h
  read_to_holder-write_to_holder ToHolder.end h = control_back ToControl.end h
  read_to_holder-write_to_holder ToHolder.status h = control_back ToControl.status h

-- The offset of a `u64` in a message from a holder.
abbrev pub HasOffset : FromHolder → Type 0
HasOffset (FromHolder.bytes at payload) = at < 18446744073709551616
HasOffset message = Unit

length-be_bytes8 : (n : ℕ) → length (be_bytes8 n) ≡ 8
unfolding be_bytes8 be_bytes4
length-be_bytes8 n = refl

module _ (cbor : Cbor FromControl) (rest frame : List ℕ) where
  from_control_back :
      (control : FromControl)
      → and_then (cbor.encode control) (write_frame tag_control) ≡ ok frame
      → read_from_holder cbor (frame ++ rest) ≡ ok (from_holder cbor control, rest)
  unfolding read_from_holder parse_from_holder
  from_control_back control h =
      let (body, e, w) = and_then-eq-ok (cbor.encode control) (write_frame tag_control) h in
      rw (read_frame-write_frame tag_control body rest frame w, read_from_holder)
        (rw (cbor.decode-encode control body e) refl)

  parse_bytes :
      (at : ℕ) (payload : List ℕ)
      → at < 18446744073709551616
      → parse_from_holder cbor tag_data (be_bytes8 at ++ payload) ≡ ok (FromHolder.bytes at payload)
  unfolding parse_from_holder
  parse_bytes at payload h =
      rw (long, parse_from_holder) (rw (prefix, suffix, from_be_bytes8 at h) refl)
    where
      long : ltb (length (be_bytes8 at ++ payload)) 8 ≡ false
      long = ground (arith, length-append (be_bytes8 at) payload, length-be_bytes8 at)

      prefix : take 8 (be_bytes8 at ++ payload) ≡ be_bytes8 at
      prefix = rw (sym (length-be_bytes8 at)) (take-length (be_bytes8 at) payload)

      suffix : drop 8 (be_bytes8 at ++ payload) ≡ payload
      suffix = rw (sym (length-be_bytes8 at)) (drop-length (be_bytes8 at) payload)

  bytes_back :
      (at : ℕ) (payload : List ℕ)
      → at < 18446744073709551616
      → write_frame tag_data (be_bytes8 at ++ payload) ≡ ok frame
      → read_from_holder cbor (frame ++ rest) ≡ ok (FromHolder.bytes at payload, rest)
  unfolding read_from_holder
  bytes_back at payload fits h =
      rw (read_frame-write_frame tag_data (be_bytes8 at ++ payload) rest frame h, read_from_holder)
        (rw (parse_bytes at payload fits) refl)

  -- A message from a holder that could be written is what the daemon reads, whatever follows on the
  -- stream, where an offset in it is a `u64`.
  pub read_from_holder-write_from_holder :
      (message : FromHolder)
      → HasOffset message
      → write_from_holder cbor message ≡ ok frame
      → read_from_holder cbor (frame ++ rest) ≡ ok (message, rest)
  unfolding write_from_holder
  read_from_holder-write_from_holder (FromHolder.bytes at payload) fits h =
      bytes_back at payload fits h
  read_from_holder-write_from_holder (FromHolder.hello proto pid child_pid) fits h =
      from_control_back (FromControl.hello proto pid child_pid) h
  read_from_holder-write_from_holder (FromHolder.exited ending) fits h =
      from_control_back (FromControl.exited ending) h
  read_from_holder-write_from_holder (FromHolder.status s) fits h =
      from_control_back (FromControl.status s) h
  read_from_holder-write_from_holder (FromHolder.refused reason) fits h =
      from_control_back (FromControl.refused reason) h
  read_from_holder-write_from_holder (FromHolder.displaced by) fits h =
      from_control_back (FromControl.displaced by) h
