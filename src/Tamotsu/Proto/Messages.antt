-- ===== src/Tamotsu/Proto/Messages.antt =====
-- tamotsu/src/proto.rs: the messages as frames. What a client writes and a pane's bytes travel as
-- they are; every other message travels as CBOR.
use tear.Base.{ℕ, List, ◌++◌, if◌then◌else◌, ltb, ◌==◌, length, take, drop}
use tear.Makimono.Lease.{IoResult, ok, failed, and_then}
use tear.Tamotsu.Proto.{
  ToHolder, FromHolder, ToControl, FromControl, Cbor, tag_control, tag_data, be_bytes8,
  from_be_bytes, write_frame, read_frame,
}

module _ (cbor : Cbor ToControl) where
  write_to_control : ToControl → IoResult (List ℕ)
  unfolding write_frame
  write_to_control control = and_then (cbor.encode control) (write_frame tag_control)

  -- `write_to_holder`
  unfoldable pub write_to_holder : ToHolder → IoResult (List ℕ)
  unfolding write_frame write_to_control
  write_to_holder (ToHolder.write payload) = write_frame tag_data payload
  write_to_holder (ToHolder.hello proto) = write_to_control (ToControl.hello proto)
  write_to_holder (ToHolder.attach from incarnation) =
      write_to_control (ToControl.attach from incarnation)
  write_to_holder (ToHolder.resize cols rows) = write_to_control (ToControl.resize cols rows)
  write_to_holder ToHolder.end = write_to_control ToControl.end
  write_to_holder ToHolder.status = write_to_control ToControl.status

  abbrev pub to_holder : ToControl → ToHolder
  to_holder (ToControl.hello proto) = ToHolder.hello proto
  to_holder (ToControl.attach from incarnation) = ToHolder.attach from incarnation
  to_holder (ToControl.resize cols rows) = ToHolder.resize cols rows
  to_holder ToControl.end = ToHolder.end
  to_holder ToControl.status = ToHolder.status

  -- `read_to_holder`, on the tag and the body of a frame.
  unfoldable pub parse_to_holder : ℕ → List ℕ → IoResult ToHolder
  parse_to_holder tag body =
      if tag == tag_data
      then ok (ToHolder.write body)
      else if tag == tag_control
      then and_then (cbor.decode body) (λ control. ok (to_holder control))
      else failed

  -- `read_to_holder`: the message, and the bytes that follow its frame.
  unfoldable pub read_to_holder : List ℕ → IoResult (ToHolder × List ℕ)
  unfolding read_frame parse_to_holder
  read_to_holder input =
      and_then (read_frame input)
        (λ frame. and_then (parse_to_holder frame.0 frame.1) (λ message. ok (message, frame.2)))

module _ (cbor : Cbor FromControl) where
  write_from_control : FromControl → IoResult (List ℕ)
  unfolding write_frame
  write_from_control control = and_then (cbor.encode control) (write_frame tag_control)

  -- `write_from_holder`
  unfoldable pub write_from_holder : FromHolder → IoResult (List ℕ)
  unfolding write_frame write_from_control be_bytes8
  write_from_holder (FromHolder.bytes at payload) = write_frame tag_data (be_bytes8 at ++ payload)
  write_from_holder (FromHolder.hello proto pid child_pid) =
      write_from_control (FromControl.hello proto pid child_pid)
  write_from_holder (FromHolder.exited ending) = write_from_control (FromControl.exited ending)
  write_from_holder (FromHolder.status s) = write_from_control (FromControl.status s)
  write_from_holder (FromHolder.refused reason) = write_from_control (FromControl.refused reason)
  write_from_holder (FromHolder.displaced by) = write_from_control (FromControl.displaced by)

  abbrev pub from_holder : FromControl → FromHolder
  from_holder (FromControl.hello proto pid child_pid) = FromHolder.hello proto pid child_pid
  from_holder (FromControl.exited ending) = FromHolder.exited ending
  from_holder (FromControl.status s) = FromHolder.status s
  from_holder (FromControl.refused reason) = FromHolder.refused reason
  from_holder (FromControl.displaced by) = FromHolder.displaced by

  -- `read_from_holder`, on the tag and the body of a frame.
  unfoldable pub parse_from_holder : ℕ → List ℕ → IoResult FromHolder
  unfolding from_be_bytes
  parse_from_holder tag body =
      if tag == tag_data
      then (if ltb (length body) 8
          then failed
          else ok (FromHolder.bytes (from_be_bytes 0 (take 8 body)) (drop 8 body)))
      else if tag == tag_control
      then and_then (cbor.decode body) (λ control. ok (from_holder control))
      else failed

  -- `read_from_holder`: the message, and the bytes that follow its frame.
  unfoldable pub read_from_holder : List ℕ → IoResult (FromHolder × List ℕ)
  unfolding read_frame parse_from_holder
  read_from_holder input =
      and_then (read_frame input)
        (λ frame. and_then (parse_from_holder frame.0 frame.1) (λ message. ok (message, frame.2)))
