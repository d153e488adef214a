-- ===== src/Tamotsu/Tests.antt =====
-- The frames and the holder of tamotsu/src at concrete inputs.
use tear.Base.{ℕ, true, List, [], ◌∷◌, ◌++◌, none, some, ◌≡◌, refl, sym, arith}
use tear.Makimono.Lease.{IoResult, ok, failed}
use tear.Makimono.Journal.{AppendIo, start, end, append}
use tear.Makimono.Journal.Tests.{fine, fresh, gap, gap-IsValid}
use tear.Tamotsu.Proto.{Cbor, FromControl, FromHolder}
use tear.Tamotsu.Proto.Messages.{write_from_holder, read_from_holder}
use tear.Tamotsu.Proto.RoundTrip.{read_from_holder-write_from_holder}
use tear.Tamotsu.Holder.{State, own, attached, silent, admission, holding}
use tear.Tamotsu.Holder.Attaching.{AttachIo, attach}
use tear.Tamotsu.Holder.Records.{record_all, RunRecorded, record_all-RunRecorded}
use tear.Tamotsu.Holder.Catching.{HandsOn, attach-HandsOn, output}
use tear.Tamotsu.Holder.Replay.{unseen}
use tear.Tamotsu.Holder.Authority.{IsHeld, AtLeast, NotBelow, Step, Reach, here, next, Reach-IsHeld}
use tear.Tamotsu.Held.{Following}

-- An encoding of the one message that says who displaced a daemon.
encode_displaced : FromControl → IoResult (List ℕ)
encode_displaced (FromControl.displaced by) = ok (by ∷ [])
encode_displaced _ = failed

decode_displaced : List ℕ → IoResult FromControl
decode_displaced (by ∷ []) = ok (FromControl.displaced by)
decode_displaced _ = failed

decode-encode_displaced :
    (c : FromControl) (body : List ℕ) → encode_displaced c ≡ ok body → decode_displaced body ≡ ok c
unfolding encode_displaced decode_displaced
decode-encode_displaced (FromControl.displaced by) body e =
    let same : by ∷ [] ≡ body = ground arith in rw (sym same) refl
decode-encode_displaced (FromControl.hello proto pid child_pid) body e = cc
decode-encode_displaced (FromControl.exited ending) body e = cc
decode-encode_displaced (FromControl.status s) body e = cc
decode-encode_displaced (FromControl.refused reason) body e = cc

abbrev displaced_only : Cbor FromControl
displaced_only = record {
  encode = encode_displaced;
  decode = decode_displaced;
  decode-encode = decode-encode_displaced;
}

-- Bytes at offset 300, and a frame behind them.
read_from_holder-write_from_holder_example :
    read_from_holder displaced_only (
      (0 ∷ (0 ∷ (0 ∷ (10 ∷ (2 ∷ (0 ∷ (0 ∷ (0 ∷ (0 ∷ (0 ∷ (0 ∷ (1 ∷ (44 ∷ (7 ∷ []))))))))))))))
      ++ (9 ∷ []))
    ≡ ok (FromHolder.bytes 300 (7 ∷ []), 9 ∷ [])
unfolding write_from_holder
read_from_holder-write_from_holder_example =
    read_from_holder-write_from_holder displaced_only (9 ∷ [])
      (0 ∷ (0 ∷ (0 ∷ (10 ∷ (2 ∷ (0 ∷ (0 ∷ (0 ∷ (0 ∷ (0 ∷ (0 ∷ (1 ∷ (44 ∷ (7 ∷ []))))))))))))))
      (FromHolder.bytes 300 (7 ∷ [])) (omega arith) refl

-- The second write fails after a byte, and the third goes through.
abbrev torn : AppendIo
torn = record fine { write_stops = some 1 }

abbrev calls : List (AppendIo × List ℕ)
calls = (fine, 65 ∷ (66 ∷ [])) ∷ ((torn, 67 ∷ (68 ∷ [])) ∷ ((fine, 69 ∷ []) ∷ []))

record_all-RunRecorded_example : RunRecorded calls gap (record_all calls gap)
record_all-RunRecorded_example = record_all-RunRecorded calls gap-IsValid

-- A daemon that has seen the first three bytes, and was away for two writes.
abbrev seen : Following
seen = record { next_offset = 3; handed_on = 97 ∷ (98 ∷ (99 ∷ [])) }

abbrev away : List (AppendIo × List ℕ)
away = (fine, 65 ∷ (66 ∷ [])) ∷ ((fine, 67 ∷ []) ∷ [])

abbrev back_again : AttachIo
back_again = record { synced = true; now = 0; readable = true; stops = none }

abbrev left_alone : State
left_alone = record { journal = (record_all away gap).0; attached = none; authority = some 4 }

attach-HandsOn_example :
    HandsOn seen 7 left_alone
      (unseen seen gap ++ output away)
      (attach back_again 7 own 3 (some 5) left_alone)
unfolding record_all append start end admission
attach-HandsOn_example =
    attach-HandsOn away gap seen back_again 7 (some 5) left_alone gap-IsValid (omega arith)
      (omega arith) (refl, (refl, tt)) refl refl refl refl

-- Incarnation 5 attaches, and 4 is refused after it.
abbrev idle : State
idle = record { journal = fresh; attached = none; authority = none }

abbrev held_by_5 : State
held_by_5 = record {
  journal = fresh;
  attached = some (record { id = 1; incarnation = some 5 });
  authority = some 5;
}

five_then_four : Reach idle held_by_5
unfolding attach
five_then_four =
    next
      (next here (
        Step.attaches back_again 1 own 0 (some 5) idle
          (held_by_5, attached, record { sent = []; shut = [] }) refl))
      (Step.attaches back_again 2 own 0 (some 4) held_by_5
        (held_by_5, silent, record { sent = (2, FromHolder.displaced 5) ∷ []; shut = 2 ∷ [] }) refl)

Reach-IsHeld_example :
    IsHeld (holding held_by_5.attached) held_by_5.authority
    × AtLeast idle.authority held_by_5.authority
    × NotBelow idle.authority (holding held_by_5.attached)
Reach-IsHeld_example = Reach-IsHeld tt five_then_four
