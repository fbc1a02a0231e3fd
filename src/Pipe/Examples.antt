-- ===== src/Pipe/Examples.antt =====
-- Tests of the pipe's model, and its theorems at concrete inputs: a little-endian host, and system
-- calls that move one or a few bytes, or are interrupted.
use dbus_cplusplus.Common.{
  ℕ, length, ◌+◌, ◌*◌, ◌/◌, ◌%◌, ◌^◌, ◌<◌, ◌≡◌, refl, true, List, [], ◌∷◌, some, arith,
}
use dbus_cplusplus.Pipe.{
  Bytes, ByteOrder, Outcome, moved, interrupted, again, failed, Pipe, open_pipe, write, write_loop,
  read, read_loop, unreadable, blocking, restored, payload,
}
use dbus_cplusplus.Pipe.Write.{Sent, write-Sent, frame}
use dbus_cplusplus.Pipe.Failure.{Appends, write-Appends}
use dbus_cplusplus.Pipe.Read.{Received, read-Received}
use dbus_cplusplus.Pipe.Session.{
  Session, start, send, receive, here, next, sends, receives, InOrder,
}
use dbus_cplusplus.Pipe.Session.Order.{Reach-InOrder, Reach-receive}

abbrev le_to_bytes : ℕ → Bytes
le_to_bytes n = n % 256 ∷ n / 256 % 256 ∷ n / 65536 % 256 ∷ n / 16777216 % 256 ∷ []

abbrev le_from_bytes : Bytes → ℕ
le_from_bytes [] = 0
le_from_bytes (b ∷ bs) = b + 256 * le_from_bytes bs

le_round_trip : (n : ℕ) → n < 2 ^ 32 → le_from_bytes (le_to_bytes n) ≡ n
le_round_trip n h = omega arith

abbrev little_endian : ByteOrder
little_endian = record {
  to_bytes = le_to_bytes;
  from_bytes = le_from_bytes;
  length_to_bytes = λ n. refl;
  from_bytes-to_bytes = le_round_trip;
}

abbrev calls : List Outcome
calls =
    moved 1
    ∷ interrupted
    ∷ moved 3
    ∷ moved 1
    ∷ moved 1
    ∷ interrupted
    ∷ moved 9
    ∷ moved 1
    ∷ moved 1
    ∷ moved 1
    ∷ moved 1
    ∷ []

abbrev ab : Bytes
ab = b'a' ∷ b'b' ∷ []

abbrev empty_pipe : Pipe
empty_pipe = record { wire = []; nonblock = true }

abbrev full_pipe : Pipe
full_pipe = record { wire = 2 ∷ 0 ∷ 0 ∷ 0 ∷ b'a' ∷ b'b' ∷ 7 ∷ []; nonblock = true }

write_in_pieces :
    write little_endian calls ab 2 empty_pipe
    ≡ some (
      record { wire = 2 ∷ 0 ∷ 0 ∷ 0 ∷ b'a' ∷ b'b' ∷ []; nonblock = true },
      interrupted ∷ moved 9 ∷ moved 1 ∷ moved 1 ∷ moved 1 ∷ moved 1 ∷ [],
    )
unfolding write write_loop
write_in_pieces = refl

-- A size read that EAGAIN cuts short drops the bytes that it has read.
size_cut_short :
    read little_endian (moved 1 ∷ again ∷ []) true full_pipe
    ≡ some (
      record { value = some 0; out_nbytes = 0; buffer = [] },
      record { wire = 0 ∷ 0 ∷ 0 ∷ b'a' ∷ b'b' ∷ 7 ∷ []; nonblock = true },
      [],
    )
unfolding read read_loop unreadable
size_cut_short = refl

write-Sent_example : Sent little_endian calls ab 2 empty_pipe
write-Sent_example = write-Sent little_endian calls ab 2 empty_pipe tt (omega arith) (omega arith)

write-Appends_example :
    Appends
      (frame little_endian ab 2)
      full_pipe
      (write little_endian (moved 2 ∷ failed ∷ []) ab 2 full_pipe)
write-Appends_example = write-Appends little_endian (moved 2 ∷ failed ∷ []) ab 2 full_pipe

read-Received_example : Received little_endian calls true full_pipe ab (7 ∷ [])
read-Received_example =
    read-Received little_endian calls true full_pipe ab (7 ∷ []) refl (omega arith) tt (omega arith)

abbrev after_send : Session
after_send = record {
  pipe = record { wire = 2 ∷ 0 ∷ 0 ∷ 0 ∷ b'a' ∷ b'b' ∷ []; nonblock = true };
  sent = ab ∷ [];
  handled = [];
}

abbrev after_receive : Session
after_receive = record { pipe = empty_pipe; sent = ab ∷ []; handled = ab ∷ [] }

sent_ab : send little_endian calls ab start ≡ some after_send
unfolding send write write_loop start open_pipe
sent_ab = refl

received_ab : receive little_endian calls true after_send ≡ some after_receive
unfolding receive read read_loop payload restored blocking
received_ab = refl

Reach-InOrder_example : InOrder little_endian 3 after_receive
Reach-InOrder_example = Reach-InOrder little_endian 3 after_receive (omega arith) (
    next (next here (sends calls ab tt (omega arith) (omega arith) sent_ab))
      (receives calls true (λ e. cc) tt (omega arith) received_ab))

Reach-receive_example :
    (u : Session) × (receive little_endian calls true after_send ≡ some u)
    × (length u.pipe.wire < length after_send.pipe.wire)
Reach-receive_example =
    Reach-receive little_endian 3 after_send calls true (omega arith)
      (next here (sends calls ab tt (omega arith) (omega arith) sent_ab)) (λ e. cc) tt (omega arith)
