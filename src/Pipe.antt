-- ===== src/Pipe.antt =====
-- src/pipe.cpp and include/dbus-c++/pipe.h: messages with a size prefix over a kernel pipe.
--
-- What the kernel and the host decide is an argument. A system call's results come as a list of
-- outcomes, one for each call of ::read or ::write in turn; `none` as a result means that the list
-- ended while the loop was still calling. The bytes of an `unsigned int` in memory are a
-- `ByteOrder`. The mutex makes one `write` a single step, so no state is kept for it.
pub mod Write
pub mod Failure
pub mod Read
pub mod Session
mod Examples
use dbus_cplusplus.Common.{
  ℕ, zero, suc, ◌+◌, ◌-◌, ◌^◌, ◌<◌, ◌≡◌, min, Bool, true, false, ◌&&◌, not, List, [], ◌∷◌, ◌++◌,
  Option, none, some, length, take, drop, ltb, if◌then◌else◌,
}

abbrev pub Bytes : Type 0
Bytes = List ℕ

-- sizeof(unsigned int)
abbrev pub size_of_uint : ℕ
size_of_uint = 4

-- How the host lays an `unsigned int` out in memory, and reads one back.
pub record ByteOrder : Type 0 where
  pub to_bytes : ℕ → Bytes
  pub from_bytes : Bytes → ℕ
  pub length_to_bytes : (n : ℕ) → length (to_bytes n) ≡ size_of_uint
  pub from_bytes-to_bytes : (n : ℕ) → n < 2 ^ 32 → from_bytes (to_bytes n) ≡ n

-- What one system call does: it moves at most so many bytes, or fails with EINTR, with EAGAIN, or
-- with another errno.
pub data Outcome : Type 0 where
  moved : ℕ → Outcome
  interrupted again failed : Outcome

-- The object: the bytes between the two descriptors, and whether _fd_read is O_NONBLOCK.
pub record Pipe : Type 0 where
  pub wire : Bytes
  pub nonblock : Bool

-- Pipe::Pipe: pipe() succeeded, and F_SETFL has made the read end non-blocking.
pub open_pipe : Pipe
open_pipe = record { wire = []; nonblock = true }

-- A loop of ::write calls over `buffer`: whether it finished, the wire, the outcomes left.
pub write_loop : List Outcome → Bytes → ℕ → Bytes → Option (Bool × Bytes × List Outcome)
write_loop [] buffer bytes_written wire =
    if ltb bytes_written (length buffer) then none else some (true, wire, [])
write_loop (o ∷ os) buffer bytes_written wire = elim (ltb bytes_written (length buffer)) [
  | false ↦ some (true, wire, o ∷ os)
  | true ↦ elim o [
    | interrupted ↦ write_loop os buffer bytes_written wire
    | again ↦ some (false, wire, os)
    | failed ↦ some (false, wire, os)
    | moved k ↦
        let rc = min k (length buffer - bytes_written) in
        write_loop os buffer (bytes_written + rc) (wire ++ take rc (drop bytes_written buffer))
  ]
]

-- A loop of ::read calls for `wanted` bytes, `got` the bytes so far. The result holds the outcome
-- that stopped it, if one did, the bytes, the wire and the outcomes left.
pub read_loop :
    List Outcome → ℕ → Bytes → Bytes → Option (Option Outcome × Bytes × Bytes × List Outcome)
read_loop [] wanted got wire = if ltb (length got) wanted then none else some (none, got, wire, [])
read_loop (o ∷ os) wanted got wire = elim (ltb (length got) wanted) [
  | false ↦ some (none, got, wire, o ∷ os)
  | true ↦ elim o [
    | interrupted ↦ read_loop os wanted got wire
    | again ↦ some (some again, got, wire, os)
    | failed ↦ some (some failed, got, wire, os)
    | moved k ↦
        let rc = min k (wanted - length got) in
        read_loop os wanted (got ++ take rc wire) (drop rc wire)
  ]
]

-- What Pipe::read gives back: its value, `none` for -1, `out_nbytes`, and the bytes it stored.
pub record ReadResult : Type 0 where
  pub value : Option ℕ
  pub out_nbytes : ℕ
  pub buffer : Bytes

-- The end of a size read that an errno stopped: EAGAIN is "nothing there", another is an error.
unreadable : Outcome → Option ℕ
unreadable again = some 0
unreadable _ = none

-- fcntl(F_SETFL, old_flags & ~O_NONBLOCK), if F_GETFL gave the flags and the bit is set.
blocking : Bool → Bool → Bool
blocking flags_known old = if flags_known && old then false else old

-- The label `cleanup`: fcntl(F_SETFL, old_flags) under the same test.
restored : Bool → Bool → Bool → Bool
restored flags_known old current = if flags_known && old then old else current

-- The payload's end: an errno other than EINTR sets the size to 0.
payload : Option Outcome → Bytes → ReadResult
payload none got = record { value = some (length got); out_nbytes = length got; buffer = got }
payload (some o) got = record { value = some 0; out_nbytes = 0; buffer = got }

module _ (order : ByteOrder) where
  open order use {to_bytes, from_bytes}

  -- Pipe::write: the size, then the payload; an errno other than EINTR ends the call.
  pub write : List Outcome → Bytes → ℕ → Pipe → Option (Pipe × List Outcome)
  write script buffer nbytes pipe = elim (write_loop script (to_bytes nbytes) 0 pipe.wire) [
    | none ↦ none
    | some (false, wire, rest) ↦ some (record pipe { wire = wire }, rest)
    | some (true, wire, rest) ↦ elim (write_loop rest (take nbytes buffer) 0 wire) [
      | none ↦ none
      | some (finished, wire', rest') ↦ some (record pipe { wire = wire' }, rest')
    ]
  ]

  -- Pipe::signal: a message of size 0.
  pub signal : List Outcome → Pipe → Option (Pipe × List Outcome)
  unfolding write
  signal script pipe = write script [] 0 pipe

  -- Pipe::read. `flags_known` says whether F_GETFL succeeded.
  pub read : List Outcome → Bool → Pipe → Option (ReadResult × Pipe × List Outcome)
  unfolding unreadable blocking restored payload
  read script flags_known pipe = elim (read_loop script size_of_uint [] pipe.wire) [
    | none ↦ none
    | some (some o, got, wire, rest) ↦ some (
      record { value = unreadable o; out_nbytes = 0; buffer = [] },
      record pipe { wire = wire },
      rest,
    )
    | some (none, got, wire, rest) ↦ elim (read_loop rest (from_bytes got) [] wire) [
      | none ↦ none
      | some (stop, got', wire', rest') ↦ some (
        payload stop got',
        record {
          wire = wire';
          nonblock = restored flags_known pipe.nonblock (blocking flags_known pipe.nonblock);
        },
        rest',
      )
    ]
  ]
