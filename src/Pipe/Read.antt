-- ===== src/Pipe/Read.antt =====
-- Pipe::read (src/pipe.cpp): what the loop takes off the wire, and that it ends.
use dbus_cplusplus.Common.{
  ℕ, ◌+◌, ◌-◌, ◌^◌, ◌≤◌, ◌<◌, ◌≡◌, refl, sym, ap, ap₂, ◌∙◌, min, Bool, true, false, List, [], ◌∷◌,
  ◌++◌, append-nil, append_assoc, none, some, inl, inr, arith, length, take, drop, length-append,
  length-take, length-drop, take-add, drop-add, ltb, ltb→lt, ltb→le, le→ltb, Bool-cases,
  take-append_length, drop-append_length,
}
use dbus_cplusplus.Pipe.{
  Bytes, Outcome, moved, interrupted, again, failed, size_of_uint, Pipe, ByteOrder, read_loop, read,
  blocking, restored, payload,
}
use dbus_cplusplus.Pipe.Write.{IsClean, progress}

-- A finished loop has taken exactly the bytes that it still wanted.
pub record Taken (os : List Outcome) (wanted : ℕ) (got wire : Bytes) : Type 0 where
  pub rest : List Outcome
  pub returns :
      read_loop os wanted got wire
      ≡ some (none, got ++ take (wanted - length got) wire, drop (wanted - length got) wire, rest)
  pub clean : IsClean rest
  pub left : progress os ≤ progress rest + (wanted - length got)

finished :
    (os : List Outcome) (wanted : ℕ) (got wire : Bytes)
    → IsClean os
    → wanted ≤ length got
    → Taken os wanted got wire
unfolding read_loop
finished [] wanted got wire c h = record {
  rest = [];
  returns =
      let z : wanted - length got ≡ 0 = omega arith in
      rw (le→ltb (length got) wanted h, z, append-nil);
  clean = tt;
  left = omega arith;
}
finished (o ∷ os) wanted got wire c h = record {
  rest = o ∷ os;
  returns =
      let z : wanted - length got ≡ 0 = omega arith in
      rw (le→ltb (length got) wanted h, read_loop, z, append-nil);
  clean = c;
  left = omega arith;
}

read_interrupted :
    (os : List Outcome) (wanted : ℕ) (got wire : Bytes)
    → ltb (length got) wanted ≡ true
    → read_loop (interrupted ∷ os) wanted got wire ≡ read_loop os wanted got wire
unfolding read_loop
read_interrupted os wanted got wire more = rw (more, read_loop)

read_moved :
    (k : ℕ) (os : List Outcome) (wanted : ℕ) (got wire : Bytes)
    → ltb (length got) wanted ≡ true
    → let rc = min k (wanted - length got) in
      read_loop (moved k ∷ os) wanted got wire
      ≡ read_loop os wanted (got ++ take rc wire) (drop rc wire)
unfolding read_loop
read_moved k os wanted got wire more = rw (more, read_loop)

-- Two cuts, one after the other, are one cut.
two_cuts :
    (a b : ℕ) (got wire : Bytes)
    → (got ++ take a wire) ++ take b (drop a wire) ≡ got ++ take (a + b) wire
two_cuts a b got wire = rw (append_assoc, take-add a b wire)

pub read_loop-Taken :
    (os : List Outcome) (wanted : ℕ) (got wire : Bytes)
    → IsClean os
    → wanted ≤ length got + length wire
    → wanted ≤ length got + progress os
    → Taken os wanted got wire
read_loop-Taken [] wanted got wire c there enough = finished [] wanted got wire c (omega arith)
read_loop-Taken (again ∷ os) wanted got wire c there enough = absurd c
read_loop-Taken (failed ∷ os) wanted got wire c there enough = absurd c
read_loop-Taken (interrupted ∷ os) wanted got wire c there enough =
    elim (Bool-cases (ltb (length got) wanted)) [
      | inr done ↦ finished (interrupted ∷ os) wanted got wire c (ltb→le _ _ done)
      | inl more ↦
          let t = read_loop-Taken os wanted got wire c there enough in
          record {
            rest = t.rest;
            returns = read_interrupted os wanted got wire more ∙ t.returns;
            clean = t.clean;
            left = t.left;
          }
    ]
read_loop-Taken (moved k ∷ os) wanted got wire c there enough =
    elim (Bool-cases (ltb (length got) wanted)) [
      | inr done ↦ finished (moved k ∷ os) wanted got wire c (ltb→le _ _ done)
      | inl more ↦
          let rc = min k (wanted - length got) in
          let lt = ltb→lt _ _ more in
          let len : length (got ++ take rc wire) ≡ length got + rc =
            omega (arith, length-append got (take rc wire), length-take rc wire) in
          let t =
            read_loop-Taken os wanted (got ++ take rc wire) (drop rc wire) c
              (omega (arith, len, length-drop rc wire, lt)) (omega (arith, len, lt)) in
          let b = wanted - length (got ++ take rc wire) in
          let whole : rc + b ≡ wanted - length got = omega (arith, len, lt) in
          record {
            rest = t.rest;
            returns =
                read_moved k os wanted got wire more
                ∙ t.returns
                ∙ ap₂ (λ x y. some (none, x, y, t.rest))
                    (two_cuts rc b got wire ∙ ap (λ m. got ++ take m wire) whole)
                    (sym (drop-add rc b wire) ∙ ap (λ m. drop m wire) whole);
            clean = t.clean;
            left = omega (arith, t.left, len, lt);
          }
    ]

-- A loop that starts with nothing takes exactly the head of the wire.
record Head (os : List Outcome) (head tail : Bytes) : Type 0 where
  rest : List Outcome
  returns : read_loop os (length head) [] (head ++ tail) ≡ some (none, head, tail, rest)
  clean : IsClean rest
  left : progress os ≤ progress rest + length head

read_loop-Head :
    (os : List Outcome) (head tail : Bytes)
    → IsClean os
    → length head ≤ progress os
    → Head os head tail
read_loop-Head os head tail c enough =
    let t =
      read_loop-Taken os (length head) [] (head ++ tail) c (omega (arith, length-append head tail))
        (omega arith) in
    let all : length head - 0 ≡ length head = omega arith in
    record {
      rest = t.rest;
      returns =
          t.returns
          ∙ ap₂ (λ x y. some (none, x, y, t.rest))
              (ap (λ m. take m (head ++ tail)) all ∙ take-append_length head tail)
              (ap (λ m. drop m (head ++ tail)) all ∙ drop-append_length head tail);
      clean = t.clean;
      left = omega (arith, t.left);
    }

-- What a finished Pipe::read gives back for a message with this payload at the head of the wire.
pub record Received (order : ByteOrder) (os : List Outcome) (flags_known : Bool) (pipe : Pipe)
    (body rest_of_wire : Bytes) : Type 0 where
  pub rest : List Outcome
  pub returns :
      read order os flags_known pipe
      ≡ some (
        record { value = some (length body); out_nbytes = length body; buffer = body },
        record pipe { wire = rest_of_wire },
        rest,
      )
  pub clean : IsClean rest
  pub left : progress os ≤ progress rest + (size_of_uint + length body)

restored-blocking : (known old : Bool) → restored known old (blocking known old) ≡ old
unfolding restored blocking
restored-blocking true true = refl
restored-blocking true false = refl
restored-blocking false old = refl

read_phases :
    (order : ByteOrder) (os os' os'' : List Outcome) (flags_known : Bool) (pipe : Pipe)
    (body later : Bytes)
    → pipe.wire ≡ (order.to_bytes (length body) ++ body) ++ later
    → length body < 2 ^ 32
    → read_loop os
        (length (order.to_bytes (length body)))
        []
        (order.to_bytes (length body) ++ (body ++ later))
      ≡ some (none, order.to_bytes (length body), body ++ later, os')
    → read_loop os' (length body) [] (body ++ later) ≡ some (none, body, later, os'')
    → read order os flags_known pipe
      ≡ some (
        record { value = some (length body); out_nbytes = length body; buffer = body },
        record pipe { wire = later },
        os'',
      )
unfolding read payload
read_phases order os os' os'' flags_known pipe body later e small first second =
    let prefix = order.to_bytes (length body) in
    let first' : read_loop os size_of_uint [] pipe.wire ≡ some (none, prefix, body ++ later, os') =
      ap₂ (λ n w. read_loop os n [] w) (sym (order.length_to_bytes (length body)))
        (e ∙ append_assoc prefix body later)
      ∙ first in
    let size : order.from_bytes prefix ≡ length body =
      order.from_bytes-to_bytes (length body) small in
    rw (first', read, size, second, restored-blocking flags_known pipe.nonblock)

-- With a whole message at the head of the wire, no failing call and enough that move a byte,
-- Pipe::read returns its payload and its length, takes just that message off the wire, and leaves
-- the descriptor's mode as it was.
pub read-Received :
    (order : ByteOrder) (os : List Outcome) (flags_known : Bool) (pipe : Pipe) (body later : Bytes)
    → pipe.wire ≡ (order.to_bytes (length body) ++ body) ++ later
    → length body < 2 ^ 32
    → IsClean os
    → size_of_uint + length body ≤ progress os
    → Received order os flags_known pipe body later
read-Received order os flags_known pipe body later e small c enough =
    let prefix = order.to_bytes (length body) in
    let len4 = order.length_to_bytes (length body) in
    let h = read_loop-Head os prefix (body ++ later) c (omega (arith, len4)) in
    let b = read_loop-Head h.rest body later h.clean (omega (arith, h.left, len4)) in
    record {
      rest = b.rest;
      returns =
          read_phases order os h.rest b.rest flags_known pipe body later e small h.returns
            b.returns;
      clean = b.clean;
      left = omega (arith, h.left, b.left, len4);
    }
