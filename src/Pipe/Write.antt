-- ===== src/Pipe/Write.antt =====
-- Pipe::write (src/pipe.cpp): what the loop puts on the wire, and that it ends.
use dbus_cplusplus.Common.{
  ℕ, ◌+◌, ◌-◌, ◌≤◌, ◌≡◌, ap, ◌∙◌, min, true, List, [], ◌∷◌, ◌++◌, append-nil, append_assoc, some,
  inl, inr, arith, length, take, drop, take-append-drop, length-take, drop-add, drop_all, ltb,
  ltb→lt, ltb→le, le→ltb, Bool-cases,
}
use dbus_cplusplus.Pipe.{
  size_of_uint, Bytes, Outcome, moved, interrupted, again, failed, Pipe, ByteOrder, write_loop,
  write,
}

-- Every call moves bytes or is interrupted.
abbrev pub IsClean : List Outcome → Type 0
IsClean [] = Unit {0}
IsClean (moved k ∷ os) = IsClean os
IsClean (interrupted ∷ os) = IsClean os
IsClean (again ∷ os) = ⊥
IsClean (failed ∷ os) = ⊥

-- How many calls move at least one byte.
abbrev pub progress : List Outcome → ℕ
progress [] = 0
progress (moved k ∷ os) = min k 1 + progress os
progress (interrupted ∷ os) = progress os
progress (again ∷ os) = progress os
progress (failed ∷ os) = progress os

-- What a finished loop has put on the wire, and the outcomes that it leaves for the next loop.
pub record Written (os : List Outcome) (buffer : Bytes) (n : ℕ) (wire : Bytes) : Type 0 where
  pub rest : List Outcome
  pub returns : write_loop os buffer n wire ≡ some (true, wire ++ drop n buffer, rest)
  pub clean : IsClean rest
  pub left : progress os ≤ progress rest + (length buffer - n)

write_end :
    (os : List Outcome) (buffer : Bytes) (n : ℕ) (wire : Bytes)
    → length buffer ≤ n
    → write_loop os buffer n wire ≡ some (true, wire ++ drop n buffer, os)
unfolding write_loop
write_end [] buffer n wire h = rw (le→ltb n (length buffer) h, drop_all n buffer h, append-nil)
write_end (o ∷ os) buffer n wire h =
    rw (le→ltb n (length buffer) h, write_loop, drop_all n buffer h, append-nil)

write_chunk :
    (n rc : ℕ) (buffer wire : Bytes)
    → (wire ++ take rc (drop n buffer)) ++ drop (n + rc) buffer ≡ wire ++ drop n buffer
write_chunk n rc buffer wire =
    rw (drop-add n rc buffer, append_assoc, take-append-drop rc (drop n buffer))

write_interrupted :
    (os : List Outcome) (buffer : Bytes) (n : ℕ) (wire : Bytes)
    → ltb n (length buffer) ≡ true
    → write_loop (interrupted ∷ os) buffer n wire ≡ write_loop os buffer n wire
unfolding write_loop
write_interrupted os buffer n wire more = rw (more, write_loop)

write_moved :
    (k : ℕ) (os : List Outcome) (buffer : Bytes) (n : ℕ) (wire : Bytes)
    → ltb n (length buffer) ≡ true
    → let rc = min k (length buffer - n) in
      write_loop (moved k ∷ os) buffer n wire
      ≡ write_loop os buffer (n + rc) (wire ++ take rc (drop n buffer))
unfolding write_loop
write_moved k os buffer n wire more = rw (more, write_loop)

finished :
    (os : List Outcome) (buffer : Bytes) (n : ℕ) (wire : Bytes)
    → IsClean os
    → length buffer ≤ n
    → Written os buffer n wire
finished os buffer n wire c h = record {
  rest = os;
  returns = write_end os buffer n wire h;
  clean = c;
  left = omega arith;
}

pub write_loop-Written :
    (os : List Outcome) (buffer : Bytes) (n : ℕ) (wire : Bytes)
    → IsClean os
    → n ≤ length buffer
    → length buffer ≤ n + progress os
    → Written os buffer n wire
write_loop-Written [] buffer n wire c lo hi = record {
  rest = [];
  returns = write_end [] buffer n wire (omega arith);
  clean = tt;
  left = omega arith;
}
write_loop-Written (again ∷ os) buffer n wire c lo hi = absurd c
write_loop-Written (failed ∷ os) buffer n wire c lo hi = absurd c
write_loop-Written (interrupted ∷ os) buffer n wire c lo hi =
    elim (Bool-cases (ltb n (length buffer))) [
      | inr done ↦ finished (interrupted ∷ os) buffer n wire c (ltb→le _ _ done)
      | inl more ↦
          let w = write_loop-Written os buffer n wire c lo hi in
          record {
            rest = w.rest;
            returns = write_interrupted os buffer n wire more ∙ w.returns;
            clean = w.clean;
            left = w.left;
          }
    ]
write_loop-Written (moved k ∷ os) buffer n wire c lo hi =
    elim (Bool-cases (ltb n (length buffer))) [
      | inr done ↦ finished (moved k ∷ os) buffer n wire c (ltb→le _ _ done)
      | inl more ↦
          let rc = min k (length buffer - n) in
          let w =
            write_loop-Written os buffer (n + rc) (wire ++ take rc (drop n buffer)) c
              (omega (arith, ltb→lt _ _ more)) (omega (arith, ltb→lt _ _ more)) in
          record {
            rest = w.rest;
            returns =
                write_moved k os buffer n wire more
                ∙ w.returns
                ∙ ap (λ b. some (true, b, w.rest)) (write_chunk n rc buffer wire);
            clean = w.clean;
            left = omega (arith, w.left, ltb→lt _ _ more);
          }
    ]

-- The bytes of one message: its size, then its payload.
abbrev pub frame : ByteOrder → Bytes → ℕ → Bytes
frame order buffer nbytes = order.to_bytes nbytes ++ take nbytes buffer

pub record Sent (order : ByteOrder) (os : List Outcome) (buffer : Bytes) (nbytes : ℕ) (pipe : Pipe)
    : Type 0 where
  pub rest : List Outcome
  pub returns :
      write order os buffer nbytes pipe
      ≡ some (record pipe { wire = pipe.wire ++ frame order buffer nbytes }, rest)
  pub clean : IsClean rest
  pub left : progress os ≤ progress rest + (size_of_uint + nbytes)

-- If no call fails and enough of them move a byte, Pipe::write returns, and has appended the whole
-- message, however the kernel cut it up.
pub write-Sent :
    (order : ByteOrder) (os : List Outcome) (buffer : Bytes) (nbytes : ℕ) (pipe : Pipe)
    → IsClean os
    → nbytes ≤ length buffer
    → size_of_uint + nbytes ≤ progress os
    → Sent order os buffer nbytes pipe
unfolding write
write-Sent order os buffer nbytes pipe c fits enough =
    let len4 = order.length_to_bytes nbytes in
    let lenp = length-take nbytes buffer in
    let w =
      write_loop-Written os (order.to_bytes nbytes) 0 pipe.wire c (omega arith)
        (omega (arith, len4)) in
    let w' =
      write_loop-Written w.rest (take nbytes buffer) 0 (pipe.wire ++ order.to_bytes nbytes) w.clean
        (omega arith) (omega (arith, lenp, len4, w.left)) in
    record {
      rest = w'.rest;
      returns = rw (w.returns, write, w'.returns, append_assoc);
      clean = w'.clean;
      left = omega (arith, len4, lenp, w.left, w'.left);
    }
