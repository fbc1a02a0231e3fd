-- ===== src/Pipe/Failure.antt =====
-- Pipe::write (src/pipe.cpp) when calls may fail: what can be left on the wire.
use dbus_cplusplus.Common.{
  ℕ, ◌+◌, ◌-◌, ◌≤◌, ◌≡◌, refl, sym, ap, ◌∙◌, min, Bool, true, false, List, [], ◌∷◌, ◌++◌,
  append-nil, append_assoc, Option, none, some, inl, inr, arith, length, take, drop, drop-add,
  take_all, take-add, take-append_le, take-append_add, ltb, ltb→le, Bool-cases,
}
use dbus_cplusplus.Pipe.{
  Bytes, Outcome, moved, interrupted, again, failed, Pipe, ByteOrder, write_loop, write,
}
use dbus_cplusplus.Pipe.Write.{frame}

-- What a loop may leave, if it returns: a part of the rest of its buffer is on the wire, all of it
-- if the loop finished.
abbrev Part : Bytes → ℕ → Bytes → Option (Bool × Bytes × List Outcome) → Type 0
Part buffer n wire none = Unit {0}
Part buffer n wire (some (done, wire', rest)) =
    (m : ℕ) × (m ≤ length buffer - n)
    × (wire' ≡ wire ++ take m (drop n buffer))
    × (done ≡ true → length buffer ≤ n + m)

Part-longer :
    (rc n : ℕ) (buffer wire : Bytes) (r : Option (Bool × Bytes × List Outcome))
    → rc ≤ length buffer - n
    → Part buffer (n + rc) (wire ++ take rc (drop n buffer)) r
    → Part buffer n wire r
Part-longer rc n buffer wire none h p = tt
Part-longer rc n buffer wire (some (done, wire', rest)) h p = (
  rc + p.0,
  omega (arith, p.1),
  p.2
      ∙ append_assoc wire (take rc (drop n buffer)) (take p.0 (drop (n + rc) buffer))
      ∙ ap (λ b. wire ++ (take rc (drop n buffer) ++ take p.0 b)) (drop-add n rc buffer)
      ∙ ap (λ b. wire ++ b) (take-add rc p.0 (drop n buffer)),
  λ e. omega (arith, p.3 e),
)

nothing :
    (b : Bool) (buffer : Bytes) (n : ℕ) (wire : Bytes) (rest : List Outcome)
    → (b ≡ true → length buffer ≤ n)
    → Part buffer n wire (some (b, wire, rest))
nothing b buffer n wire rest h = (0, omega arith, sym (append-nil wire), λ e. omega (arith, h e))

write_loop-Part :
    (os : List Outcome) (buffer : Bytes) (n : ℕ) (wire : Bytes)
    → Part buffer n wire (write_loop os buffer n wire)
unfolding write_loop
write_loop-Part [] buffer n wire = elim (Bool-cases (ltb n (length buffer))) [
  | inl more ↦ rw more tt
  | inr done ↦ rw done (nothing true buffer n wire [] (λ _. ltb→le _ _ done))
]
write_loop-Part (interrupted ∷ os) buffer n wire = elim (Bool-cases (ltb n (length buffer))) [
  | inl more ↦ rw (more, write_loop) (write_loop-Part os buffer n wire)
  | inr done ↦
      rw (done, write_loop) (nothing true buffer n wire (interrupted ∷ os) (λ _. ltb→le _ _ done))
]
write_loop-Part (again ∷ os) buffer n wire = elim (Bool-cases (ltb n (length buffer))) [
  | inl more ↦ rw (more, write_loop) (nothing false buffer n wire os (λ e. cc))
  | inr done ↦
      rw (done, write_loop) (nothing true buffer n wire (again ∷ os) (λ _. ltb→le _ _ done))
]
write_loop-Part (failed ∷ os) buffer n wire = elim (Bool-cases (ltb n (length buffer))) [
  | inl more ↦ rw (more, write_loop) (nothing false buffer n wire os (λ e. cc))
  | inr done ↦
      rw (done, write_loop) (nothing true buffer n wire (failed ∷ os) (λ _. ltb→le _ _ done))
]
write_loop-Part (moved k ∷ os) buffer n wire = elim (Bool-cases (ltb n (length buffer))) [
  | inl more ↦
      let rc = min k (length buffer - n) in
      rw (more, write_loop)
        (Part-longer rc n buffer wire _ (omega arith)
          (write_loop-Part os buffer (n + rc) (wire ++ take rc (drop n buffer))))
  | inr done ↦
      rw (done, write_loop) (nothing true buffer n wire (moved k ∷ os) (λ _. ltb→le _ _ done))
]

-- What Pipe::write may leave, if it returns: the old bytes, and then a part of the message.
abbrev pub Appends : Bytes → Pipe → Option (Pipe × List Outcome) → Type 0
Appends whole pipe none = Unit {0}
Appends whole pipe (some (pipe', rest)) =
    (m : ℕ) × (pipe'.wire ≡ pipe.wire ++ take m whole) × (pipe'.nonblock ≡ pipe.nonblock)

module _ (order : ByteOrder) (buffer : Bytes) (nbytes : ℕ) (pipe : Pipe) where
  after_size :
      (rest : List Outcome) (wire : Bytes)
      → Part (order.to_bytes nbytes) 0 pipe.wire (some (true, wire, rest))
      → (r : Option (Bool × Bytes × List Outcome)) → Part (take nbytes buffer) 0 wire r
      → Appends (frame order buffer nbytes) pipe (elim r [
        | none ↦ none
        | some (done, wire', rest') ↦ some (record pipe { wire = wire' }, rest')
      ])
  after_size rest wire p none q = tt
  after_size rest wire p (some (done, wire', rest')) q = (
    length (order.to_bytes nbytes) + q.0,
    q.2
        ∙ ap (λ w. w ++ take q.0 (take nbytes buffer))
            (p.2
              ∙ ap (λ b. pipe.wire ++ b)
                  (take_all p.0 (order.to_bytes nbytes) (omega (arith, p.3 refl))))
        ∙ append_assoc pipe.wire (order.to_bytes nbytes) (take q.0 (take nbytes buffer))
        ∙ ap (λ b. pipe.wire ++ b)
            (sym (take-append_add (order.to_bytes nbytes) (take nbytes buffer) q.0)),
    refl,
  )

  write_phases :
      (r : Option (Bool × Bytes × List Outcome))
      → Part (order.to_bytes nbytes) 0 pipe.wire r
      → Appends (frame order buffer nbytes) pipe (elim r [
        | none ↦ none
        | some (false, wire, rest) ↦ some (record pipe { wire = wire }, rest)
        | some (true, wire, rest) ↦ elim (write_loop rest (take nbytes buffer) 0 wire) [
          | none ↦ none
          | some (done, wire', rest') ↦ some (record pipe { wire = wire' }, rest')
        ]
      ])
  write_phases none p = tt
  write_phases (some (false, wire, rest)) p = (
    p.0,
    p.2
        ∙ ap (λ b. pipe.wire ++ b)
            (sym (
              take-append_le p.0 (order.to_bytes nbytes) (take nbytes buffer)
                (omega (arith, p.1)))),
    refl,
  )
  write_phases (some (true, wire, rest)) p =
      after_size rest wire p _ (write_loop-Part rest (take nbytes buffer) 0 wire)

-- Whatever the kernel does, a Pipe::write that returns leaves the bytes that were there and the
-- descriptor's mode alone, and appends an initial part of its message.
pub write-Appends :
    (order : ByteOrder) (os : List Outcome) (buffer : Bytes) (nbytes : ℕ) (pipe : Pipe)
    → Appends (frame order buffer nbytes) pipe (write order os buffer nbytes pipe)
unfolding write
write-Appends order os buffer nbytes pipe =
    write_phases order buffer nbytes pipe _ (write_loop-Part os (order.to_bytes nbytes) 0 pipe.wire)
