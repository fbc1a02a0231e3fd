-- ===== src/Pipe/Session/Order.antt =====
-- The pipe of src/pipe.cpp as a queue of messages: a session keeps them in order.
use dbus_cplusplus.Common.{
  ℕ, ◌+◌, ◌≤◌, ◌<◌, ◌≡◌, refl, sym, ap, ap₂, ◌∙◌, ◌≢◌, Bool, true, List, [], ◌∷◌, ◌++◌, append-nil,
  append_assoc, some, arith, length, length-append, take, take_all, le→ltb,
}
use dbus_cplusplus.Pipe.{
  Bytes, Outcome, again, Pipe, ByteOrder, size_of_uint, open_pipe, read, read_loop, unreadable,
}
use dbus_cplusplus.Pipe.Write.{IsClean, progress, frame, write-Sent}
use dbus_cplusplus.Pipe.Read.{read-Received}
use dbus_cplusplus.Pipe.Session.{
  Session, start, handle, send, receive, Step, sends, receives, polls, Reach, here, next, frames,
  nonempty, nonempty-append, frames-append, Short, Short-append, InOrder, buffer_size,
}

some_inj {ℓ} : {A : Type ℓ} (a b : A) → some a ≡ some b → a ≡ b
some_inj a b e = cc

handled_head :
    (body : Bytes) (handled waiting : List Bytes)
    → handle (some (length body)) body handled ++ nonempty waiting
      ≡ handled ++ nonempty (body ∷ waiting)
unfolding handle
handled_head [] handled waiting = refl
handled_head (c ∷ b) handled waiting = append_assoc handled ((c ∷ b) ∷ []) (nonempty waiting)

module _ (order : ByteOrder) (limit : ℕ) (bound : limit ≤ buffer_size) where
  start-InOrder : InOrder order limit start
  unfolding start open_pipe
  start-InOrder = record {
    waiting = [];
    on_wire = refl;
    short = tt;
    accounted = refl;
    nonblock = refl;
  }

  send-InOrder :
      (s t : Session) (os : List Outcome) (body : Bytes)
      → InOrder order limit s
      → IsClean os
      → length body ≤ limit
      → size_of_uint + limit ≤ progress os
      → send order os body s ≡ some t
      → InOrder order limit t
  unfolding send
  send-InOrder s t os body v c fits enough e =
      let w = write-Sent order os body (length body) s.pipe c (omega arith) (omega arith) in
      let pipe : Pipe = record (s.pipe) { wire = s.pipe.wire ++ frame order body (length body) } in
      let after : Session = record s { pipe = pipe; sent = s.sent ++ body ∷ [] } in
      let is_t : t ≡ after = some_inj t after (sym e ∙ rw (w.returns, send)) in
      rw is_t (record {
        waiting = v.waiting ++ body ∷ [];
        on_wire =
            ap₂ (λ x y. x ++ y) v.on_wire (sym (append-nil (frame order body (length body))))
            ∙ sym (frames-append order v.waiting (body ∷ []));
        short = Short-append limit v.waiting body v.short fits;
        accounted =
            ap (λ x. s.handled ++ x) (nonempty-append v.waiting (body ∷ []))
            ∙ sym (append_assoc s.handled (nonempty v.waiting) (nonempty (body ∷ [])))
            ∙ ap (λ x. x ++ nonempty (body ∷ [])) v.accounted
            ∙ sym (nonempty-append s.sent (body ∷ []));
        nonblock = v.nonblock;
      })

  -- A read of a pipe with a message hands over the first, which fits in the buffer.
  receive_first :
      (s : Session) (os : List Outcome) (flags_known : Bool) (body : Bytes) (waiting : List Bytes)
      → s.pipe.wire ≡ frames order (body ∷ waiting)
      → length body ≤ limit
      → IsClean os
      → size_of_uint + limit ≤ progress os
      → receive order os flags_known s
        ≡ some (record s {
          pipe = record (s.pipe) { wire = frames order waiting };
          handled = handle (some (length body)) body s.handled;
        })
  unfolding receive
  receive_first s os known body waiting w fits c enough =
      let whole : frame order body (length body) ≡ order.to_bytes (length body) ++ body =
        ap (λ b. order.to_bytes (length body) ++ b) (take_all (length body) body (omega arith)) in
      let r =
        read-Received order os known s.pipe body (frames order waiting)
          (w ∙ ap (λ f. f ++ frames order waiting) whole) (omega (arith, fits)) c
          (omega (arith, fits)) in
      rw (r.returns, receive, le→ltb buffer_size (length body) (omega (arith, fits))) refl

  receive-InOrder :
      (s t : Session) (os : List Outcome) (flags_known : Bool) (waiting : List Bytes)
      → s.pipe.wire ≡ frames order waiting
      → Short limit waiting
      → s.handled ++ nonempty waiting ≡ nonempty s.sent
      → s.pipe.nonblock ≡ true
      → s.pipe.wire ≢ []
      → IsClean os
      → size_of_uint + limit ≤ progress os
      → receive order os flags_known s ≡ some t
      → InOrder order limit t
  receive-InOrder s t os known [] w short acc nb full c enough e = absurd (full w)
  receive-InOrder s t os known (body ∷ waiting) w short acc nb full c enough e =
      let pipe : Pipe = record (s.pipe) { wire = frames order waiting } in
      let after : Session = record s {
        pipe = pipe;
        handled = handle (some (length body)) body s.handled;
      } in
      let is_t : t ≡ after =
        some_inj t after (sym e ∙ receive_first s os known body waiting w short.0 c enough) in
      rw is_t (record {
        waiting = waiting;
        on_wire = refl;
        short = short.1;
        accounted = handled_head body s.handled waiting ∙ acc;
        nonblock = nb;
      })

  polls-InOrder :
      (s t : Session) (os : List Outcome) (flags_known : Bool)
      → InOrder order limit s
      → receive order (again ∷ os) flags_known s ≡ some t
      → InOrder order limit t
  unfolding receive read read_loop unreadable handle
  polls-InOrder s t os known v e = rw (some_inj t s (sym e)) v

  Step-InOrder :
      (s t : Session) → Step order limit s t → InOrder order limit s → InOrder order limit t
  Step-InOrder s t (sends os body c fits enough e) v = send-InOrder s t os body v c fits enough e
  Step-InOrder s t (receives os known full c enough e) v =
      receive-InOrder s t os known v.waiting v.on_wire v.short v.accounted v.nonblock full c enough
        e
  Step-InOrder s t (polls os known idle e) v = polls-InOrder s t os known v e

-- In every state that threads can reach by writes of up to `limit` bytes, which fit in the loop's
-- buffer, and by reads, with system calls that do not fail, the wire is the frames of the messages
-- that wait, and the buffers that the handler got, followed by the messages of nonzero size that
-- wait, are those that were written, in their order; and the read end is non-blocking.
pub Reach-InOrder :
    (order : ByteOrder) (limit : ℕ) (t : Session)
    → limit ≤ buffer_size
    → Reach order limit start t
    → InOrder order limit t
Reach-InOrder order limit t bound r = go r
  where
    go : {t : Session} → Reach order limit start t → InOrder order limit t
    go here = start-InOrder order limit bound
    go (next r st) = Step-InOrder order limit bound _ _ st (go r)

receive_next :
    (order : ByteOrder) (limit : ℕ) (t : Session) (os : List Outcome) (flags_known : Bool)
    (waiting : List Bytes)
    → limit ≤ buffer_size
    → t.pipe.wire ≡ frames order waiting
    → Short limit waiting
    → t.pipe.wire ≢ []
    → IsClean os
    → size_of_uint + limit ≤ progress os
    → (u : Session) × (receive order os flags_known t ≡ some u)
      × (length u.pipe.wire < length t.pipe.wire)
receive_next order limit t os known [] bound w short full c enough = absurd (full w)
receive_next order limit t os known (body ∷ waiting) bound w short full c enough = (
  record t {
    pipe = record (t.pipe) { wire = frames order waiting };
    handled = handle (some (length body)) body t.handled;
  },
  receive_first order limit bound t os known body waiting w short.0 c enough,
  shorter,
)
  where
    shorter : length (frames order waiting) < length t.pipe.wire
    shorter =
        let l = length-append (frame order body (length body)) (frames order waiting) in
        let m = length-append (order.to_bytes (length body)) (take (length body) body) in
        let k = order.length_to_bytes (length body) in
        let q = ap length w in omega (arith, l, m, k, q)

-- In every state that threads can reach by writes of up to `limit` bytes, which fit in the loop's
-- buffer, and by reads, with system calls that do not fail: as long as there is something on the
-- wire, the loop's next read, if its system calls do not fail either and move enough bytes, returns,
-- writes no more than the 1024 bytes of the buffer, and leaves less on the wire.
pub Reach-receive :
    (order : ByteOrder) (limit : ℕ) (t : Session) (os : List Outcome) (flags_known : Bool)
    → limit ≤ buffer_size
    → Reach order limit start t
    → t.pipe.wire ≢ []
    → IsClean os
    → size_of_uint + limit ≤ progress os
    → (u : Session) × (receive order os flags_known t ≡ some u)
      × (length u.pipe.wire < length t.pipe.wire)
Reach-receive order limit t os known bound r full c enough =
    let v = Reach-InOrder order limit t bound r in
    receive_next order limit t os known v.waiting bound v.on_wire v.short full c enough
