-- ===== src/Pipe/Session.antt =====
-- A pipe in use: threads write messages, and the loop of BusDispatcher::enter
-- (src/eventloop-integration.cpp) reads one in each round and hands it to the handler.
pub mod Order
use dbus_cplusplus.Common.{
  ℕ, zero, suc, ◌+◌, ◌^◌, ◌≤◌, ◌<◌, ◌≡◌, refl, sym, ap, ap₂, ◌∙◌, ◌≢◌, Bool, true, List, [], ◌∷◌,
  ◌++◌, append-nil, append_assoc, Option, none, some, arith, length, take_all, ltb, if◌then◌else◌,
}
use dbus_cplusplus.Pipe.{
  Bytes, Outcome, again, Pipe, ByteOrder, ReadResult, size_of_uint, open_pipe, write, read,
  read_loop, unreadable,
}
use dbus_cplusplus.Pipe.Write.{IsClean, progress, frame, write-Sent}
use dbus_cplusplus.Pipe.Read.{read-Received}

-- The pipe, the payloads written so far, and the buffers that the handler was called with.
pub record Session : Type 0 where
  pub pipe : Pipe
  pub sent : List Bytes
  pub handled : List Bytes

unfoldable pub start : Session
unfolding open_pipe
start = record { pipe = open_pipe; sent = []; handled = [] }

-- char buffer[1024];
abbrev pub buffer_size : ℕ
buffer_size = 1024

-- if (read_pipe->read(buffer, nbytes) > 0) read_pipe->_handler(read_pipe->_data, buffer, nbytes);
handle : Option ℕ → Bytes → List Bytes → List Bytes
handle (some (suc n)) buffer handled = handled ++ buffer ∷ []
handle (some zero) buffer handled = handled
handle none buffer handled = handled

module _ (order : ByteOrder) where
  unfoldable pub send : List Outcome → Bytes → Session → Option Session
  send os body s = elim (write order os body (length body) s.pipe) [
    | none ↦ none
    | some (pipe, rest) ↦ some (record s { pipe = pipe; sent = s.sent ++ body ∷ [] })
  ]

  -- One pipe's share of a round. `none` is for a read that does not return, and for one that writes
  -- past the end of `buffer`, which is undefined.
  unfoldable pub receive : List Outcome → Bool → Session → Option Session
  unfolding handle
  receive os flags_known s = elim (read order os flags_known s.pipe) [
    | none ↦ none
    | some (r, pipe, rest) ↦
        let after : Session = record s {
          pipe = pipe;
          handled = handle r.value r.buffer s.handled;
        } in
        if ltb buffer_size (length r.buffer) then none else some after
  ]

  -- What a thread may do next, with system calls that do not fail. A read of an empty pipe gets
  -- EAGAIN at once.
  pub data Step (limit : ℕ) (s t : Session) : Type 0 where
    sends :
        (os : List Outcome) (body : Bytes)
        → IsClean os
        → length body ≤ limit
        → size_of_uint + limit ≤ progress os
        → send os body s ≡ some t
        → Step limit s t
    receives :
        (os : List Outcome) (flags_known : Bool)
        → s.pipe.wire ≢ []
        → IsClean os
        → size_of_uint + limit ≤ progress os
        → receive os flags_known s ≡ some t
        → Step limit s t
    polls :
        (os : List Outcome) (flags_known : Bool)
        → s.pipe.wire ≡ []
        → receive (again ∷ os) flags_known s ≡ some t
        → Step limit s t

  pub data Reach (limit : ℕ) (s : Session) : Session → Type 0 where
    here : Reach limit s s
    next : {t u : Session} → Reach limit s t → Step limit t u → Reach limit s u

  -- The wire of some messages.
  abbrev pub frames : List Bytes → Bytes
  frames [] = []
  frames (b ∷ bs) = frame order b (length b) ++ frames bs

-- The payloads that the handler is called with: those of size 0 are wake-ups.
abbrev pub nonempty : List Bytes → List Bytes
nonempty [] = []
nonempty ([] ∷ bs) = nonempty bs
nonempty ((c ∷ b) ∷ bs) = (c ∷ b) ∷ nonempty bs

pub nonempty-append : (xs ys : List Bytes) → nonempty (xs ++ ys) ≡ nonempty xs ++ nonempty ys
nonempty-append [] ys = refl
nonempty-append ([] ∷ xs) ys = nonempty-append xs ys
nonempty-append ((c ∷ b) ∷ xs) ys = ap (◌∷◌ (c ∷ b)) (nonempty-append xs ys)

pub frames-append :
    (order : ByteOrder) (xs ys : List Bytes)
    → frames order (xs ++ ys) ≡ frames order xs ++ frames order ys
frames-append order [] ys = refl
frames-append order (b ∷ xs) ys =
    ap (λ w. frame order b (length b) ++ w) (frames-append order xs ys)
    ∙ sym (append_assoc (frame order b (length b)) (frames order xs) (frames order ys))

abbrev pub Short : ℕ → List Bytes → Type 0
Short limit [] = Unit {0}
Short limit (b ∷ bs) = (length b ≤ limit) × Short limit bs

pub Short-append :
    (limit : ℕ) (xs : List Bytes) (b : Bytes)
    → Short limit xs
    → length b ≤ limit
    → Short limit (xs ++ b ∷ [])
Short-append limit [] b h k = (k, tt)
Short-append limit (x ∷ xs) b h k = (h.0, Short-append limit xs b h.1 k)

-- Nothing is lost, made up, split or reordered: the wire is the frames of the messages that wait,
-- and what was handled and what waits is what was sent.
pub record InOrder (order : ByteOrder) (limit : ℕ) (s : Session) : Type 0 where
  pub waiting : List Bytes
  pub on_wire : s.pipe.wire ≡ frames order waiting
  pub short : Short limit waiting
  pub accounted : s.handled ++ nonempty waiting ≡ nonempty s.sent
  pub nonblock : s.pipe.nonblock ≡ true
