-- ===== src/Piper/System/Deliver.antt =====
-- The dispatcher thread handles a chunk of the response pipe (RequestPiper::dispatcher_pipe_handler
-- and do_send, src/request-piper.cpp; ObjectAdaptor::return_now, src/object.cpp).
use mathlib.Core.List.{
  Mem, Nodup, Perm, map-map, perm_append_singleton, Nodup-append, mem-append_right, Nodup-cons,
  mem-cons_self,
}
use mathlib.Core.List.Perm
use text.Mathlib.TextEquality.{IsScalar-prop}
use dbus_cplusplus.Common.{
  ℕ, suc, ◌≡◌, ◌≢◌, refl, sym, ap, ap₂, subst, ◌∙◌, false, List, [], ◌∷◌, ◌++◌, map, none, some,
  length, append-nil, arith, Option-cases, inl, inr, ◌==◌,
}
use dbus_cplusplus.Common.Dict.{find, erase}
use dbus_cplusplus.Common.Perms.{
  keys, perm_move, perm_remove, perm-append_right, distinct_remove, distinct_absent, distinct_perm,
  find-perm, find_absent, find_missing, same_value,
}
use dbus_cplusplus.Message.{
  CallMessage, Message, SignalMessage, new_return, reply_serial, copy_data, arguments,
  return_message,
}
use dbus_cplusplus.Object.{Continuation, reply, signal, emit_signal, send}
use dbus_cplusplus.Object
use dbus_cplusplus.Piper.{take_continuation, return_now, dispatcher_pipe_handler}
use dbus_cplusplus.Piper.System.{System, promised, entry, registered_calls, reply_serials}
use dbus_cplusplus.Piper.System.Account.{
  Balance, owed, requests, serials, kept, leaving, pair, tags, marks,
}
use dbus_cplusplus.Piper.System.Account.Parts.{Built-erase, reply_serials-append}

CallMessage-set : IsSet CallMessage
CallMessage-set = hlevel IsScalar-prop

-- What the answer to a call is: a method return with the arguments of the response.
abbrev pub answer : CallMessage → Message → Message
answer c res = return_message c.serial (arguments res)

copy_data-new_return :
    (c : CallMessage) (res : Message) → copy_data res (new_return c) ≡ answer c res
unfolding copy_data new_return
copy_data-new_return c res = refl

-- The state that a chunk with a response leads to.
abbrev pub delivered :
    System → List ℕ → ℕ → CallMessage → Message → List (CallMessage × Message) → System
delivered s chunks t c res waiting = record s {
  piper = record (s.piper) {
    self = record (s.piper.self) { response_n_signal_pipe = chunks; response_queue = waiting };
    continuations = erase t s.piper.continuations;
    sent = s.piper.sent ++ reply (answer c res) ∷ [];
  };
}

module _ (s : System) (v : Balance s) where
  its_call :
      (t : ℕ) (c : CallMessage) (others : List (ℕ × CallMessage)) (cont : Continuation)
      → Perm (registered_calls s.piper.continuations) ((t, c) ∷ others)
      → Nodup (
          0
          ∷ (keys (registered_calls s.piper.continuations)
              ++ keys (s.piper.self).pipe_continuations))
      → find t s.piper.continuations ≡ some cont
      → cont.call ≡ c
  its_call t c others cont balanced distinct found =
      let conts = s.piper.continuations in
      let out : Perm (registered_calls conts) ((t, cont.call) ∷ registered_calls (erase t conts)) =
        Perm.map (λ (e : ℕ × Continuation). (e.0, (e.1).call)) (find-perm t cont conts found) in
      let first : Nodup (t ∷ keys others) =
        (Nodup-append.0
          (Nodup-cons.0 (
            distinct_perm (Perm.append_right _ (Perm.map (λ (x : ℕ × CallMessage). x.0) balanced))
              distinct)).1).0 in
      same_value CallMessage-set first (Perm.trans (Perm.symm out) balanced)

  its_continuation :
      (t : ℕ) (c : CallMessage) (others : List (ℕ × CallMessage))
      → Perm (registered_calls s.piper.continuations) ((t, c) ∷ others)
      → Nodup (
          0
          ∷ (keys (registered_calls s.piper.continuations)
              ++ keys (s.piper.self).pipe_continuations))
      → Mem t (keys s.piper.continuations)
      → (cont : Continuation) × (find t s.piper.continuations ≡ some cont) × (cont.call ≡ c)
  its_continuation t c others balanced distinct member =
      elim (Option-cases (find t s.piper.continuations)) [
        | inl gone ↦ absurd (find_missing t s.piper.continuations gone member)
        | inr (cont, found) ↦ (cont, found, its_call t c others cont balanced distinct found)
      ]

  -- The tag of a call on its way is no pipe continuation's, and if the dispatcher thread stands
  -- between calls, it has a continuation, for that call.
  pub owed_continuation :
      (t : ℕ) (c : CallMessage) (others : List (ℕ × CallMessage))
      → s.thrown ≡ none
      → Perm (owed s) ((t, c) ∷ others)
      → (find t (s.piper.self).pipe_continuations ≡ none)
        × (cont : Continuation) × (find t s.piper.continuations ≡ some cont)
        × (cont.call ≡ c)
  owed_continuation t c others idle p =
      let conts = s.piper.continuations in
      let tagged = keys (s.piper.self).pipe_continuations in
      let now : promised s ≡ registered_calls conts =
        ap (λ x. registered_calls conts ++ entry x) idle ∙ append-nil (registered_calls conts) in
      let balanced : Perm (registered_calls conts) ((t, c) ∷ others) =
        subst (λ x. Perm x ((t, c) ∷ others)) now (Perm.trans (Perm.symm v.balanced) p) in
      let names : keys (registered_calls conts) ≡ keys conts =
        map-map (λ (x : ℕ × CallMessage). x.0) (λ (e : ℕ × Continuation). (e.0, (e.1).call))
          conts in
      let calls_keys : Perm (keys (registered_calls conts)) (t ∷ keys others) =
        Perm.map (λ (x : ℕ × CallMessage). x.0) balanced in
      let distinct : Nodup (0 ∷ (keys (registered_calls conts) ++ tagged)) =
        subst (λ x. Nodup (0 ∷ (keys x ++ tagged))) now v.distinct in
      let alone : ¬ Mem t (keys others ++ tagged) =
        distinct_absent (Perm.append_right tagged calls_keys) distinct in
      let member : Mem t (keys conts) =
        subst (Mem t) names ((Perm.mem_iff calls_keys).1 mem-cons_self) in
      let mine = its_continuation t c others balanced distinct member in
      (
        find_absent t (s.piper.self).pipe_continuations
            (λ m. alone (mem-append_right (keys others) m)),
        mine.0,
        mine.1,
        mine.2,
      )

module _ (s : System) (v : Balance s) (idle : s.thrown ≡ none) (chunks : List ℕ) where
  -- A chunk with a tag: the oldest response goes out as the answer to its call.
  pub response_out :
      (t : ℕ) (c : CallMessage) (res : Message) (waiting : List (CallMessage × Message))
      (cont : Continuation)
      → t ≢ 0
      → (s.piper.self).response_queue ≡ (c, res) ∷ waiting
      → find t (s.piper.self).pipe_continuations ≡ none
      → find t s.piper.continuations ≡ some cont
      → cont.return_ ≡ new_return c
      → dispatcher_pipe_handler t
          (record (s.piper) { self = record (s.piper.self) { response_n_signal_pipe = chunks } })
        ≡ some (delivered s chunks t c res waiting).piper
  unfolding dispatcher_pipe_handler Object.return_now
  response_out t c res waiting cont h queue apart found built =
      let tag : (t == 0) ≡ false = ground arith in
      let is : copy_data res cont.return_ ≡ answer c res =
        ap (copy_data res) built ∙ copy_data-new_return c res in
      rw (
        tag, queue, dispatcher_pipe_handler, apart, return_now, take_continuation, found,
        Object.return_now, is,
      )

  pub delivered-Balance :
      (t : ℕ) (c : CallMessage) (res : Message) (waiting : List (CallMessage × Message))
      (cont : Continuation)
      → (s.piper.self).response_n_signal_pipe ≡ suc t ∷ chunks
      → (s.piper.self).response_queue ≡ (c, res) ∷ waiting
      → find (suc t) s.piper.continuations ≡ some cont
      → cont.call ≡ c
      → Balance (delivered s chunks (suc t) c res waiting)
  unfolding reply_serial
  delivered-Balance t c res waiting cont pipe queue found call =
      let conts = s.piper.continuations in
      let left = erase (suc t) conts in
      let calls = registered_calls left in
      let tagged = keys (s.piper.self).pipe_continuations in
      let out_there = reply_serials s.piper.sent in
      let r = requests (s.piper.self).request_queue in
      let w = entry s.serving in
      let k = kept (s.piper.self).pipe_continuations in
      let l = leaving s.returning in
      let rest = pair (tags chunks) waiting in
      let now : promised s ≡ registered_calls conts =
        ap (λ x. registered_calls conts ++ entry x) idle ∙ append-nil (registered_calls conts) in
      let then_ : calls ++ entry s.thrown ≡ calls =
        ap (λ x. calls ++ entry x) idle ∙ append-nil calls in
      let out : Perm (registered_calls conts) ((suc t, c) ∷ calls) =
        subst (λ d. Perm (registered_calls conts) ((suc t, d) ∷ calls)) call
          (Perm.map (λ (e : ℕ × Continuation). (e.0, (e.1).call))
            (find-perm (suc t) cont conts found)) in
      let before : owed s ≡ r ++ (w ++ (k ++ (l ++ ((suc t, c) ∷ rest)))) =
        ap₂ (λ x y. r ++ (w ++ (k ++ (l ++ pair (tags x) y)))) pipe queue in
      let was : Perm (r ++ (w ++ (k ++ (l ++ ((suc t, c) ∷ rest)))))
          ((suc t, c) ∷ (r ++ (w ++ (k ++ (l ++ rest))))) =
        perm-append_right r (
          perm-append_right w
            (perm-append_right k (perm-append_right l (Perm.refl ((suc t, c) ∷ rest))))) in
      let owes : Perm (r ++ (w ++ (k ++ (l ++ ((suc t, c) ∷ rest))))) (registered_calls conts) =
        subst (λ x. Perm x (registered_calls conts)) before
          (subst (λ x. Perm (owed s) x) now v.balanced) in
      let names : Perm (keys (registered_calls conts) ++ tagged) (suc t ∷ (keys calls ++ tagged)) =
        Perm.append_right tagged (Perm.map (λ (e : ℕ × CallMessage). e.0) out) in
      let numbers : Perm (serials (registered_calls conts) ++ out_there)
          (c.serial ∷ (serials calls ++ out_there)) =
        Perm.append_right out_there (Perm.map (λ (e : ℕ × CallMessage). (e.1).serial) out) in
      record {
        balanced = rw then_ (perm_remove was out owes);
        distinct =
            rw then_
              (distinct_remove names (subst (λ x. Nodup (0 ∷ (keys x ++ tagged))) now v.distinct));
        matched = omega (arith, v.matched, ap (λ x. length (tags x)) pipe, ap length queue);
        marked = ap marks (sym pipe) ∙ v.marked;
        wakeups = v.wakeups;
        answered =
            rw (then_, reply_serials-append s.piper.sent (reply (answer c res) ∷ []))
              (Perm.trans
                (subst
                  (λ x.
                    Perm (map (λ (d : CallMessage). d.serial) s.accepted) (serials x ++ out_there))
                  now v.answered)
                (perm_move
                  (perm-append_right (serials calls) (perm_append_singleton c.serial out_there))
                  numbers));
        built = Built-erase (suc t) conts v.built;
      }

-- The state that a null pointer on the pipe leads to: the oldest signal goes out.
abbrev pub signalled : System → List ℕ → SignalMessage → List SignalMessage → System
signalled s chunks sig waiting = record s {
  piper = record (s.piper) {
    self = record (s.piper.self) { response_n_signal_pipe = chunks; signal_queue = waiting };
    sent = s.piper.sent ++ signal (record sig { path = some s.piper.path }) ∷ [];
  };
}

module _ (s : System) (v : Balance s) (chunks : List ℕ) (sig : SignalMessage)
    (waiting : List SignalMessage) where
  pub signal_out :
      (s.piper.self).signal_queue ≡ sig ∷ waiting
      → dispatcher_pipe_handler 0
          (record (s.piper) { self = record (s.piper.self) { response_n_signal_pipe = chunks } })
        ≡ some (signalled s chunks sig waiting).piper
  unfolding dispatcher_pipe_handler emit_signal
  signal_out queue = rw (queue, dispatcher_pipe_handler)

  pub signalled-Balance :
      (s.piper.self).response_n_signal_pipe ≡ 0 ∷ chunks
      → (s.piper.self).signal_queue ≡ sig ∷ waiting
      → Balance (signalled s chunks sig waiting)
  signalled-Balance pipe queue =
      let r = requests (s.piper.self).request_queue in
      let w = entry s.serving in
      let k = kept (s.piper.self).pipe_continuations in
      let l = leaving s.returning in
      let before : owed s
          ≡ r ++ (w ++ (k ++ (l ++ pair (tags chunks) (s.piper.self).response_queue))) =
        ap (λ x. r ++ (w ++ (k ++ (l ++ pair (tags x) (s.piper.self).response_queue)))) pipe in
      record {
        balanced = subst (λ x. Perm x (promised s)) before v.balanced;
        distinct = v.distinct;
        matched = ap (λ x. length (tags x)) (sym pipe) ∙ v.matched;
        marked = omega (arith, v.marked, ap marks pipe, ap length queue);
        wakeups = v.wakeups;
        answered =
            rw
              (
                reply_serials-append s.piper.sent
                    (signal (record sig { path = some s.piper.path }) ∷ []),
                append-nil,
              )
              v.answered;
        built = v.built;
      }
