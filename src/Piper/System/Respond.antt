-- ===== src/Piper/System/Respond.antt =====
-- A response is queued for the dispatcher thread, or kept for later (RequestPiper::do_dispatch,
-- process_pipe_request and return_now, src/request-piper.cpp): the account balances.
use mathlib.Core.List.{
  Perm, map-append, perm_append_singleton, perm_middle, Nodup-cons, mem-cons_self,
}
use mathlib.Core.List.Perm
use dbus_cplusplus.Common.{
  ℕ, ◌≡◌, ◌≢◌, refl, sym, ap, ap₂, subst, ◌∙◌, List, [], ◌∷◌, ◌++◌, Option, none, some, length,
  length-append, append_assoc, arith,
}
use dbus_cplusplus.Common.Perms.{keys, perm-append_right}
use dbus_cplusplus.Message.{CallMessage, Message, SignalMessage}
use dbus_cplusplus.Piper.{do_dispatch, queue_signal}
use dbus_cplusplus.Piper.System.{System, live_tags, entry, with_queues}
use dbus_cplusplus.Piper.System.Account.{Balance, owed, requests, kept, leaving, pair, tags}
use dbus_cplusplus.Piper.System.Account.Parts.{
  tags-append_tag, tags-append_mark, marks-append_mark, marks-append_tag, pair-append,
}

module _ (s : System) (v : Balance s) where
  -- A call on its way has a tag that is not null.
  pub owed_nonzero :
      (t : ℕ) (c : CallMessage) (others : List (ℕ × CallMessage))
      → Perm (owed s) ((t, c) ∷ others)
      → t ≢ 0
  owed_nonzero t c others p z =
      let there : Perm (live_tags s) (t ∷ (keys others ++ keys (s.piper.self).pipe_continuations)) =
        Perm.append_right (keys (s.piper.self).pipe_continuations)
          (Perm.map (λ (e : ℕ × CallMessage). e.0) (Perm.trans (Perm.symm v.balanced) p)) in
      (Nodup-cons.0 v.distinct).0 ((Perm.mem_iff there).1 (rw (sym z) mem-cons_self))

  -- What do_dispatch does to the responses that wait.
  responses :
      (t : ℕ) (c : CallMessage) (m : Message)
      → t ≢ 0
      → pair
          (tags ((s.piper.self).response_n_signal_pipe ++ t ∷ []))
          ((s.piper.self).response_queue ++ (c, m) ∷ [])
        ≡ pair (tags (s.piper.self).response_n_signal_pipe) (s.piper.self).response_queue
          ++ (t, c) ∷ []
  responses t c m h =
      ap (λ x. pair x ((s.piper.self).response_queue ++ (c, m) ∷ []))
        (tags-append_tag (s.piper.self).response_n_signal_pipe t h)
      ∙ pair-append (tags (s.piper.self).response_n_signal_pipe) (s.piper.self).response_queue t c m
          v.matched

  -- A thread takes an entry out of where it stood, and queues its response.
  queued :
      (t : ℕ) (c : CallMessage) (m : Message) (serving : Option (CallMessage × ℕ))
      (returning : List (CallMessage × ℕ × Message)) (before after : List (ℕ × CallMessage))
      → let waiting =
          pair (tags (s.piper.self).response_n_signal_pipe) (s.piper.self).response_queue in
        Perm (owed s) ((t, c) ∷ (before ++ (after ++ waiting)))
        → requests (s.piper.self).request_queue
            ++ (entry serving ++ kept (s.piper.self).pipe_continuations)
          ≡ before
        → leaving returning ≡ after
        → Balance (record (with_queues s (do_dispatch c m t s.piper.self)) {
          serving = serving;
          returning = returning;
        })
  unfolding do_dispatch
  queued t c m serving returning before after p eb ea =
      let q = s.piper.self in
      let h = owed_nonzero t c _ p in
      let waiting = pair (tags q.response_n_signal_pipe) q.response_queue in
      let r = requests q.request_queue in
      let k = kept q.pipe_continuations in
      let now : Perm
          (r ++ (entry serving ++ (k ++ (leaving returning ++ (waiting ++ (t, c) ∷ [])))))
          ((t, c) ∷ (r ++ (entry serving ++ (k ++ (leaving returning ++ waiting))))) =
        perm-append_right r (
          perm-append_right (entry serving) (
            perm-append_right k
              (perm-append_right (leaving returning) (perm_append_singleton (t, c) waiting)))) in
      let same : r ++ (entry serving ++ (k ++ (leaving returning ++ waiting)))
          ≡ before ++ (after ++ waiting) =
        ap (λ x. r ++ x) (sym (append_assoc (entry serving) k (leaving returning ++ waiting)))
        ∙ sym (append_assoc r (entry serving ++ k) (leaving returning ++ waiting))
        ∙ ap₂ (λ x y. x ++ (y ++ waiting)) eb ea in
      let tagged = tags-append_tag q.response_n_signal_pipe t h in
      record {
        balanced =
            rw (responses t c m h) (Perm.trans (Perm.trans now (rw same (Perm.symm p))) v.balanced);
        distinct = v.distinct;
        matched = omega (
          arith,
          ap length tagged,
          length-append (tags q.response_n_signal_pipe) (t ∷ []),
          length-append q.response_queue ((c, m) ∷ []),
          v.matched,
        );
        marked = marks-append_tag q.response_n_signal_pipe t h ∙ v.marked;
        wakeups = v.wakeups;
        answered = v.answered;
        built = v.built;
      }

  -- The worker's method has returned or thrown.
  pub responds-Balance :
      (t : ℕ) (c : CallMessage) (m : Message)
      → s.serving ≡ some (c, t)
      → Balance (record (with_queues s (do_dispatch c m t s.piper.self)) { serving = none })
  responds-Balance t c m e =
      let r = requests (s.piper.self).request_queue in
      let k = kept (s.piper.self).pipe_continuations in
      let rest =
        leaving s.returning
        ++ pair (tags (s.piper.self).response_n_signal_pipe) (s.piper.self).response_queue in
      let before : owed s ≡ r ++ ((t, c) ∷ (k ++ rest)) =
        ap (λ x. r ++ (entry x ++ (k ++ rest))) e in
      queued t c m none s.returning (r ++ k) (leaving s.returning)
        (rw (append_assoc r k rest) (rw before (perm-append_right r (Perm.refl _)))) refl refl

  -- A thread that had taken a kept call queues its response.
  pub returns_late-Balance :
      (t : ℕ) (c : CallMessage) (m : Message) (xs ys : List (CallMessage × ℕ × Message))
      → s.returning ≡ xs ++ (c, t, m) ∷ ys
      → Balance (record (with_queues s (do_dispatch c m t s.piper.self)) { returning = xs ++ ys })
  returns_late-Balance t c m xs ys e =
      let r = requests (s.piper.self).request_queue in
      let w = entry s.serving in
      let k = kept (s.piper.self).pipe_continuations in
      let waiting =
        pair (tags (s.piper.self).response_n_signal_pipe) (s.piper.self).response_queue in
      let others = (leaving xs ++ leaving ys) ++ waiting in
      let out : leaving s.returning ≡ leaving xs ++ (t, c) ∷ leaving ys =
        ap leaving e
        ∙ map-append {B = ℕ × CallMessage} (λ (x : CallMessage × ℕ × Message). (x.1, x.0)) xs
            ((c, t, m) ∷ ys) in
      let grouped : (r ++ (w ++ k)) ++ others ≡ r ++ (w ++ (k ++ others)) =
        append_assoc r (w ++ k) others ∙ ap (λ x. r ++ x) (append_assoc w k others) in
      let moved : Perm (r ++ (w ++ (k ++ ((leaving xs ++ (t, c) ∷ leaving ys) ++ waiting))))
          ((t, c) ∷ (r ++ (w ++ (k ++ others)))) =
        perm-append_right r (
          perm-append_right w (
            perm-append_right k
              (Perm.append_right waiting (perm_middle (leaving xs) (leaving ys))))) in
      queued t c m s.serving (xs ++ ys) (r ++ (w ++ k)) (leaving xs ++ leaving ys)
        (rw grouped (
          subst
            (λ x. Perm (r ++ (w ++ (k ++ (x ++ waiting)))) ((t, c) ∷ (r ++ (w ++ (k ++ others)))))
            (sym out) moved))
        refl
        (map-append {B = ℕ × CallMessage} (λ (x : CallMessage × ℕ × Message). (x.1, x.0)) xs ys)

  -- A signal is queued.
  pub emits-Balance :
      (sig : SignalMessage) → Balance (with_queues s (queue_signal sig s.piper.self))
  unfolding queue_signal
  emits-Balance sig =
      let q = s.piper.self in
      record {
        balanced = rw (tags-append_mark q.response_n_signal_pipe) v.balanced;
        distinct = v.distinct;
        matched = rw (tags-append_mark q.response_n_signal_pipe) v.matched;
        marked = omega (
          arith,
          marks-append_mark q.response_n_signal_pipe,
          length-append q.signal_queue (sig ∷ []),
          v.marked,
        );
        wakeups = v.wakeups;
        answered = v.answered;
        built = v.built;
      }
