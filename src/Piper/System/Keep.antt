-- ===== src/Piper/System/Keep.antt =====
-- A call that the worker keeps for later, and the thread that takes it back (the handler of
-- ReturnLaterError in RequestPiper::process_pipe_request, and RequestPiper::return_now,
-- src/request-piper.cpp): the account balances.
use mathlib.Core.List.{Perm, map-append, perm_append_singleton, mem-append_right}
use mathlib.Core.List.Perm
use dbus_cplusplus.Common.{ℕ, ◌≡◌, ap, ◌∙◌, [], ◌∷◌, ◌++◌, none, some}
use dbus_cplusplus.Common.Dict.{find, insert, erase}
use dbus_cplusplus.Common.Perms.{
  keys, perm_move, perm-append_right, distinct_add, distinct_remove, insert_absent, find-perm,
}
use dbus_cplusplus.Message.{CallMessage, Message}
use dbus_cplusplus.Piper.System.{System, promised, entry, with_queues, IsFresh}
use dbus_cplusplus.Piper.System.Account.{Balance, owed, requests, kept, leaving, pair, tags}

module _ (s : System) (v : Balance s) where
  -- The method has thrown ReturnLaterError with a new tag.
  pub keeps-Balance :
      (t new : ℕ) (c : CallMessage)
      → s.serving ≡ some (c, t)
      → IsFresh new s
      → Balance
          (record (with_queues s (record (s.piper.self) {
            pipe_continuations = insert new (c, t) (s.piper.self).pipe_continuations;
          })) { serving = none })
  keeps-Balance t new c e fresh =
      let conts = (s.piper.self).pipe_continuations in
      let r = requests (s.piper.self).request_queue in
      let k = kept conts in
      let rest =
        leaving s.returning
        ++ pair (tags (s.piper.self).response_n_signal_pipe) (s.piper.self).response_queue in
      let there : insert new (c, t) conts ≡ conts ++ (new, (c, t)) ∷ [] =
        insert_absent new (c, t) conts (λ m. fresh.1 (mem-append_right (keys (promised s)) m)) in
      let grown : kept (insert new (c, t) conts) ≡ k ++ (t, c) ∷ [] =
        ap kept there
        ∙ map-append {B = ℕ × CallMessage} (λ (x : ℕ × (CallMessage × ℕ)). ((x.1).1, (x.1).0)) conts
            ((new, (c, t)) ∷ []) in
      let tagged : keys (insert new (c, t) conts) ≡ keys conts ++ new ∷ [] =
        ap keys there
        ∙ map-append (λ (x : ℕ × (CallMessage × ℕ)). x.0) conts ((new, (c, t)) ∷ []) in
      let before : owed s ≡ r ++ ((t, c) ∷ (k ++ rest)) =
        ap (λ x. r ++ (entry x ++ (k ++ rest))) e in
      record {
        balanced =
            Perm.trans
              (rw grown (
                perm_move (rw before (perm-append_right r (Perm.refl ((t, c) ∷ (k ++ rest)))))
                  (perm-append_right r (Perm.append_right rest (perm_append_singleton (t, c) k)))))
              v.balanced;
        distinct = rw tagged (
            distinct_add
              (perm-append_right (keys (promised s)) (perm_append_singleton new (keys conts)))
              fresh.0 fresh.1 v.distinct);
        matched = v.matched;
        marked = v.marked;
        wakeups = v.wakeups;
        answered = v.answered;
        built = v.built;
      }

  -- A thread takes the continuation of a kept call.
  pub takes-Balance :
      (t orig : ℕ) (c : CallMessage) (m : Message)
      → find t (s.piper.self).pipe_continuations ≡ some (c, orig)
      → Balance
          (record (with_queues s (record (s.piper.self) {
            pipe_continuations = erase t (s.piper.self).pipe_continuations;
          })) { returning = (c, orig, m) ∷ s.returning })
  takes-Balance t orig c m e =
      let conts = (s.piper.self).pipe_continuations in
      let r = requests (s.piper.self).request_queue in
      let w = entry s.serving in
      let l = leaving s.returning in
      let waiting =
        pair (tags (s.piper.self).response_n_signal_pipe) (s.piper.self).response_queue in
      let out : Perm conts ((t, (c, orig)) ∷ erase t conts) = find-perm t (c, orig) conts e in
      let out_kept : Perm (kept conts) ((orig, c) ∷ kept (erase t conts)) =
        Perm.map (λ (x : ℕ × (CallMessage × ℕ)). ((x.1).1, (x.1).0)) out in
      let was : Perm (owed s) ((orig, c) ∷ (r ++ (w ++ (kept (erase t conts) ++ (l ++ waiting))))) =
        perm-append_right r (perm-append_right w (Perm.append_right (l ++ waiting) out_kept)) in
      let is : Perm (r ++ (w ++ (kept (erase t conts) ++ (((orig, c) ∷ l) ++ waiting))))
          ((orig, c) ∷ (r ++ (w ++ (kept (erase t conts) ++ (l ++ waiting))))) =
        perm-append_right r (
          perm-append_right w
            (perm-append_right (kept (erase t conts)) (Perm.refl ((orig, c) ∷ (l ++ waiting))))) in
      record {
        balanced = Perm.trans (perm_move was is) v.balanced;
        distinct =
            distinct_remove
              (perm-append_right (keys (promised s))
                (Perm.map (λ (x : ℕ × (CallMessage × ℕ)). x.0) out))
              v.distinct;
        matched = v.matched;
        marked = v.marked;
        wakeups = v.wakeups;
        answered = v.answered;
        built = v.built;
      }
