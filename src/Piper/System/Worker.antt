-- ===== src/Piper/System/Worker.antt =====
-- The worker thread (RequestPiper::check_pipe_request and process_pipe_request,
-- src/request-piper.cpp): the account balances after each of its steps.
use mathlib.Core.List.{Perm}
use mathlib.Core.List.Perm
use dbus_cplusplus.Common.{
  ℕ, suc, ◌≡◌, ap, subst, ◌∙◌, true, false, List, [], ◌∷◌, ◌++◌, none, some, length, arith,
}
use dbus_cplusplus.Common.Perms.{perm-append_right}
use dbus_cplusplus.Message.{CallMessage}
use dbus_cplusplus.Piper.System.{System, promised, entry, with_queues}
use dbus_cplusplus.Piper.System.Account.{Balance, owed, requests, kept, leaving, pair, tags, bit}

module _ (s : System) (v : Balance s) where
  abbrev pub woken_up : ℕ → System
  woken_up n = record (with_queues s (record (s.piper.self) { request_pipe = n })) { woken = true }

  pub wakes-Balance :
      (n : ℕ) → s.woken ≡ false → (s.piper.self).request_pipe ≡ suc n → Balance (woken_up n)
  wakes-Balance n asleep e =
      let asleep' : bit s.woken ≡ 0 = ap bit asleep in
      record {
        balanced = v.balanced;
        distinct = v.distinct;
        matched = v.matched;
        marked = v.marked;
        wakeups = omega (arith, v.wakeups, e, asleep');
        answered = v.answered;
        built = v.built;
      }

  abbrev pub popped : CallMessage × ℕ → List (CallMessage × ℕ) → System
  popped r rest = record (with_queues s (record (s.piper.self) { request_queue = rest })) {
    woken = false;
    serving = some r;
  }

  pub pops-Balance :
      (r : CallMessage × ℕ) (rest : List (CallMessage × ℕ))
      → s.woken ≡ true
      → s.serving ≡ none
      → (s.piper.self).request_queue ≡ r ∷ rest
      → Balance (popped r rest)
  pops-Balance r rest awake free e =
      let others =
        kept (s.piper.self).pipe_continuations
        ++ (leaving s.returning
            ++ pair (tags (s.piper.self).response_n_signal_pipe) (s.piper.self).response_queue) in
      let awake' : bit s.woken ≡ 1 = ap bit awake in
      let one_less : length (s.piper.self).request_queue ≡ suc (length rest) = ap length e in
      let before : owed s ≡ (r.1, r.0) ∷ (requests rest ++ others) =
        ap (λ x. requests x ++ (entry s.serving ++ others)) e
        ∙ ap (λ x. (r.1, r.0) ∷ (requests rest ++ (entry x ++ others))) free in
      record {
        balanced =
            Perm.trans (perm-append_right (requests rest) (Perm.refl ((r.1, r.0) ∷ others)))
              (subst (λ x. Perm x (promised s)) before v.balanced);
        distinct = v.distinct;
        matched = v.matched;
        marked = v.marked;
        wakeups = omega (arith, v.wakeups, one_less, awake');
        answered = v.answered;
        built = v.built;
      }

  pub gives_up-never : s.woken ≡ true → (s.piper.self).request_queue ≡ [] → ⊥
  gives_up-never awake e =
      let awake' : bit s.woken ≡ 1 = ap bit awake in
      let empty : length (s.piper.self).request_queue ≡ 0 = ap length e in
      omega (arith, v.wakeups, empty, awake')
