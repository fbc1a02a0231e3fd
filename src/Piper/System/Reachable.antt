-- ===== src/Piper/System/Reachable.antt =====
-- Every interleaving of the threads of a RequestPiper (src/request-piper.cpp) keeps the account.
use mathlib.Core.List.{Perm, Nodup-cons, Nodup-nil, not-mem-nil}
use mathlib.Core.List.Perm
use dbus_cplusplus.Common.{
  ℕ, ◌≡◌, refl, sym, ap, subst, ◌∙◌, String, List, [], ◌∷◌, ◌++◌, map, Option, none, some, arith,
  Option-cases, inl, inr,
}
use dbus_cplusplus.Common.Dict.{find, erase}
use dbus_cplusplus.Message.{CallMessage, new_error}
use dbus_cplusplus.Interface.{Outcome, returns, throws, later}
use dbus_cplusplus.Piper.{
  Queues, Piper, MethodTable, pop_request, finish_request, take_continuation,
}
use dbus_cplusplus.Piper.System.{
  System, init, with_queues, IsFresh, Step, forwards, catches, wakes, pops, gives_up, serves, takes,
  returns_late, emits, delivers, Reach, here, next, reply_serials, entry, promised,
}
use dbus_cplusplus.Piper.System.Account.{
  Balance, owed, requests, serials, kept, leaving, pair, tags,
}
use dbus_cplusplus.Piper.System.Forward.{forwards-Balance, catches-Balance}
use dbus_cplusplus.Piper.System.Worker.{wakes-Balance, pops-Balance, gives_up-never}
use dbus_cplusplus.Piper.System.Respond.{responds-Balance, returns_late-Balance, emits-Balance}
use dbus_cplusplus.Piper.System.Keep.{keeps-Balance, takes-Balance}
use dbus_cplusplus.Piper.System.Safety.{Handled, answers, signals, delivery_total}

some_inj {ℓ} : {A : Type ℓ} (a b : A) → some a ≡ some b → a ≡ b
some_inj a b e = cc

module _ (s : System) (v : Balance s) where
  serves-Balance :
      (c : CallMessage) (t : ℕ) (outcome : Outcome)
      → s.serving ≡ some (c, t)
      → ((new : ℕ) → outcome ≡ later new → IsFresh new s)
      → Balance
          (record (with_queues s (finish_request (c, t) outcome s.piper.self)) { serving = none })
  unfolding finish_request
  serves-Balance c t (returns res) e fresh = responds-Balance s v t c res e
  serves-Balance c t (throws name message) e fresh =
      responds-Balance s v t c (new_error c name message) e
  serves-Balance c t (later new) e fresh = keeps-Balance s v t new c e (fresh new refl)

  pop_request-ok :
      (queue : List (CallMessage × ℕ)) (r : CallMessage × ℕ) (q : Queues)
      → (s.piper.self).request_queue ≡ queue
      → pop_request s.piper.self ≡ some (r, q)
      → (rest : List (CallMessage × ℕ)) × ((s.piper.self).request_queue ≡ r ∷ rest)
        × (q ≡ record (s.piper.self) { request_queue = rest })
  unfolding pop_request
  pop_request-ok [] r q there e = absurd (ground arith)
  pop_request-ok (x ∷ rest) r q there e = (rest, ground arith, ground arith)

  pop_request-none :
      (queue : List (CallMessage × ℕ))
      → (s.piper.self).request_queue ≡ queue
      → pop_request s.piper.self ≡ none
      → (s.piper.self).request_queue ≡ []
  unfolding pop_request
  pop_request-none [] there e = there
  pop_request-none (x ∷ rest) there e = absurd (ground arith)

  take_continuation-ok :
      (t : ℕ) (c : CallMessage) (orig : ℕ) (q : Queues)
      → take_continuation t s.piper.self ≡ some ((c, orig), q)
      → (find t (s.piper.self).pipe_continuations ≡ some (c, orig))
        × (q ≡ record (s.piper.self) {
          pipe_continuations = erase t (s.piper.self).pipe_continuations;
        })
  unfolding take_continuation
  take_continuation-ok t c orig q e =
      elim (Option-cases (find t (s.piper.self).pipe_continuations)) [
        | inl gone ↦ absurd (ground (arith, gone))
        | inr (x, found) ↦ (ground (arith, found), ground (arith, found))
      ]

  delivers-Balance :
      (t : ℕ) (chunks : List ℕ) (p : Piper) (r : Option Piper)
      → r ≡ some p
      → Handled s chunks t r
      → Balance (record s { piper = p })
  delivers-Balance t chunks p r e (answers c res waiting h queue is b) =
      rw (some_inj p _ (sym e ∙ is)) b
  delivers-Balance t chunks p r e (signals sig waiting h queue is b) =
      rw (some_inj p _ (sym e ∙ is)) b

  Step-Balance : (table : MethodTable) (s' : System) → Step table s s' → Balance s'
  Step-Balance table s' (forwards c t idle fresh is) = rw is (forwards-Balance s v c t idle fresh)
  Step-Balance table s' (catches c t e is) = rw is (catches-Balance s v c t e)
  Step-Balance table s' (wakes n asleep free e is) = rw is (wakes-Balance s v n asleep e)
  Step-Balance table s' (pops r q awake free e is) =
      let (rest, there, isq) = pop_request-ok _ r q refl e in
      rw (is, isq) (pops-Balance s v r rest awake free there)
  Step-Balance table s' (gives_up awake e is) =
      absurd (gives_up-never s v awake (pop_request-none _ refl e))
  Step-Balance table s' (serves r outcome e runs fresh is) =
      rw is (serves-Balance r.0 r.1 outcome e fresh)
  Step-Balance table s' (takes t c orig ret q e is) =
      let (found, isq) = take_continuation-ok t c orig q e in
      rw (is, isq) (takes-Balance s v t orig c ret found)
  Step-Balance table s' (returns_late c orig ret xs ys e is) =
      rw is (returns_late-Balance s v orig c ret xs ys e)
  Step-Balance table s' (emits sig is) = rw is (emits-Balance s v sig)
  Step-Balance table s' (delivers t rest p idle pipe e is) =
      rw is (delivers-Balance t rest p _ e (delivery_total s t rest v idle pipe))

init-Balance : (path : String) → Balance (init path)
unfolding init
init-Balance path = record {
  balanced = Perm.refl [];
  distinct = Nodup-cons.1 (not-mem-nil, Nodup-nil);
  matched = refl;
  marked = refl;
  wakeups = refl;
  answered = Perm.refl [];
  built = tt;
}

-- However the dispatcher thread, the worker and the threads that return calls late or emit signals
-- interleave, from a new object on: the calls on their way are those with a continuation, registered
-- or about to be; no tag is null or used twice; responses, signals and requests go with what
-- announces them; and each accepted call is answered once or still promised an answer.
pub Reach-Balance :
    (table : MethodTable) (path : String) (s : System) → Reach table (init path) s → Balance s
Reach-Balance table path s r = go r
  where
    go : {s : System} → Reach table (init path) s → Balance s
    go here = init-Balance path
    go (next {t = t} {u = u} r st) = Step-Balance t (go r) table u st

-- At rest: no request and no response waits, and no thread or continuation of the worker holds a
-- call.
pub record IsAtRest (s : System) : Type 0 where
  pub serving : s.serving ≡ none
  pub returning : s.returning ≡ []
  pub request_queue : (s.piper.self).request_queue ≡ []
  pub response_queue : (s.piper.self).response_queue ≡ []
  pub pipe_continuations : (s.piper.self).pipe_continuations ≡ []

pair_nil : (ts : List ℕ) → pair ts [] ≡ []
pair_nil [] = refl
pair_nil (t ∷ ts) = refl

at_rest-owed : (s : System) → IsAtRest s → owed s ≡ []
at_rest-owed s q =
    let rest = pair (tags (s.piper.self).response_n_signal_pipe) (s.piper.self).response_queue in
    ap
      (λ x.
        requests x
        ++ (entry s.serving
            ++ (kept (s.piper.self).pipe_continuations ++ (leaving s.returning ++ rest))))
      q.request_queue
    ∙ ap (λ x. entry x ++ (kept (s.piper.self).pipe_continuations ++ (leaving s.returning ++ rest)))
        q.serving
    ∙ ap (λ x. kept x ++ (leaving s.returning ++ rest)) q.pipe_continuations
    ∙ ap (λ x. leaving x ++ rest) q.returning
    ∙ ap (pair (tags (s.piper.self).response_n_signal_pipe)) q.response_queue
    ∙ pair_nil (tags (s.piper.self).response_n_signal_pipe)

-- When a new object, after any run of the threads, comes to rest with no call kept for later, each
-- call that was forwarded has been answered exactly once, and nothing else has been answered.
pub at_rest-answered :
    (table : MethodTable) (path : String) (s : System)
    → Reach table (init path) s
    → IsAtRest s
    → Perm (map (λ (c : CallMessage). c.serial) s.accepted) (reply_serials s.piper.sent)
at_rest-answered table path s r q =
    let v = Reach-Balance table path s r in
    let nothing : owed s ≡ [] = at_rest-owed s q in
    let settled : promised s ≡ [] =
      Perm.eq-nil (subst (λ x. Perm (promised s) x) nothing (Perm.symm v.balanced)) in
    subst
      (λ x.
        Perm (map (λ (c : CallMessage). c.serial) s.accepted)
          (serials x ++ reply_serials s.piper.sent))
      settled v.answered
