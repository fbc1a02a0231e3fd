-- ===== src/Piper/System.antt =====
-- The threads of a RequestPiper (src/request-piper.cpp): the dispatcher thread, one worker thread,
-- and any thread that returns a call later or emits a signal. A step is what a thread does under
-- one mutex, so the threads may interleave at every point where the code lets them.
pub mod Account
pub mod Forward
pub mod Worker
pub mod Respond
pub mod Keep
pub mod Deliver
pub mod Reachable
pub mod Safety
use mathlib.Core.List.{Mem}
use dbus_cplusplus.Common.{
  ℕ, zero, suc, ◌+◌, ◌≡◌, ◌≢◌, Bool, true, false, String, List, [], ◌∷◌, ◌++◌, map, Option, none,
  some,
}
use dbus_cplusplus.Common.Perms.{keys}
use dbus_cplusplus.Message.{CallMessage, Message, SignalMessage, reply_serial}
use dbus_cplusplus.Interface.{Outcome, later}
use dbus_cplusplus.Object.{ObjectAdaptor, Continuation, Outgoing, reply, signal, conclude}
use dbus_cplusplus.Piper.{
  Queues, Piper, MethodTable, forwarding_stub, call_orig_method, pop_request, finish_request,
  do_dispatch, take_continuation, queue_signal, dispatcher_pipe_handler,
}

-- The object, and where each thread stands. `thrown`: the dispatcher thread is between the throw in
-- the stub and its catch in handle_message. `woken`: the worker has read a byte. `serving`: it has
-- popped a request. `returning`: replies of threads that have taken a pipe continuation. `accepted`
-- is the history of the calls that were forwarded.
pub record System : Type 0 where
  pub piper : Piper
  pub thrown : Option (CallMessage × ℕ)
  pub woken : Bool
  pub serving : Option (CallMessage × ℕ)
  pub returning : List (CallMessage × ℕ × Message)
  pub accepted : List CallMessage

-- A new object: no call has reached it.
unfoldable pub init : String → System
init path = record {
  piper = record {
    path = path;
    interfaces = [];
    self = record {
      new_tag = 0;
      request_queue = [];
      request_pipe = 0;
      response_queue = [];
      response_n_signal_pipe = [];
      signal_queue = [];
      pipe_continuations = [];
    };
    continuations = [];
    sent = [];
    registered = [];
  };
  thrown = none;
  woken = false;
  serving = none;
  returning = [];
  accepted = [];
}

abbrev pub with_queues : System → Queues → System
with_queues s q = record s { piper = record (s.piper) { self = q } }

abbrev pub entry : Option (CallMessage × ℕ) → List (ℕ × CallMessage)
entry none = []
entry (some (c, t)) = (t, c) ∷ []

abbrev pub registered_calls : List (ℕ × Continuation) → List (ℕ × CallMessage)
registered_calls = map (λ e. (e.0, (e.1).call))

-- The tags under which an answer is due, with their calls: registered, or about to be.
abbrev pub promised : System → List (ℕ × CallMessage)
promised s = registered_calls s.piper.continuations ++ entry s.thrown

-- Every tag object in use: those of the stub and those of the worker's methods.
abbrev pub live_tags : System → List ℕ
live_tags s = keys (promised s) ++ keys (s.piper.self).pipe_continuations

-- An address that `new` may give: not null, and no live object's.
abbrev pub IsFresh : ℕ → System → Type 0
IsFresh t s = (t ≢ 0) × (¬ Mem t (live_tags s))

-- A reply or an error that went out, and to which call.
abbrev pub reply_serials : List Outgoing → List ℕ
reply_serials [] = []
reply_serials (reply m ∷ out) = reply_serial m ∷ reply_serials out
reply_serials (signal m ∷ out) = reply_serials out

module _ (table : MethodTable) where
  pub data Step (s s' : System) : Type 0 where
    -- The dispatcher thread calls the stub for a forwarded method.
    forwards :
        (c : CallMessage) (t : ℕ)
        → s.thrown ≡ none
        → IsFresh t s
        → s'
          ≡ record (with_queues s (forwarding_stub c (record (s.piper.self) { new_tag = t })).0) {
            thrown = some (c, t);
            accepted = s.accepted ++ c ∷ [];
          }
        → Step s s'
    -- It catches ReturnLaterError in handle_message.
    catches :
        (c : CallMessage) (t : ℕ)
        → s.thrown ≡ some (c, t)
        → s' ≡ record s { piper = conclude c (later t) s.piper; thrown = none }
        → Step s s'
    -- The worker reads a byte of the request pipe.
    wakes :
        (n : ℕ)
        → s.woken ≡ false
        → s.serving ≡ none
        → (s.piper.self).request_pipe ≡ suc n
        → s' ≡ record (with_queues s (record (s.piper.self) { request_pipe = n })) { woken = true }
        → Step s s'
    -- It pops a request, or finds the queue empty.
    pops :
        (r : CallMessage × ℕ) (q : Queues)
        → s.woken ≡ true
        → s.serving ≡ none
        → pop_request s.piper.self ≡ some (r, q)
        → s' ≡ record (with_queues s q) { woken = false; serving = some r }
        → Step s s'
    gives_up :
        s.woken ≡ true
        → pop_request s.piper.self ≡ none
        → s' ≡ record s { woken = false }
        → Step s s'
    -- It runs the method and queues the response, or keeps the call for later under a new tag.
    serves :
        (r : CallMessage × ℕ) (outcome : Outcome)
        → s.serving ≡ some r
        → outcome ≡ call_orig_method table r.0
        → ((t : ℕ) → outcome ≡ later t → IsFresh t s)
        → s' ≡ record (with_queues s (finish_request r outcome s.piper.self)) { serving = none }
        → Step s s'
    -- A thread that returns a call which the worker kept: it takes the continuation,
    takes :
        (t : ℕ) (c : CallMessage) (orig : ℕ) (ret : Message) (q : Queues)
        → take_continuation t s.piper.self ≡ some ((c, orig), q)
        → s' ≡ record (with_queues s q) { returning = (c, orig, ret) ∷ s.returning }
        → Step s s'
    -- and queues the response.
    returns_late :
        (c : CallMessage) (orig : ℕ) (ret : Message) (xs ys : List (CallMessage × ℕ × Message))
        → s.returning ≡ xs ++ (c, orig, ret) ∷ ys
        → s' ≡ record (with_queues s (do_dispatch c ret orig s.piper.self)) { returning = xs ++ ys }
        → Step s s'
    -- A thread other than the dispatcher's emits a signal.
    emits : (sig : SignalMessage) → s' ≡ with_queues s (queue_signal sig s.piper.self) → Step s s'
    -- The dispatcher thread handles a chunk of the response pipe.
    delivers :
        (t : ℕ) (rest : List ℕ) (p : Piper)
        → s.thrown ≡ none
        → (s.piper.self).response_n_signal_pipe ≡ t ∷ rest
        → dispatcher_pipe_handler t
            (record (s.piper) { self = record (s.piper.self) { response_n_signal_pipe = rest } })
          ≡ some p
        → s' ≡ record s { piper = p }
        → Step s s'

  pub data Reach (s : System) : System → Type 0 where
    here : Reach s s
    next : {t u : System} → Reach s t → Step t u → Reach s u
