-- ===== src/Piper.antt =====
-- src/request-piper.cpp and include/dbus-c++/request-piper.h: RequestPiper, an ObjectAdaptor whose
-- calls a worker thread serves. Here are the queues and the operations on them; each operation that
-- runs under one mutex is one function. A tag is an address, and 0 is the null pointer.
--
-- The response pipe is a queue of chunks, one pointer each: that src/pipe.cpp keeps messages whole
-- and in order is the business of module Pipe. A byte written to the request pipe arrives.
pub mod System
mod Examples
use dbus_cplusplus.Common.{
  ℕ, suc, ◌+◌, String, List, [], ◌∷◌, ◌++◌, Option, none, some, Bool, true, false, if◌then◌else◌,
  ◌==◌,
}
use dbus_cplusplus.Common.Dict
use dbus_cplusplus.Common.Names
use dbus_cplusplus.Message.{CallMessage, Message, SignalMessage, new_error}
use dbus_cplusplus.Interface.{Outcome, returns, throws, later, unknown_method}
use dbus_cplusplus.Object.{ObjectAdaptor, emit_signal}
use dbus_cplusplus.Object

-- The members of RequestPiper. `new_tag` is the address that `new Tag()` gives next, and
-- `request_pipe` counts the bytes in request_pipefd.
pub record Queues : Type 0 where
  pub new_tag : ℕ
  pub request_queue : List (CallMessage × ℕ)
  pub request_pipe : ℕ
  pub response_queue : List (CallMessage × Message)
  pub response_n_signal_pipe : List ℕ
  pub signal_queue : List SignalMessage
  pub pipe_continuations : List (ℕ × (CallMessage × ℕ))

-- RequestPiper::_Forwarding_stub: queue the call, wake the worker, and throw ReturnLaterError.
unfoldable pub forwarding_stub : CallMessage → Queues → Queues × Outcome
forwarding_stub c q = (
  record q {
    request_queue = q.request_queue ++ (c, q.new_tag) ∷ [];
    request_pipe = suc q.request_pipe;
  },
  later q.new_tag,
)

-- RequestPiper::do_dispatch
unfoldable pub do_dispatch : CallMessage → Message → ℕ → Queues → Queues
do_dispatch msg res tag q = record q {
  response_queue = q.response_queue ++ (msg, res) ∷ [];
  response_n_signal_pipe = q.response_n_signal_pipe ++ tag ∷ [];
}

-- The methods of the service before they were replaced by the stub: origMethodTable.
abbrev pub MethodTable : Type 0
MethodTable = List (String × (CallMessage → Outcome))

-- RequestPiper::_call_orig_method
unfoldable pub call_orig_method : MethodTable → CallMessage → Outcome
call_orig_method table msg = elim (Names.find msg.member table) [
  | some method ↦ method msg
  | none ↦ returns (new_error msg unknown_method msg.member)
]

-- The first half of RequestPiper::process_pipe_request, under request_mutex: `none` for an empty
-- queue.
unfoldable pub pop_request : Queues → Option ((CallMessage × ℕ) × Queues)
pop_request q = elim q.request_queue [
  | [] ↦ none
  | r ∷ rest ↦ some (r, record q { request_queue = rest })
]

-- The try block of RequestPiper::process_pipe_request, and its catch clauses.
unfoldable pub finish_request : CallMessage × ℕ → Outcome → Queues → Queues
unfolding do_dispatch
finish_request (msg, tag) (returns res) q = do_dispatch msg res tag q
finish_request (msg, tag) (throws name message) q =
    do_dispatch msg (new_error msg name message) tag q
finish_request (msg, tag) (later t) q = record q {
  pipe_continuations = Dict.insert t (msg, tag) q.pipe_continuations;
}

-- RequestPiper::process_pipe_request
pub process_pipe_request : MethodTable → Queues → Queues
unfolding call_orig_method pop_request finish_request
process_pipe_request table q = elim (pop_request q) [
  | none ↦ q
  | some (r, q') ↦ finish_request r (call_orig_method table r.0) q'
]

-- RequestPiper::_emit_signal on a thread other than the dispatcher's.
unfoldable pub queue_signal : SignalMessage → Queues → Queues
queue_signal sig q = record q {
  signal_queue = q.signal_queue ++ sig ∷ [];
  response_n_signal_pipe = q.response_n_signal_pipe ++ 0 ∷ [];
}

abbrev pub Piper : Type 0
Piper = ObjectAdaptor Queues

-- The part of RequestPiper::return_now under _pipe_continuations_mutex: find and erase.
unfoldable pub take_continuation : ℕ → Queues → Option ((CallMessage × ℕ) × Queues)
take_continuation tag q = elim (Dict.find tag q.pipe_continuations) [
  | none ↦ none
  | some c ↦ some (c, record q { pipe_continuations = Dict.erase tag q.pipe_continuations })
]

-- RequestPiper::return_now: back through the pipe if the tag is a pipe continuation's, or else what
-- the base class does.
unfoldable pub return_now : ℕ → Message → Piper → Piper
unfolding take_continuation do_dispatch
return_now tag ret p = elim (take_continuation tag p.self) [
  | none ↦ Object.return_now tag ret p
  | some ((call_msg, orig_tag), q) ↦ record p { self = do_dispatch call_msg ret orig_tag q }
]

-- RequestPiper::find_continuation_call_message
pub find_continuation_call_message : ℕ → Piper → Option CallMessage
find_continuation_call_message tag p = elim (Dict.find tag (p.self).pipe_continuations) [
  | none ↦ Object.find_continuation_call_message tag p
  | some (call_msg, orig_tag) ↦ some call_msg
]

-- RequestPiper::dispatcher_pipe_handler and do_send for one chunk: `none` stands for reading the
-- front of an empty vector. (return_now throws nothing that do_send would catch.)
unfoldable pub dispatcher_pipe_handler : ℕ → Piper → Option Piper
unfolding return_now
dispatcher_pipe_handler tag p =
    if tag == 0
    then elim (p.self).signal_queue [
      | [] ↦ none
      | msg ∷ rest ↦
          some (emit_signal msg (record p { self = record (p.self) { signal_queue = rest } }))
    ]
    else elim (p.self).response_queue [
      | [] ↦ none
      | (msg, res) ∷ rest ↦
          some (return_now tag res (record p { self = record (p.self) { response_queue = rest } }))
    ]
