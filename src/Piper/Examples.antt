-- ===== src/Piper/Examples.antt =====
-- A call of a forwarded method, step by step through both threads, and the theorems about
-- RequestPiper at the states of this run.
use mathlib.Core.List.{Perm, not-mem-nil}
use dbus_cplusplus.Common.{
  ℕ, ◌≡◌, refl, Bool, true, false, List, [], ◌∷◌, Option, none, some, arith,
}
use dbus_cplusplus.Common.Names
use dbus_cplusplus.Common.Dict.{find, insert, erase}
use dbus_cplusplus.Message.{
  CallMessage, Message, return_message, error_message, text, new_return, new_error, copy_data,
  arguments,
}
use dbus_cplusplus.Interface.{throws}
use dbus_cplusplus.Object.{Continuation, Outgoing, reply, conclude, new_continuation, ObjectAdaptor}
use dbus_cplusplus.Object
use dbus_cplusplus.Piper.{
  Queues, Piper, MethodTable, forwarding_stub, do_dispatch, call_orig_method, pop_request,
  finish_request, take_continuation, return_now, dispatcher_pipe_handler,
}
use dbus_cplusplus.Piper.System.{
  System, init, Step, Reach, here, next, forwards, catches, wakes, pops, serves, delivers,
  reply_serials,
}
use dbus_cplusplus.Piper.System.Account.{Balance}
use dbus_cplusplus.Piper.System.Reachable.{Reach-Balance, at_rest-answered, IsAtRest}
use dbus_cplusplus.Piper.System.Safety.{Handled, delivery_total, error_becomes_return}

-- One method, which throws.
abbrev table : MethodTable
table = ("Fail", λ c. throws "org.example.Error" "no luck") ∷ []

abbrev fail_call : CallMessage
fail_call = record { serial = 7; interface = some "org.example"; member = "Fail"; body = [] }

abbrev queues : List (CallMessage × ℕ) → ℕ → List (CallMessage × Message) → List ℕ → Queues
queues requests bytes responses chunks = record {
  new_tag = 5;
  request_queue = requests;
  request_pipe = bytes;
  response_queue = responses;
  response_n_signal_pipe = chunks;
  signal_queue = [];
  pipe_continuations = [];
}

abbrev object : Queues → List (ℕ × Continuation) → List Outgoing → Piper
object q conts sent = record {
  path = "/echo";
  interfaces = [];
  self = q;
  continuations = conts;
  sent = sent;
  registered = [];
}

abbrev fail_continuation : Continuation
fail_continuation = record { call = fail_call; return_ = return_message 7 [] }

abbrev fail_error : Message
fail_error = error_message 7 "org.example.Error" "no luck"

abbrev state : Piper → Option (CallMessage × ℕ) → Bool → Option (CallMessage × ℕ) → System
state p thrown woken serving = record {
  piper = p;
  thrown = thrown;
  woken = woken;
  serving = serving;
  returning = [];
  accepted = fail_call ∷ [];
}

abbrev registered_object : Queues → Piper
registered_object q = record (object q ((5, fail_continuation) ∷ []) []) { registered = 5 ∷ [] }

abbrev s1 : System
s1 = state (object (queues ((fail_call, 5) ∷ []) 1 [] []) [] []) (some (fail_call, 5)) false none

abbrev s2 : System
s2 = state (object (queues ((fail_call, 5) ∷ []) 0 [] []) [] []) (some (fail_call, 5)) true none

abbrev s3 : System
s3 = state (registered_object (queues ((fail_call, 5) ∷ []) 0 [] [])) none true none

abbrev s4 : System
s4 = state (registered_object (queues [] 0 [] [])) none false (some (fail_call, 5))

abbrev s5 : System
s5 = state (registered_object (queues [] 0 ((fail_call, fail_error) ∷ []) (5 ∷ []))) none false none

abbrev answered_object : Piper
answered_object =
    record (object (queues [] 0 [] []) [] (reply (return_message 7 (text "no luck" ∷ [])) ∷ [])) {
      registered = 5 ∷ [];
    }

abbrev s6 : System
s6 = state answered_object none false none

run_forwarded : Step table (init "/echo") s1
unfolding init forwarding_stub
run_forwarded = forwards fail_call 5 refl (λ e. omega (arith, e), not-mem-nil) refl

run_woken : Step table s1 s2
run_woken = wakes 0 refl refl refl refl

run_caught : Step table s2 s3
unfolding conclude new_continuation new_return insert
run_caught = catches fail_call 5 refl refl

run_popped : Step table s3 s4
unfolding pop_request
run_popped = pops (fail_call, 5) (queues [] 0 [] []) refl refl refl refl

run_served : Step table s4 s5
unfolding call_orig_method Names.find finish_request do_dispatch new_error
run_served =
    serves (fail_call, 5) (throws "org.example.Error" "no luck") refl refl (λ t e. absurd (cc)) refl

step_answered :
    dispatcher_pipe_handler 5 (registered_object (queues [] 0 ((fail_call, fail_error) ∷ []) []))
    ≡ some answered_object
unfolding dispatcher_pipe_handler return_now take_continuation Object.return_now find erase
    copy_data arguments
step_answered = refl

run_delivered : Step table s5 s6
run_delivered = delivers 5 [] answered_object refl refl step_answered refl

up_to_response : Reach table (init "/echo") s5
up_to_response =
    next (next (next (next (next here run_forwarded) run_woken) run_caught) run_popped) run_served

abbrev s6_at_rest : IsAtRest s6
s6_at_rest = record {
  serving = refl;
  returning = refl;
  request_queue = refl;
  response_queue = refl;
  pipe_continuations = refl;
}

Reach-Balance_example : Balance s5
Reach-Balance_example = Reach-Balance table "/echo" s5 up_to_response

at_rest-answered_example : Perm (7 ∷ []) (reply_serials answered_object.sent)
at_rest-answered_example =
    at_rest-answered table "/echo" s6 (next up_to_response run_delivered) s6_at_rest

delivery_total_example :
    Handled s5 [] 5 (
      dispatcher_pipe_handler 5 (registered_object (queues [] 0 ((fail_call, fail_error) ∷ []) [])))
delivery_total_example =
    delivery_total s5 5 [] (Reach-Balance table "/echo" s5 up_to_response) refl refl

error_becomes_return_example :
    answered_object.sent ≡ reply (return_message 7 (text "no luck" ∷ [])) ∷ []
error_becomes_return_example =
    error_becomes_return s5 5 [] answered_object fail_call 7 "org.example.Error" "no luck" []
      (Reach-Balance table "/echo" s5 up_to_response) refl refl (λ e. omega (arith, e)) refl
      step_answered
