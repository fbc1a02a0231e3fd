-- ===== src/Object.antt =====
-- src/object.cpp and include/dbus-c++/object.h: a local object (ObjectAdaptor) answers the calls
-- that reach it, at once or later. `S` is the state of the class derived from it, which its
-- methods may change. What conn().send is given is kept in the order of the calls.
pub mod Continuations
mod Examples
use dbus_cplusplus.Common.{ℕ, String, Bool, true, false, List, [], ◌∷◌, ◌++◌, Option, none, some}
use dbus_cplusplus.Common.Dict
use dbus_cplusplus.Common.Names
use dbus_cplusplus.Message.{CallMessage, Message, SignalMessage, new_error, new_return, copy_data}
use dbus_cplusplus.Interface.{InterfaceAdaptor, Outcome, returns, throws, later, dispatch_method}

-- ObjectAdaptor::Continuation: the call, and the reply that is being built.
pub record Continuation : Type 0 where
  pub call : CallMessage
  pub return_ : Message

pub data Outgoing : Type 0 where
  reply : Message → Outgoing
  signal : SignalMessage → Outgoing

-- `registered` holds the tags whose tag_registered() was called.
pub record ObjectAdaptor (S : Type 0) : Type 0 where
  pub path : String
  pub interfaces : List (String × InterfaceAdaptor S)
  pub self : S
  pub continuations : List (ℕ × Continuation)
  pub sent : List Outgoing
  pub registered : List ℕ

-- What msg.type() tells apart.
pub data Incoming : Type 0 where
  call : CallMessage → Incoming
  signal : SignalMessage → Incoming
  other : Incoming

-- Continuation::Continuation
unfoldable pub new_continuation : CallMessage → Continuation
new_continuation c = record { call = c; return_ = new_return c }

module _ {S : Type 0} where
  abbrev pub send : Outgoing → ObjectAdaptor S → ObjectAdaptor S
  send m o = record o { sent = o.sent ++ m ∷ [] }

  -- The end of the try block and the catch clauses of handle_message.
  unfoldable pub conclude : CallMessage → Outcome → ObjectAdaptor S → ObjectAdaptor S
  unfolding new_continuation
  conclude cmsg (returns ret) o = send (reply ret) o
  conclude cmsg (throws name message) o = send (reply (new_error cmsg name message)) o
  conclude cmsg (later tag) o = record o {
    continuations = Dict.insert tag (new_continuation cmsg) o.continuations;
    registered = o.registered ++ tag ∷ [];
  }

  -- ii->dispatch_method(cmsg), which may change the object's own state.
  unfoldable pub invoke :
      InterfaceAdaptor S → CallMessage → ObjectAdaptor S → ObjectAdaptor S × Outcome
  invoke ii cmsg o =
      let (self, outcome) = dispatch_method ii cmsg o.self in (record o { self = self }, outcome)

  -- if (interface) ii = find_interface(interface); else ii = NULL;
  unfoldable pub find_for :
      Option String → List (String × InterfaceAdaptor S) → Option (InterfaceAdaptor S)
  find_for none interfaces = none
  find_for (some name) interfaces = Names.find name interfaces

  -- ObjectAdaptor::handle_message: the flag says whether the message was handled.
  pub handle_message : Incoming → ObjectAdaptor S → ObjectAdaptor S × Bool
  unfolding find_for invoke conclude
  handle_message (call cmsg) o = elim (find_for cmsg.interface o.interfaces) [
    | none ↦ (o, false)
    | some ii ↦ let (o', outcome) = invoke ii cmsg o in (conclude cmsg outcome o', true)
  ]
  handle_message (signal s) o = (o, false)
  handle_message other o = (o, false)

  abbrev pub find_continuation : ℕ → ObjectAdaptor S → Option Continuation
  find_continuation tag o = Dict.find tag o.continuations

  -- ObjectAdaptor::find_continuation_call_message
  unfoldable pub find_continuation_call_message : ℕ → ObjectAdaptor S → Option CallMessage
  find_continuation_call_message tag o = elim (find_continuation tag o) [
    | none ↦ none
    | some c ↦ some c.call
  ]

  -- ObjectAdaptor::return_now(Continuation *)
  unfoldable pub finish_continuation : ℕ → Continuation → ObjectAdaptor S → ObjectAdaptor S
  finish_continuation tag ret o = record (send (reply ret.return_) o) {
    continuations = Dict.erase tag o.continuations;
  }

  -- ObjectAdaptor::return_now(const Tag *, Message)
  unfoldable pub return_now : ℕ → Message → ObjectAdaptor S → ObjectAdaptor S
  unfolding finish_continuation
  return_now tag message o = elim (find_continuation tag o) [
    | none ↦ o
    | some c ↦ finish_continuation tag (record c { return_ = copy_data message c.return_ }) o
  ]

  -- ObjectAdaptor::return_error
  unfoldable pub return_error :
      ℕ → Continuation → String → String → ObjectAdaptor S → ObjectAdaptor S
  return_error tag ret name message o = record (send (reply (new_error ret.call name message)) o) {
    continuations = Dict.erase tag o.continuations;
  }

  -- ObjectAdaptor::_emit_signal
  unfoldable pub emit_signal : SignalMessage → ObjectAdaptor S → ObjectAdaptor S
  emit_signal sig o = send (signal (record sig { path = some o.path })) o
