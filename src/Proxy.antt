-- ===== src/Proxy.antt =====
-- src/object.cpp and src/interface.cpp: proxies of remote objects. A proxy watches the signals of
-- its interfaces, calls the handler of a signal that comes, and sends method calls.
pub mod Watching
pub mod Calls
mod Examples
use text.Mathlib.Text.{◌==◌}
use Prim.Native.String.{◌++◌}
use dbus_cplusplus.Common.{
  ℕ, zero, suc, ◌≡◌, ◌≢◌, String, Bool, true, false, not, ◌&&◌, List, [], ◌∷◌, Option, none, some,
  if◌then◌else◌,
}
use dbus_cplusplus.Common.Names.{find}
use dbus_cplusplus.Connection.{
  Bus, Connection, ℤ, pos, negsuc, Call, Error, add_match, remove_match, send, send_blocking,
  minus_one,
}

-- A signal that was filtered. What a handler does is not looked into: it is a number.
pub record Signal : Type 0 where
  pub path : String
  pub interface : String
  pub member : String

-- The interfaces with their SignalTable, by name; the service may be empty. `filtered` is the
-- address of the slot that libdbus is given.
pub record ObjectProxy : Type 0 where
  pub path : String
  pub service : String
  pub default_timeout : ℤ
  pub interfaces : List (String × List (String × ℕ))
  pub filtered : ℕ

-- Object::set_timeout: `none` is for the exception.
unfoldable pub set_timeout : ℤ → ObjectProxy → Option ObjectProxy
set_timeout (pos n) p = some (record p { default_timeout = pos n })
set_timeout (negsuc zero) p = some (record p { default_timeout = negsuc 0 })
set_timeout (negsuc (suc n)) p = none

-- InterfaceProxy::dispatch_signal: what it returns, and the handler that it called
unfoldable pub dispatch_signal : List (String × ℕ) → Signal → Bool × Option ℕ
dispatch_signal signals msg = elim (find msg.member signals) [
  | some handler ↦ (false, some handler)
  | none ↦ (false, none)
]

-- A message that was filtered, by its type
pub data Incoming : Type 0 where
  signal : Signal → Incoming
  other : Incoming

-- ObjectProxy::handle_message
unfoldable pub handle_message : ObjectProxy → Incoming → Bool × Option ℕ
unfolding dispatch_signal
handle_message p other = (false, none)
handle_message p (signal msg) =
    if not (msg.path == p.path) then (false, none) else elim (find msg.interface p.interfaces) [
      | some signals ↦ dispatch_signal signals msg
      | none ↦ (false, none)
    ]

-- The match rule for an interface of a proxy
abbrev pub rule : String → String → String
rule interface path = "type='signal',interface='" ++ interface ++ "',path='" ++ path ++ "'"

module _ (bus : Bus) where
  -- The loop of register_obj
  unfoldable pub add_matches :
      String → List (String × List (String × ℕ)) → Connection bus → Connection bus × Option Error
  unfolding add_match
  add_matches path [] c = (c, none)
  add_matches path ((i, signals) ∷ ii) c =
      let first = add_match bus (rule i path) c in
      elim first.1 [ none ↦ add_matches path ii first.0 | some e ↦ (first.0, some e) ]

  -- ObjectProxy::register_obj
  unfoldable pub register_obj : ObjectProxy → Connection bus → Connection bus × Option Error
  unfolding add_matches
  register_obj p c =
      add_matches p.path p.interfaces (record c { state = (bus.add_filter p.filtered c.state).0 })

  -- The loop of unregister_obj
  unfoldable pub remove_matches :
      Bool
      → String
      → List (String × List (String × ℕ))
      → Connection bus
      → Connection bus × Option Error
  unfolding remove_match
  remove_matches throw path [] c = (c, none)
  remove_matches throw path ((i, signals) ∷ ii) c =
      let first = remove_match bus (rule i path) throw c in
      elim first.1 [ none ↦ remove_matches throw path ii first.0 | some e ↦ (first.0, some e) ]

  -- ObjectProxy::unregister_obj
  unfoldable pub unregister_obj :
      Bool → ObjectProxy → Connection bus → Connection bus × Option Error
  unfolding remove_matches
  unregister_obj throw p c =
      let removed = remove_matches throw p.path p.interfaces c in
      elim removed.1 [
        | none ↦
            (record (removed.0) { state = bus.remove_filter p.filtered (removed.0).state }, none)
        | some e ↦ (removed.0, some e)
      ]

  abbrev pub or_else : Option String → String → Option String
  or_else none s = some s
  or_else (some t) s = some t

  -- The path and the destination that ObjectProxy fills in
  abbrev pub addressed : ObjectProxy → Call → Call
  addressed p call = record call {
    path = or_else call.path p.path;
    destination = or_else call.destination p.service;
  }

  -- ObjectProxy::_invoke_method
  unfoldable pub invoke :
      ObjectProxy → Call → Connection bus → Connection bus × Option Error × bus.Reply
  unfolding send_blocking
  invoke p call c = send_blocking bus (addressed p call) p.default_timeout c

  -- ObjectProxy::_invoke_method_noreply
  unfoldable pub invoke_noreply : ObjectProxy → Call → Connection bus → Connection bus × Bool
  unfolding send
  invoke_noreply p call c = send bus (addressed p call) c

  -- InterfaceProxy::invoke_method
  unfoldable pub invoke_method :
      String → ObjectProxy → Call → Connection bus → Connection bus × Option Error × bus.Reply
  unfolding invoke
  invoke_method interface p call c =
      invoke p (record call { interface = or_else call.interface interface }) c

  -- InterfaceProxy::invoke_method_noreply
  unfoldable pub invoke_method_noreply :
      String → ObjectProxy → Call → Connection bus → Connection bus × Bool
  unfolding invoke_noreply
  invoke_method_noreply interface p call c =
      invoke_noreply p (record call { interface = or_else call.interface interface }) c
