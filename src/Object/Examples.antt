-- ===== src/Object/Examples.antt =====
-- An object with one method that answers later, and the theorems about it.
use mathlib.Core.List.{Nodup-nil}
use dbus_cplusplus.Common.{ℕ, ◌+◌, ◌≡◌, ◌≢◌, refl, [], ◌∷◌, some}
use dbus_cplusplus.Common.Names
use dbus_cplusplus.Message.{CallMessage, return_message, text, arguments}
use dbus_cplusplus.Interface.{InterfaceAdaptor, later, dispatch_method}
use dbus_cplusplus.Object.{
  ObjectAdaptor, reply, call, find_for, handle_message, return_now, find_continuation,
}
use dbus_cplusplus.Object.Continuations.{return_now-handle_message}

-- The method counts its calls and throws ReturnLaterError with tag 9.
abbrev slow : InterfaceAdaptor ℕ
slow = record {
  name = "org.example.Slow";
  methods = ("Wait", λ msg count. (count + 1, later 9)) ∷ [];
  properties = [];
}

abbrev object : ObjectAdaptor ℕ
object = record {
  path = "/slow";
  interfaces = ("org.example.Slow", slow) ∷ [];
  self = 0;
  continuations = [];
  sent = [];
  registered = [];
}

abbrev wait : CallMessage
wait = record { serial = 4; interface = some "org.example.Slow"; member = "Wait"; body = [] }

found : find_for wait.interface object.interfaces ≡ some slow
unfolding find_for Names.find
found = refl

ends_later : (dispatch_method slow wait 0).1 ≡ later 9
unfolding dispatch_method Names.find
ends_later = refl

return_now-handle_message_example :
    let kept = (handle_message (call wait) object).0 in
    let done = return_now 9 (return_message 0 (text "done" ∷ [])) kept in
    (kept.sent ≡ [])
    × (done.sent ≡ reply (return_message 4 (arguments (return_message 0 (text "done" ∷ [])))) ∷ [])
    × (return_now 9 (return_message 0 []) done ≡ done)
    × ((other : ℕ) → 9 ≢ other → find_continuation other done ≡ find_continuation other object)
return_now-handle_message_example =
    return_now-handle_message object wait slow 9 (return_message 0 (text "done" ∷ []))
      (return_message 0 []) found ends_later (Nodup-nil)
