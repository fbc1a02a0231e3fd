-- ===== src/Object/Continuations.antt =====
-- A call that is answered later (ObjectAdaptor::handle_message, return_later and return_now,
-- src/object.cpp).
use mathlib.Core.List.{Nodup}
use dbus_cplusplus.Common.{ℕ, ◌≡◌, ◌≢◌, refl, ap, ◌∙◌, [], ◌∷◌, ◌++◌, some}
use dbus_cplusplus.Common.Dict.{find, insert, erase}
use dbus_cplusplus.Common.Perms.{keys, find-insert_self, find-erase-insert, find-erase-insert_self}
use dbus_cplusplus.Message.{CallMessage, Message, return_message, new_return, copy_data, arguments}
use dbus_cplusplus.Interface.{InterfaceAdaptor, later, dispatch_method}
use dbus_cplusplus.Object.{
  ObjectAdaptor, reply, call, find_for, handle_message, return_now, find_continuation,
  new_continuation,
}

module _ {S : Type 0} (o : ObjectAdaptor S) (cmsg : CallMessage) (ii : InterfaceAdaptor S) where
  -- The object after a method has thrown ReturnLaterError, and after the answer.
  abbrev kept_object : ℕ → ObjectAdaptor S
  kept_object tag = record o {
    self = (dispatch_method ii cmsg o.self).0;
    continuations = insert tag (new_continuation cmsg) o.continuations;
    registered = o.registered ++ tag ∷ [];
  }

  abbrev answered_object : ℕ → Message → ObjectAdaptor S
  answered_object tag message = record (kept_object tag) {
    sent = o.sent ++ reply (return_message cmsg.serial (arguments message)) ∷ [];
    continuations = erase tag (insert tag (new_continuation cmsg) o.continuations);
  }

  handle_message-later :
      (tag : ℕ)
      → find_for cmsg.interface o.interfaces ≡ some ii
      → (dispatch_method ii cmsg o.self).1 ≡ later tag
      → (handle_message (call cmsg) o).0 ≡ kept_object tag
  unfolding handle_message
  handle_message-later tag found ends = rw (found, handle_message, ends)

  return_now-kept :
      (tag : ℕ) (message : Message)
      → return_now tag message (kept_object tag) ≡ answered_object tag message
  unfolding return_now new_continuation copy_data new_return
  return_now-kept tag message =
      rw (return_now, find-insert_self tag (new_continuation cmsg) o.continuations)

  return_now-answered :
      (tag : ℕ) (message again : Message)
      → Nodup (keys o.continuations)
      → return_now tag again (answered_object tag message) ≡ answered_object tag message
  unfolding return_now
  return_now-answered tag message again distinct =
      rw (return_now, find-erase-insert_self tag (new_continuation cmsg) o.continuations distinct)

  -- A call that a method keeps for later is answered by the first return_now with its tag, by a
  -- method return with the arguments of the message given; the tag is then forgotten, a second
  -- return_now does nothing, and the continuations under other tags are as before the call.
  pub return_now-handle_message :
      (tag : ℕ) (message again : Message)
      → find_for cmsg.interface o.interfaces ≡ some ii
      → (dispatch_method ii cmsg o.self).1 ≡ later tag
      → Nodup (keys o.continuations)
      → let kept = (handle_message (call cmsg) o).0 in
        let done = return_now tag message kept in
        (kept.sent ≡ o.sent)
        × (done.sent ≡ o.sent ++ reply (return_message cmsg.serial (arguments message)) ∷ [])
        × (return_now tag again done ≡ done)
        × ((other : ℕ) → tag ≢ other → find_continuation other done ≡ find_continuation other o)
  return_now-handle_message tag message again found ends distinct =
      rw (handle_message-later tag found ends) (
        refl,
        ap (λ x. x.sent) (return_now-kept tag message),
        rw (return_now-kept tag message) (return_now-answered tag message again distinct),
        λ other apart.
            ap (λ x. find other x.continuations) (return_now-kept tag message)
            ∙ find-erase-insert tag other (new_continuation cmsg) o.continuations apart,
      )
