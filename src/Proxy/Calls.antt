-- ===== src/Proxy/Calls.antt =====
-- Signals that come to an ObjectProxy, and calls that go out (src/object.cpp, src/interface.cpp).
use text.Mathlib.Text.{◌==◌}
use text.Mathlib.TextEquality.{eq_iff}
use dbus_cplusplus.Common.{
  ℕ, Bool, zero, suc, ◌≡◌, ◌↔◌, refl, sym, ap, ap₂, subst, not, ◌∙◌, String, false, List, Option,
  none, some, if◌then◌else◌, arith, Option-cases, Bool-cases, inl, inr,
}
use dbus_cplusplus.Common.Names.{find}
use dbus_cplusplus.Connection.{
  Bus, Connection, ℤ, pos, negsuc, is_minus_one, Call, Error, send, send_blocking,
}
use dbus_cplusplus.Proxy.{
  Incoming, signal, other, ObjectProxy, set_timeout, dispatch_signal, handle_message, or_else,
  invoke, invoke_noreply, invoke_method, invoke_method_noreply,
}

-- A handler is the one for a message that is a signal of the object at the proxy's path, where it is
-- found under the signal's interface and member.
abbrev pub IsHandlerFor : ObjectProxy → Incoming → ℕ → Type 0
IsHandlerFor p other handler = ⊥
IsHandlerFor p (signal msg) handler =
    (msg.path ≡ p.path)
    × (signals : List (String × ℕ)) × (find msg.interface p.interfaces ≡ some signals)
    × (find msg.member signals ≡ some handler)

answers :
    (p : ObjectProxy) (msg : Incoming) (r : Option ℕ)
    → handle_message p msg ≡ (false, r)
    → ((handler : ℕ) → (r ≡ some handler) ↔ IsHandlerFor p msg handler)
    → ((handle_message p msg).0 ≡ false)
      × ((handler : ℕ) → ((handle_message p msg).1 ≡ some handler) ↔ IsHandlerFor p msg handler)
answers p msg r e f = (
  ap (λ x. x.0) e,
  λ h. (λ k. (f h).0 (sym (ap (λ x. x.1) e) ∙ k), λ k. ap (λ x. x.1) e ∙ (f h).1 k),
)

-- handle_message never claims a message, so that libdbus goes on to other proxies; it calls a
-- handler if and only if that is the one for the message.
pub handle_message-IsHandlerFor :
    (p : ObjectProxy) (msg : Incoming)
    → ((handle_message p msg).0 ≡ false)
      × ((handler : ℕ) → ((handle_message p msg).1 ≡ some handler) ↔ IsHandlerFor p msg handler)
unfolding handle_message dispatch_signal
handle_message-IsHandlerFor p other =
    answers p other none refl (λ handler. (λ k. absurd (cc), λ k. absurd k))
handle_message-IsHandlerFor p (signal msg) = elim (Bool-cases (msg.path == p.path)) [
  | inl here ↦ elim (Option-cases (find msg.interface p.interfaces)) [
    | inl missing ↦
        answers p (signal msg) none (rw (handle_message, here, missing) refl)
          (λ handler. (λ k. absurd (cc), λ (a, s, b, d). absurd (let q = sym missing ∙ b in cc)))
    | inr (signals, known) ↦
        let same_signals : (s : List (String × ℕ))
            → find msg.interface p.interfaces ≡ some s
            → find msg.member signals ≡ find msg.member s =
          λ s b. ap (λ o. elim o [ none ↦ none | some t ↦ find msg.member t ]) (sym known ∙ b) in
        elim (Option-cases (find msg.member signals)) [
          | inl unknown ↦
              answers p (signal msg) none
                (rw (handle_message, here, known, dispatch_signal, unknown) refl)
                (λ handler. (
                  λ k. absurd (cc),
                  λ (a, s, b, d). absurd (let q = sym unknown ∙ (same_signals s b ∙ d) in cc),
                ))
          | inr (handler, found) ↦
              answers p (signal msg) (some handler)
                (rw (handle_message, here, known, dispatch_signal, found) refl)
                (λ h. (
                  λ k. ((eq_iff msg.path p.path).0 here, signals, known, found ∙ k),
                  λ (a, s, b, d). sym found ∙ (same_signals s b ∙ d),
                ))
        ]
  ]
  | inr elsewhere ↦ answers p (signal msg) none (rw (handle_message, elsewhere) refl) (λ handler. (
    λ k. absurd (cc),
    λ (a, s, b, d). absurd (let q = (eq_iff msg.path p.path).1 a in ground (arith, q, elsewhere)),
  ))
]

accepted :
    (p : ObjectProxy) (t : ℤ) (q : ObjectProxy)
    → set_timeout t p ≡ some q
    → record p { default_timeout = t } ≡ q
unfolding set_timeout
accepted p (pos n) q h =
    ap (λ o. elim o [ none ↦ record p { default_timeout = pos n } | some x ↦ x ]) h
accepted p (negsuc zero) q h =
    ap (λ o. elim o [ none ↦ record p { default_timeout = negsuc 0 } | some x ↦ x ]) h
accepted p (negsuc (suc n)) q h = absurd (cc)

-- The text that goes out for one that the caller may leave open.
abbrev pub unless_given : String → Option String → String
unless_given own none = own
unless_given own (some given) = given

-- The timeout that goes out: -1 says that the connection has none of its own.
abbrev pub unless_set : ℤ → ℤ → ℤ
unless_set t (pos n) = pos n
unless_set t (negsuc zero) = t
unless_set t (negsuc (suc n)) = negsuc (suc n)

or_else-unless_given :
    (bus : Bus) (o : Option String) (s : String) → or_else bus o s ≡ some (unless_given s o)
or_else-unless_given bus none s = refl
or_else-unless_given bus (some t) s = refl

is_minus_one-unless_set :
    (own t : ℤ) → (if not (is_minus_one own) then own else t) ≡ unless_set t own
is_minus_one-unless_set (pos n) t = refl
is_minus_one-unless_set (negsuc zero) t = refl
is_minus_one-unless_set (negsuc (suc n)) t = refl

module _ (bus : Bus) (interface : String) (p : ObjectProxy) (t : ℤ) (call : Call)
    (c : Connection bus) where
  -- The call that goes out: what it leaves open is filled in.
  abbrev pub filled : Call
  filled = record {
    path = some (unless_given p.path call.path);
    destination = some (unless_given p.service call.destination);
    interface = some (unless_given interface call.interface);
    member = call.member;
  }

  abbrev blocking_send : Call → ℤ → Connection bus × Option Error × bus.Reply
  blocking_send m used =
      let result = bus.send_with_reply_and_block m used c.state in
      (record c { state = result.0 }, result.1, result.2)

  abbrev plain_send : Call → Connection bus × Bool
  plain_send m = let result = bus.send m c.state in (record c { state = result.0 }, result.1)

  -- What a call through the proxy is to do, with the timeout `t` set for the proxy.
  unfoldable pub expected : Connection bus × Option Error × bus.Reply
  expected = blocking_send filled (unless_set t c.timeout)

  -- What a call that wants no reply is to do.
  unfoldable pub expected_noreply : Connection bus × Bool
  expected_noreply = plain_send filled

  abbrev pub Sends : ObjectProxy → Type 0
  Sends q =
      (invoke_method bus interface q call c ≡ expected)
      × (invoke_method_noreply bus interface q call c ≡ expected_noreply)

  built : Option String → Option String → Option String → Call
  built path destination interface = record {
    path = path;
    destination = destination;
    interface = interface;
    member = call.member;
  }

  -- What ObjectProxy and InterfaceProxy make of the call
  completed :
      built
        (or_else bus call.path p.path)
        (or_else bus call.destination p.service)
        (or_else bus call.interface interface)
      ≡ filled
  unfolding built
  completed =
      rw
        (
          or_else-unless_given bus call.path p.path,
          or_else-unless_given bus call.destination p.service,
          or_else-unless_given bus call.interface interface,
        )
        refl

  timed-Sends : Sends (record p { default_timeout = t })
  unfolding expected expected_noreply invoke_method invoke_method_noreply invoke invoke_noreply send
      send_blocking built
  timed-Sends =
      (ap₂ blocking_send completed (is_minus_one-unless_set c.timeout t), ap plain_send completed)

-- The timeout that set_timeout accepts for a proxy is used for its calls that want a reply, where
-- the connection has none of its own; the interface, the path and the destination that a call
-- leaves open are those of the proxy, and those that it gives go out as given, also where it wants
-- no reply.
pub invoke_method-set_timeout :
    (bus : Bus) (interface : String) (p q : ObjectProxy) (t : ℤ) (call : Call) (c : Connection bus)
    → set_timeout t p ≡ some q
    → (invoke_method bus interface q call c ≡ expected bus interface p t call c)
      × (invoke_method_noreply bus interface q call c ≡ expected_noreply bus interface p t call c)
invoke_method-set_timeout bus interface p q t call c h =
    subst (Sends bus interface p t call c) (accepted p t q h) (timed-Sends bus interface p t call c)
