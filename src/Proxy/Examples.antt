-- ===== src/Proxy/Examples.antt =====
-- A proxy with one interface and one handler, on a bus that keeps rules and filters (src/object.cpp).
use text.Mathlib.Text.{◌==◌}
use text.Mathlib.TextEquality.{eq_iff}
use dbus_cplusplus.Common.{
  ℕ, suc, ◌-◌, ◌≡◌, ◌≢◌, refl, String, true, false, List, [], ◌∷◌, Option, none, some,
  if◌then◌else◌, Bool-cases, inl, inr, arith,
}
use dbus_cplusplus.Common.Names.{find}
use dbus_cplusplus.Connection.{Bus, Connection, ℤ, pos, Call, Error, minus_one}
use dbus_cplusplus.Proxy.{
  Signal, signal, ObjectProxy, set_timeout, dispatch_signal, handle_message, register_obj,
  unregister_obj, invoke_method, invoke_method_noreply, rule, add_matches,
}
use dbus_cplusplus.Proxy.Watching.{Watch, register_obj-unregister_obj, register_obj_thrown}
use dbus_cplusplus.Proxy.Calls.{
  handle_message-IsHandlerFor, expected, expected_noreply, invoke_method-set_timeout,
}

-- The match rules, how many filters there are, and the rule that the bus refuses.
abbrev Rules : Type 0
Rules = List String × ℕ

unfoldable count : String → List String → ℕ
count q [] = 0
count q (r ∷ rs) = let rest = count q rs in if q == r then suc rest else rest

unfoldable without : String → List String → List String
without q [] = []
without q (r ∷ rs) = if q == r then rs else r ∷ without q rs

count-without :
    (q r : String) (rs : List String)
    → count r rs ≢ 0
    → count q rs ≡ (if q == r then suc (count q (without r rs)) else count q (without r rs))
unfolding count without
count-without q r [] h = absurd (h refl)
count-without q r (x ∷ rs) h =
    ground (arith, count-without q r rs, eq_iff q x, eq_iff r x, eq_iff q r)

abbrev bad_rule : String
bad_rule = rule "org.example.Bad" "/a"

abbrev add_rule : String → Rules → Rules × Option Error
add_rule r (rs, n) = if r == bad_rule then ((rs, n), some ("refused", r)) else ((r ∷ rs, n), none)

count-add_rule :
    (q r : String) (s : Rules)
    → (add_rule r s).1 ≡ none
    → count q (add_rule r s).0.0 ≡ (if q == r then suc (count q s.0) else count q s.0)
unfolding count
count-add_rule q r s ok = elim (Bool-cases (r == bad_rule)) [
  | inl bad ↦ absurd (ground (arith, bad, ok))
  | inr good ↦ rw good refl
]

add_rule_filters : (r : String) (s : Rules) → (add_rule r s).0.1 ≡ s.1
add_rule_filters r s = elim (Bool-cases (r == bad_rule)) [ inl b ↦ rw b refl | inr g ↦ rw g refl ]

filters_less : (n : ℕ) → n ≢ 0 → n ≡ suc (n - 1)
filters_less n h = ground (arith)

nothing_held : (m n : String) → false ≡ true → false ≡ false → (m ≡ n) × (true ≡ false)
nothing_held m n held new = absurd (cc)

never_held : (m n : String) → false ≡ true → (false ≡ true) × ((m == n) ≡ false)
never_held m n held = absurd (cc)

abbrev rules_only : Bus
rules_only = record {
  State = Rules;
  Reply = ℤ;
  request_name = λ n flags s. (s, true, none);
  release_name = λ n s. (s, false);
  add_match = add_rule;
  remove_match = λ r (rs, n). ((without r rs, n), none);
  add_filter = λ f (rs, n). ((rs, suc n), true);
  remove_filter = λ f (rs, n). (rs, n - 1);
  send = λ c s. (s, true);
  send_with_reply_and_block = λ c t s. (s, none, t);
  is_connected = λ s. true;
  close = λ s. s;
  unref = λ s. s;
  holds = λ m s. false;
  holds-request_name = λ m n flags s. nothing_held m n;
  holds-release_name = λ m n s h held. never_held m n held;
  holds-add_match = λ m r s held. held;
  holds-remove_match = λ m r s held. held;
  holds-send = λ m c s h held. held;
  holds-send_with_reply_and_block = λ m c t s h held. held;
  holds-close = λ m s h. h;
  holds-unref = λ m s h. h;
}

abbrev watched : Watch rules_only
watched = record {
  rules = λ q s. count q s.0;
  filters = λ f s. s.1;
  rules-add_match = count-add_rule;
  rules-remove_match = λ r s h. (refl, λ q. count-without q r s.0 h);
  rules-add_filter = λ q f s. refl;
  rules-remove_filter = λ q f s. refl;
  filters-add_match = λ f r s. add_rule_filters r s;
  filters-remove_match = λ f r s. refl;
  filters-add_filter = λ f s h. refl;
  filters-remove_filter = λ f s h. filters_less s.1 h;
}

abbrev proxy : ObjectProxy
proxy = record {
  path = "/a";
  service = "org.example";
  default_timeout = minus_one;
  interfaces = ("org.example.Clock", ("Tick", 7) ∷ []) ∷ [];
  filtered = 1;
}

abbrev bad_proxy : ObjectProxy
bad_proxy = record proxy { interfaces = ("org.example.Bad", []) ∷ [] }

abbrev tick : Signal
tick = record { path = "/a"; interface = "org.example.Clock"; member = "Tick" }

abbrev get_time : Call
get_time = record { path = none; destination = none; interface = none; member = "GetTime" }

ticks : handle_message proxy (signal tick) ≡ (false, some 7)
unfolding handle_message dispatch_signal find
ticks = refl

handle_message-IsHandlerFor_example : (handle_message proxy (signal tick)).0 ≡ false
handle_message-IsHandlerFor_example = (handle_message-IsHandlerFor proxy (signal tick)).0

abbrev connection : Connection rules_only
connection = record { names = []; timeout = minus_one; state = ([], 0) }

register_obj-unregister_obj_example :
    (unregister_obj rules_only true proxy (register_obj rules_only proxy connection).0).1 ≡ none
unfolding register_obj add_matches
register_obj-unregister_obj_example =
    (register_obj-unregister_obj rules_only watched true proxy connection refl refl).0

register_obj_thrown_example : (register_obj rules_only bad_proxy connection).0.state.1 ≡ 1
unfolding register_obj add_matches
register_obj_thrown_example =
    register_obj_thrown rules_only watched bad_proxy connection ("refused", bad_rule) refl refl

invoke_method-set_timeout_example :
    (invoke_method rules_only "org.example.Clock"
        (record proxy { default_timeout = pos 50 })
        get_time
        connection
      ≡ expected rules_only "org.example.Clock" proxy (pos 50) get_time connection)
    × (invoke_method_noreply rules_only "org.example.Clock"
          (record proxy { default_timeout = pos 50 })
          get_time
          connection
        ≡ expected_noreply rules_only "org.example.Clock" proxy (pos 50) get_time connection)
unfolding set_timeout
invoke_method-set_timeout_example =
    invoke_method-set_timeout rules_only "org.example.Clock" proxy
      (record proxy { default_timeout = pos 50 }) (pos 50) get_time connection refl
