-- ===== src/Connection/Examples.antt =====
-- A bus with names alone, and the life of a connection to it (src/connection.cpp).
use text.Mathlib.Text.{◌==◌}
use text.Mathlib.TextEquality.{eq_iff}
use dbus_cplusplus.Common.{
  ◌≡◌, refl, sym, subst, String, Bool, true, false, not, ◌&&◌, List, [], ◌∷◌, Option, none, some,
  if◌then◌else◌, Bool-cases, inl, inr, arith,
}
use dbus_cplusplus.Connection.{
  Bus, add_match, push_back, pos, Error, new_connection, Call, send, request_name, set_timeout,
  destroy,
}
use dbus_cplusplus.Connection.Names.{
  Operation, requests, sends, sets_timeout, AllReleased, listed, run, run_all, destroy-run_all,
}

-- The names that are held; a request for ":taken" is refused.
abbrev taken : String
taken = "taken"

unfoldable take_out : String → List String → List String
take_out n [] = []
take_out n (m ∷ ms) = if m == n then take_out n ms else m ∷ take_out n ms

holds-take_out :
    (m n : String) (s : List String) → listed m (take_out n s) ≡ (listed m s && not (m == n))
unfolding take_out listed
holds-take_out m n [] = refl
holds-take_out m n (x ∷ s) =
    ground (arith, holds-take_out m n s, eq_iff x n, eq_iff m x, eq_iff m n)

taken_out :
    (m n : String) (s : List String)
    → listed m (take_out n s) ≡ true
    → (listed m s ≡ true) × ((m == n) ≡ false)
taken_out m n s held =
    let e = holds-take_out m n s in (ground (arith, e, held), ground (arith, e, held))

abbrev ask : String → List String → List String × Bool × Option Error
ask n s = if n == taken then (s, true, some ("failed", "taken")) else (n ∷ s, false, none)

holds-ask :
    (m n : String) (s : List String)
    → listed m (ask n s).0 ≡ true
    → listed m s ≡ false
    → (m ≡ n) × ((ask n s).1 ≡ false)
unfolding listed
holds-ask m n s held new = elim (Bool-cases (n == taken)) [
  | inl y ↦ absurd (ground (arith, held, new, y))
  | inr free ↦ (ground (arith, held, new, free, eq_iff m n), rw free refl)
]

abbrev names_only : Bus
names_only = record {
  State = List String;
  Reply = Bool;
  request_name = λ n flags s. ask n s;
  release_name = λ n s. (take_out n s, false);
  add_match = λ r s. (s, some ("failed", "no rules"));
  remove_match = λ r s. (s, none);
  add_filter = λ f s. (s, true);
  remove_filter = λ f s. s;
  send = λ c s. (s, true);
  send_with_reply_and_block = λ c t s. (s, none, true);
  is_connected = λ s. true;
  close = λ s. s;
  unref = λ s. s;
  holds = listed;
  holds-request_name = λ m n flags s. holds-ask m n s;
  holds-release_name = λ m n s h held. taken_out m n s held;
  holds-add_match = λ m r s held. held;
  holds-remove_match = λ m r s held. held;
  holds-send = λ m c s h held. held;
  holds-send_with_reply_and_block = λ m c t s h held. held;
  holds-close = λ m s h. h;
  holds-unref = λ m s h. h;
}

abbrev ping : Call
ping = record {
  path = some "/a";
  destination = some "org.example.Other";
  interface = some "org.example.Peer";
  member = "Ping";
}

abbrev all_operations : List Operation
all_operations =
    requests "org.example" 0 ∷ requests "taken" 0 ∷ sends ping ∷ sets_timeout (pos 100) ∷ []

nothing_listed : (n : String) → listed n [] ≡ false
unfolding listed
nothing_listed n = refl

-- The first request gives the name and then throws, since no match rule can be added.
after_requests :
    run_all names_only all_operations (new_connection names_only [])
    ≡ record { names = "org.example" ∷ []; timeout = pos 100; state = "org.example" ∷ [] }
unfolding run_all run new_connection request_name set_timeout send add_match push_back
after_requests = refl

released :
    AllReleased names_only
      (run_all names_only all_operations (new_connection names_only [])).names
      (run_all names_only all_operations (new_connection names_only [])).state
released = subst (λ c. AllReleased names_only c.names c.state) (sym after_requests) (refl, tt)

destroy-run_all_example :
    listed "org.example"
      (destroy names_only (run_all names_only all_operations (new_connection names_only [])))
    ≡ false
unfolding listed
destroy-run_all_example =
    destroy-run_all names_only all_operations [] "org.example" (λ n. nothing_listed n)
      (tt, (tt, (("org.example.Other", refl, λ e. absurd (cc)), (tt, tt)))) refl released
