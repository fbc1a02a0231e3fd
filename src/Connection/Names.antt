-- ===== src/Connection/Names.antt =====
-- The names of a Connection (src/connection.cpp), from request_name to the destructor.
use text.Mathlib.Text.{◌==◌}
use text.Mathlib.TextEquality.{eq_iff}
use dbus_cplusplus.Common.{
  ℕ, ◌≡◌, ◌⊎◌, refl, sym, ap, ◌∙◌, String, Bool, true, false, List, [], ◌∷◌, Option, none, some,
  if◌then◌else◌, Bool-cases, inl, inr, arith,
}
use dbus_cplusplus.Connection.{
  Bus, ToService, Connection, ℤ, Call, Error, push_back, new_connection, add_match, remove_match,
  request_name, set_timeout, send, send_blocking, release_all, destroy,
}

unfoldable pub listed : String → List String → Bool
listed m [] = false
listed m (n ∷ names) = let rest = listed m names in if m == n then true else rest

-- What a program does with a connection, whether it throws or not.
pub data Operation : Type 0 where
  requests : String → ℕ → Operation
  adds_match : String → Operation
  removes_match : String → Bool → Operation
  sends : Call → Operation
  sends_blocking : Call → ℤ → Operation
  sets_timeout : ℤ → Operation

listed-push_back :
    (m : String) (names : List String) (n : String)
    → listed m (push_back names n) ≡ (if listed m names then true else m == n)
unfolding listed push_back
listed-push_back m [] n = ground (arith)
listed-push_back m (x ∷ names) n = ground (arith, listed-push_back m names n)

module _ (bus : Bus) where
  open bus use {State, holds}

  -- Calls go to other services than the bus.
  abbrev pub Elsewhere : Operation → Type 0
  Elsewhere (sends call) = ToService call
  Elsewhere (sends_blocking call t) = ToService call
  Elsewhere (requests name flags) = Unit {0}
  Elsewhere (adds_match rule) = Unit {0}
  Elsewhere (removes_match rule throw) = Unit {0}
  Elsewhere (sets_timeout t) = Unit {0}

  abbrev pub AllElsewhere : List Operation → Type 0
  AllElsewhere [] = Unit {0}
  AllElsewhere (o ∷ os) = Elsewhere o × AllElsewhere os

  -- The names are released one after the other, and no release fails.
  abbrev pub AllReleased : List String → State → Type 0
  AllReleased [] s = Unit {0}
  AllReleased (n ∷ names) s =
      ((bus.release_name n s).1 ≡ false) × AllReleased names (bus.release_name n s).0

  unfoldable pub run : Operation → Connection bus → Connection bus
  unfolding request_name add_match remove_match send send_blocking set_timeout
  run (requests name flags) c = (request_name bus name flags c).0
  run (adds_match rule) c = (add_match bus rule c).0
  run (removes_match rule throw) c = (remove_match bus rule throw c).0
  run (sends call) c = (send bus call c).0
  run (sends_blocking call t) c = (send_blocking bus call t c).0
  run (sets_timeout t) c = set_timeout bus t c

  unfoldable pub run_all : List Operation → Connection bus → Connection bus
  unfolding run
  run_all [] c = c
  run_all (o ∷ os) c = run_all os (run o c)

  -- The bus holds no name, and has the connection in the queue for none, that is not in names.
  abbrev Known : Connection bus → Type 0
  Known c = (m : String) → holds m c.state ≡ true → listed m c.names ≡ true

  branches :
      (refused : Bool) (e : Option Error) (matched : Connection bus × Option Error)
      (named : Connection bus)
      → (refused ≡ true → Known named)
      → Known matched.0
      → Known
          (if refused
            then elim e [ none ↦ matched | some error ↦ (named, some error) ]
            else matched).0
  branches true none matched named f g = g
  branches true (some error) matched named f g = f refl
  branches false e matched named f g = g

  request_name-Known :
      (n : String) (flags : ℕ) (c : Connection bus) → Known c → Known (request_name bus n flags c).0
  unfolding request_name add_match
  request_name-Known n flags c h =
      let after = bus.request_name n flags c.state in
      let known_or_new : (m : String)
          → holds m after.0 ≡ true
          → (holds m c.state ≡ true) ⊎ ((m ≡ n) × (after.1 ≡ false)) =
        λ m held. elim (Bool-cases (holds m c.state)) [
          | inl old ↦ inl old
          | inr new ↦ inr (bus.holds-request_name m n flags c.state held new)
        ] in
      branches after.1 after.2 _ _
        (λ refused m held. elim (known_or_new m held) [
          | inl old ↦ h m old
          | inr new ↦ absurd (ground (arith, refused, new.1))
        ])
        (λ m held. elim (known_or_new m (bus.holds-add_match m _ after.0 held)) [
          | inl old ↦ rw (listed-push_back m c.names n, h m old) refl
          | inr new ↦
              let l = listed-push_back m c.names n in
              let q = eq_iff m n in ground (arith, l, q, new.0)
        ])

  run-Known : (o : Operation) (c : Connection bus) → Elsewhere o → Known c → Known (run o c)
  unfolding run add_match remove_match send send_blocking set_timeout
  run-Known (requests n flags) c e h m held = request_name-Known n flags c h m held
  run-Known (adds_match rule) c e h m held = h m (bus.holds-add_match m rule c.state held)
  run-Known (removes_match rule throw) c e h m held =
      h m (bus.holds-remove_match m rule c.state held)
  run-Known (sends call) c e h m held = h m (bus.holds-send m call c.state e held)
  run-Known (sends_blocking call t) c e h m held =
      h m (bus.holds-send_with_reply_and_block m call _ c.state e held)
  run-Known (sets_timeout t) c e h m held = h m held

  run_all-Known :
      (os : List Operation) (c : Connection bus) → AllElsewhere os → Known c → Known (run_all os c)
  unfolding run_all
  run_all-Known [] c e h = h
  run_all-Known (o ∷ os) c (e, es) h = run_all-Known os (run o c) es (run-Known o c e h)

  holds-release_all :
      (m : String) (names : List String) (s : State)
      → AllReleased names s
      → holds m (release_all bus names s) ≡ true
      → (holds m s ≡ true) × (listed m names ≡ false)
  unfolding release_all listed
  holds-release_all m [] s h held = (held, refl)
  holds-release_all m (n ∷ names) s (h, hs) held =
      let (after, unlisted) = holds-release_all m names (bus.release_name n s).0 hs held in
      let (before, differs) = bus.holds-release_name m n s h after in
      (before, rw (listed, differs) unlisted)

  -- Whatever a program has done with a connection to which the bus gave no name before, the
  -- errors that it met included, but for calls that it sent to the bus itself: the bus holds no
  -- name for it after the destructor, if the connection was still open then and no release of the
  -- names that it keeps fails. Nor is the connection in the queue for one.
  pub destroy-run_all :
      (os : List Operation) (s : State) (m : String)
      → ((n : String) → holds n s ≡ false)
      → AllElsewhere os
      → bus.is_connected (run_all os (new_connection bus s)).state ≡ true
      → AllReleased
          (run_all os (new_connection bus s)).names
          (run_all os (new_connection bus s)).state
      → holds m (destroy bus (run_all os (new_connection bus s))) ≡ false
  unfolding destroy new_connection
  destroy-run_all os s m nothing elsewhere connected released =
      let c = run_all os (new_connection bus s) in
      let known =
        run_all-Known os (new_connection bus s) elsewhere
          (λ n held. absurd (ground (arith, nothing n, held))) m in
      let last = release_all bus c.names c.state in
      let last_state : destroy bus c ≡ bus.unref (bus.close last) = rw (destroy, connected) refl in
      elim (Bool-cases (holds m (destroy bus c))) [
        | inr gone ↦ gone
        | inl held ↦
            let left = bus.holds-unref m (bus.close last) (sym (ap (holds m) last_state) ∙ held) in
            let (before, unlisted) =
              holds-release_all m c.names c.state released (bus.holds-close m last left) in
            absurd (let listed_too = known before in cc)
      ]
