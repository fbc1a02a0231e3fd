-- ===== src/Connection.antt =====
-- src/connection.cpp: what a Connection keeps, its names and its timeout, and what it asks of
-- libdbus and of the bus, which are a record of operations and of their laws.
pub mod Names
mod Examples
use text.Mathlib.Text.{◌==◌}
use Prim.Native.String.{◌++◌}
use dbus_cplusplus.Common.{
  ℕ, zero, suc, ◌≡◌, ◌≢◌, String, Bool, true, false, not, ◌&&◌, List, [], ◌∷◌, Option, none, some,
  if◌then◌else◌,
}

-- names.push_back(name)
unfoldable pub push_back : List String → String → List String
push_back [] name = name ∷ []
push_back (n ∷ names) name = n ∷ push_back names name

-- An int, as a timeout is given.
pub data ℤ : Type 0 where
  pos : ℕ → ℤ
  negsuc : ℕ → ℤ

abbrev pub minus_one : ℤ
minus_one = negsuc 0

abbrev pub is_minus_one : ℤ → Bool
is_minus_one (pos n) = false
is_minus_one (negsuc zero) = true
is_minus_one (negsuc (suc n)) = false

-- Error: a name and a message
abbrev pub Error : Type 0
Error = String × String

-- A method call as it is sent.
pub record Call : Type 0 where
  pub path : Option String
  pub destination : Option String
  pub interface : Option String
  pub member : String

-- DBUS_SERVICE_DBUS
abbrev pub bus_name : String
bus_name = "org.freedesktop.DBus"

-- The call is for a service other than the bus.
abbrev pub ToService : Call → Type 0
ToService c = (d : String) × (c.destination ≡ some d) × (d ≢ bus_name)

-- What libdbus and the bus do, for one connection; a reply is not looked into.
pub record Bus : Type 1 where
  pub State : Type 0
  pub Reply : Type 0
  -- dbus_bus_request_name: whether it returned -1, and the error
  pub request_name : String → ℕ → State → State × Bool × Option Error
  -- dbus_bus_release_name: whether it returned -1
  pub release_name : String → State → State × Bool
  pub add_match : String → State → State × Option Error
  pub remove_match : String → State → State × Option Error
  pub add_filter : ℕ → State → State × Bool
  pub remove_filter : ℕ → State → State
  pub send : Call → State → State × Bool
  pub send_with_reply_and_block : Call → ℤ → State → State × Option Error × Reply
  pub is_connected : State → Bool
  pub close : State → State
  pub unref : State → State
  -- The names that the bus holds for the connection, or has it in the queue for.
  pub holds : String → State → Bool
  -- What the operations do to these: a request may give the name that was asked for, unless it is
  -- refused, and no other; others may take a name away at any time.
  pub holds-request_name :
      (m n : String) (flags : ℕ) (s : State)
      → holds m (request_name n flags s).0 ≡ true
      → holds m s ≡ false
      → (m ≡ n) × ((request_name n flags s).1 ≡ false)
  -- A release takes the name away, unless it fails.
  pub holds-release_name :
      (m n : String) (s : State)
      → (release_name n s).1 ≡ false
      → holds m (release_name n s).0 ≡ true
      → (holds m s ≡ true) × ((m == n) ≡ false)
  pub holds-add_match :
      (m r : String) (s : State) → holds m (add_match r s).0 ≡ true → holds m s ≡ true
  pub holds-remove_match :
      (m r : String) (s : State) → holds m (remove_match r s).0 ≡ true → holds m s ≡ true
  -- Names are asked for and given back by calls to the bus itself, and by no others.
  pub holds-send :
      (m : String) (c : Call) (s : State)
      → ToService c
      → holds m (send c s).0 ≡ true
      → holds m s ≡ true
  pub holds-send_with_reply_and_block :
      (m : String) (c : Call) (t : ℤ) (s : State)
      → ToService c
      → holds m (send_with_reply_and_block c t s).0 ≡ true
      → holds m s ≡ true
  pub holds-close : (m : String) (s : State) → holds m (close s) ≡ true → holds m s ≡ true
  pub holds-unref : (m : String) (s : State) → holds m (unref s) ≡ true → holds m s ≡ true

module _ (bus : Bus) where
  open bus use {
    State, Reply, request_name as ask_name, release_name, add_match as ask_match,
    remove_match as drop_match, send as pass_on, send_with_reply_and_block, is_connected, close,
    unref,
  }

  -- Connection and Connection::Private
  pub record Connection : Type 0 where
    pub names : List String
    pub timeout : ℤ
    pub state : State

  -- Connection::Connection
  unfoldable pub new_connection : State → Connection
  new_connection s = record { names = []; timeout = minus_one; state = s }

  -- Connection::add_match, with what it throws
  unfoldable pub add_match : String → Connection → Connection × Option Error
  add_match rule c = let (s, e) = ask_match rule c.state in (record c { state = s }, e)

  -- Connection::remove_match
  unfoldable pub remove_match : String → Bool → Connection → Connection × Option Error
  remove_match rule throw_on_error c =
      let (s, e) = drop_match rule c.state in
      (record c { state = s }, if throw_on_error then e else none)

  -- Connection::request_name, where the name is no null pointer
  unfoldable pub request_name : String → ℕ → Connection → Connection × Option Error
  unfolding add_match push_back
  request_name name flags c =
      let (s, refused, e) = ask_name name flags c.state in
      let named = record c { names = push_back c.names name; state = s } in
      let matched = add_match ("destination='" ++ name ++ "'") named in
      if refused
      then elim e [ none ↦ matched | some error ↦ (record c { state = s }, some error) ]
      else matched

  -- Connection::set_timeout
  unfoldable pub set_timeout : ℤ → Connection → Connection
  set_timeout timeout c = record c { timeout = timeout }

  -- Connection::send
  unfoldable pub send : Call → Connection → Connection × Bool
  send msg c = let (s, sent) = pass_on msg c.state in (record c { state = s }, sent)

  -- Connection::send_blocking
  unfoldable pub send_blocking : Call → ℤ → Connection → Connection × Option Error × Reply
  send_blocking msg timeout c =
      let t = if not (is_minus_one c.timeout) then c.timeout else timeout in
      let (s, e, reply) = send_with_reply_and_block msg t c.state in
      (record c { state = s }, e, reply)

  -- The loop of Connection::Private::~Private, which does not look at what a release returns
  unfoldable pub release_all : List String → State → State
  release_all [] s = s
  release_all (n ∷ names) s = release_all names (release_name n s).0

  -- Connection::Private::~Private
  unfoldable pub destroy : Connection → State
  unfolding release_all
  destroy c = unref (if is_connected c.state then close (release_all c.names c.state) else c.state)
