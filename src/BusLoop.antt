-- ===== src/BusLoop.antt =====
-- src/eventloop-integration.cpp: the watches and the timeouts of libdbus in the default event loop
-- (EventLoop), their flags, and one iteration with the queue of connections (Dispatcher). What
-- libdbus keeps for a watch or a timeout is what its functions give for it. The pipes of the same
-- file are in Pipe/Session.
pub mod Flags
pub mod Mirror
mod Examples
use Prim.Native.Nat.{bit_and, bit_or}
use dbus_cplusplus.Common.{
  ℕ, Bool, true, false, not, List, [], ◌∷◌, ◌++◌, map, Option, none, some, ◌==◌, if◌then◌else◌,
}
use dbus_cplusplus.Dispatcher.{Libdbus, Dispatcher, dispatch_pending}
use dbus_cplusplus.EventLoop.{
  DefaultWatch, DefaultTimeout, DefaultMainLoop, PollFd, Call, add_watch, add_timeout, dispatch,
}

-- DBusWatchFlags of dbus-connection.h
abbrev pub watch_readable : ℕ
watch_readable = 1

abbrev pub watch_writable : ℕ
watch_writable = 2

abbrev pub watch_error : ℕ
watch_error = 4

abbrev pub watch_hangup : ℕ
watch_hangup = 8

-- poll.h
abbrev pub pollin : ℕ
pollin = 1

abbrev pub pollout : ℕ
pollout = 4

abbrev pub pollerr : ℕ
pollerr = 8

abbrev pub pollhup : ℕ
pollhup = 16

abbrev pub has : ℕ → ℕ → Bool
has flags bit = not (bit_and flags bit == 0)

abbrev pub with_bit : Bool → ℕ → ℕ → ℕ
with_bit wanted bit flags = if wanted then bit_or flags bit else flags

-- The events that BusWatch::BusWatch asks poll for
unfoldable pub poll_flags : ℕ → ℕ
poll_flags flags =
    with_bit (has flags watch_writable) pollout
      (with_bit (has flags watch_readable) pollin (bit_or pollhup pollerr))

-- The flags that BusDispatcher::watch_ready gives to libdbus
unfoldable pub ready_flags : ℕ → ℕ
ready_flags state = with_bit (has state pollerr) watch_error (
    with_bit (has state pollhup) watch_hangup
      (with_bit (has state pollout) watch_writable (with_bit (has state pollin) watch_readable 0)))

-- Watch::Internal and Timeout::Internal: the address of the object that is made for it, and what
-- libdbus says of it.
pub record LibWatch : Type 0 where
  pub name : ℕ
  pub descriptor : ℕ
  pub flags : ℕ
  pub enabled : Bool

pub record LibTimeout : Type 0 where
  pub name : ℕ
  pub interval : ℕ
  pub enabled : Bool

-- DefaultWatch::enabled(bool), DefaultWatch::flags(int) and DefaultTimeout::enabled(bool)
unfoldable pub set_enabled : ℕ → Bool → List DefaultWatch → List DefaultWatch
set_enabled name enabled [] = []
set_enabled name enabled (w ∷ ws) =
    (if w.name == name then record w { enabled = enabled } else w) ∷ set_enabled name enabled ws

unfoldable pub set_flags : ℕ → ℕ → List DefaultWatch → List DefaultWatch
set_flags name flags [] = []
set_flags name flags (w ∷ ws) =
    (if w.name == name then record w { flags = flags } else w) ∷ set_flags name flags ws

unfoldable pub set_timeout_enabled : ℕ → Bool → List DefaultTimeout → List DefaultTimeout
set_timeout_enabled name enabled [] = []
set_timeout_enabled name enabled (t ∷ ts) =
    (if t.name == name then record t { enabled = enabled } else t)
    ∷ set_timeout_enabled name enabled ts

-- _watches.remove(this) and _timeouts.remove(this) of the destructors
unfoldable pub remove_watch : ℕ → List DefaultWatch → List DefaultWatch
remove_watch name [] = []
remove_watch name (w ∷ ws) =
    let rest = remove_watch name ws in if w.name == name then rest else w ∷ rest

unfoldable pub remove_timeout : ℕ → List DefaultTimeout → List DefaultTimeout
remove_timeout name [] = []
remove_timeout name (t ∷ ts) =
    let rest = remove_timeout name ts in if t.name == name then rest else t ∷ rest

-- BusDispatcher::add_watch, with BusWatch::BusWatch
unfoldable pub add_bus_watch : LibWatch → DefaultMainLoop → DefaultMainLoop
unfolding add_watch set_flags set_enabled poll_flags
add_bus_watch wi loop =
    let added = add_watch wi.name wi.descriptor 0 loop in
    record added {
      watches =
          set_enabled wi.name wi.enabled (set_flags wi.name (poll_flags wi.flags) added.watches);
    }

-- BusWatch::toggle
unfoldable pub toggle_watch : LibWatch → DefaultMainLoop → DefaultMainLoop
unfolding set_enabled
toggle_watch wi loop = record loop { watches = set_enabled wi.name wi.enabled loop.watches }

-- BusDispatcher::rem_watch
unfoldable pub rem_watch : ℕ → DefaultMainLoop → DefaultMainLoop
unfolding remove_watch
rem_watch name loop = record loop { watches = remove_watch name loop.watches }

-- BusDispatcher::add_timeout, with BusTimeout::BusTimeout, at time `now`
unfoldable pub add_bus_timeout : ℕ → LibTimeout → DefaultMainLoop → DefaultMainLoop
unfolding add_timeout set_timeout_enabled
add_bus_timeout now ti loop =
    let added = add_timeout now ti.name ti.interval true loop in
    record added { timeouts = set_timeout_enabled ti.name ti.enabled added.timeouts }

-- BusTimeout::toggle
unfoldable pub toggle_timeout : LibTimeout → DefaultMainLoop → DefaultMainLoop
unfolding set_timeout_enabled
toggle_timeout ti loop = record loop {
  timeouts = set_timeout_enabled ti.name ti.enabled loop.timeouts;
}

-- BusDispatcher::rem_timeout
unfoldable pub rem_timeout : ℕ → DefaultMainLoop → DefaultMainLoop
unfolding remove_timeout
rem_timeout name loop = record loop { timeouts = remove_timeout name loop.timeouts }

-- watch_ready for each call: the watch and the flags that dbus_watch_handle gets
unfoldable pub watches_ready : List Call → List (ℕ × ℕ)
unfolding ready_flags
watches_ready [] = []
watches_ready ((name, state) ∷ calls) = (name, ready_flags state) ∷ watches_ready calls

module _ {W : Type 0} (lib : Libdbus W) where
  -- BusDispatcher::do_iteration: the dispatcher and the loop after it, the timeouts and the watches
  -- that libdbus is told of. `pipe_fds` are those of pipe_list; `none` is for too little fuel.
  unfoldable pub do_iteration :
      ℕ
      → (List PollFd → ℕ → List PollFd)
      → ℕ
      → List ℕ
      → Dispatcher W
      → DefaultMainLoop
      → Option (Dispatcher W × DefaultMainLoop × List ℕ × List (ℕ × ℕ))
  unfolding dispatch watches_ready
  do_iteration fuel poll now pipe_fds d loop = elim (dispatch_pending lib fuel d) [
    | none ↦ none
    | some after ↦
        let (round, expired, calls) = dispatch poll now pipe_fds loop in
        some (after, round, expired, watches_ready calls)
  ]
