-- ===== src/EventLoop.antt =====
-- src/eventloop.cpp: one round of the default event loop. Watches and timeouts are kept by value,
-- in the order of the lists, with their address as a name. A callback (`ready`, `expired`) is
-- recorded as a call; what it does itself is not modelled, so that it adds and removes nothing.
-- Times are in microseconds, where the code has milliseconds with a fraction.
pub mod Wait
pub mod Timers
pub mod Readiness
mod Examples
use dbus_cplusplus.Common.{
  ℕ, ◌+◌, ◌*◌, Bool, true, false, not, ◌&&◌, List, [], ◌∷◌, ◌++◌, map, Option, none, some, length,
  ltb, leb, ◌==◌, if◌then◌else◌,
}

pub record DefaultWatch : Type 0 where
  pub name : ℕ
  pub enabled : Bool
  pub fd : ℕ
  pub flags : ℕ
  pub state : ℕ

pub record DefaultTimeout : Type 0 where
  pub name : ℕ
  pub enabled : Bool
  pub interval : ℕ
  pub repeat : Bool
  pub expiration : ℕ

-- `fdunlock` is _fdunlock[0], if _fdunlock is set.
pub record DefaultMainLoop : Type 0 where
  pub watches : List DefaultWatch
  pub timeouts : List DefaultTimeout
  pub fdunlock : Option ℕ

pub record PollFd : Type 0 where
  pub fd : ℕ
  pub events : ℕ
  pub revents : ℕ

abbrev pub millis : ℕ → ℕ
millis interval = 1000 * interval

-- DefaultTimeout::DefaultTimeout at time `now`
unfoldable pub add_timeout : ℕ → ℕ → ℕ → Bool → DefaultMainLoop → DefaultMainLoop
add_timeout now name interval repeat loop = record loop {
  timeouts =
      loop.timeouts
      ++ record {
        name = name;
        enabled = true;
        interval = interval;
        repeat = repeat;
        expiration = now + millis interval;
      }
        ∷ [];
}

-- DefaultWatch::DefaultWatch
unfoldable pub add_watch : ℕ → ℕ → ℕ → DefaultMainLoop → DefaultMainLoop
add_watch name fd flags loop = record loop {
  watches =
      loop.watches
      ++ record { name = name; enabled = true; fd = fd; flags = flags; state = 0 } ∷ [];
}

-- POLLIN, POLLPRI, POLLOUT and POLLRDHUP of poll.h, in sums
abbrev pub unlock_events : ℕ
unlock_events = 1 + 4 + 2

abbrev pub pipe_events : ℕ
pipe_events = 1 + 2 + 8192

-- int nfd = ...; pollfd fds[nfd];
unfoldable pub array_size : DefaultMainLoop → List ℕ → ℕ
array_size loop pipe_fds =
    length loop.watches + elim loop.fdunlock [ none ↦ 0 | some fd ↦ 2 ] + length pipe_fds

unfoldable pub watch_fds : List DefaultWatch → List PollFd
watch_fds [] = []
watch_fds (w ∷ ws) =
    if w.enabled
    then record { fd = w.fd; events = w.flags; revents = 0 } ∷ watch_fds ws
    else watch_fds ws

unfoldable pub unlock_fds : Option ℕ → List PollFd
unlock_fds none = []
unlock_fds (some fd) = record { fd = fd; events = unlock_events; revents = 0 } ∷ []

-- What the code writes to `fds`, from its start.
unfoldable pub poll_fds : DefaultMainLoop → List ℕ → List PollFd
unfolding watch_fds unlock_fds
poll_fds loop pipe_fds =
    watch_fds loop.watches
    ++ (unlock_fds loop.fdunlock
        ++ map (λ fd. record { fd = fd; events = pipe_events; revents = 0 }) pipe_fds)

-- The loop that lowers wait_min.
unfoldable pub lower : ℕ → List DefaultTimeout → ℕ
lower wait_min [] = wait_min
lower wait_min (t ∷ ts) =
    lower (if t.enabled && ltb t.interval wait_min then t.interval else wait_min) ts

unfoldable pub wait_min : DefaultMainLoop → ℕ
unfolding lower
wait_min loop = lower 10000 loop.timeouts

abbrev pub is_due : ℕ → DefaultTimeout → Bool
is_due now t = t.enabled && leb t.expiration now

abbrev pub rearm : ℕ → DefaultTimeout → DefaultTimeout
rearm now t = if t.repeat then record t { expiration = now + millis t.interval } else t

-- The loop over _timeouts at time `now`: the timeouts after it, and those that expired.
unfoldable pub expire : ℕ → List DefaultTimeout → List DefaultTimeout × List ℕ
expire now [] = ([], [])
expire now (t ∷ ts) =
    let (ts', expired) = expire now ts in
    if is_due now t then (rearm now t ∷ ts', t.name ∷ expired) else (t ∷ ts', expired)

abbrev pub Call : Type 0
Call = ℕ × ℕ

-- The inner loop, for one element of `fds`: the watches after it, and the calls of `ready` with the
-- state that they see. A call sets revents to 0.
unfoldable pub scan : ℕ → ℕ → List DefaultWatch → List DefaultWatch × List Call
scan fd revents [] = ([], [])
scan fd revents (w ∷ ws) = elim (w.enabled && w.fd == fd && not (revents == 0)) [
  | true ↦
      let (ws', calls) = scan fd 0 ws in
      (record w { state = revents } ∷ ws', (w.name, revents) ∷ calls)
  | false ↦ let (ws', calls) = scan fd revents ws in (w ∷ ws', calls)
]

unfoldable pub serve : List PollFd → List DefaultWatch → List DefaultWatch × List Call
unfolding scan
serve [] ws = (ws, [])
serve (p ∷ ps) ws =
    let (ws', calls) = scan p.fd p.revents ws in
    let (ws'', calls') = serve ps ws' in (ws'', calls ++ calls')

-- DefaultMainLoop::dispatch. `poll` is the system's, and `now` the time after it.
unfoldable pub dispatch :
    (List PollFd → ℕ → List PollFd)
    → ℕ
    → List ℕ
    → DefaultMainLoop
    → DefaultMainLoop × List ℕ × List Call
unfolding poll_fds wait_min expire serve
dispatch poll now pipe_fds loop =
    let fds = poll (poll_fds loop pipe_fds) (wait_min loop) in
    let (timeouts, expired) = expire now loop.timeouts in
    let (watches, calls) = serve fds loop.watches in
    (record loop { watches = watches; timeouts = timeouts }, expired, calls)
