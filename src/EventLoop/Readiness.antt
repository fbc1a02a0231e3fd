-- ===== src/EventLoop/Readiness.antt =====
-- Which watches are told of which events (DefaultMainLoop::dispatch, src/eventloop.cpp).
use dbus_cplusplus.Common.{
  ℕ, ◌≡◌, refl, ap₂, ◌∙◌, Bool, true, false, not, ◌&&◌, List, [], ◌∷◌, ◌++◌, ◌==◌, arith,
  if◌then◌else◌, Bool-cases, inl, inr,
}
use dbus_cplusplus.EventLoop.{
  DefaultWatch, DefaultMainLoop, PollFd, Call, scan, serve, dispatch, poll_fds, wait_min, is_due,
}
use dbus_cplusplus.EventLoop.Timers.{names_of, expire-expire}

abbrev pub tells : PollFd → DefaultWatch → Bool
tells p w = w.enabled && w.fd == p.fd && not (p.revents == 0)

-- What is told of one element of `fds`: its events, if any, to the first watch in the list that is
-- enabled and has the descriptor.
abbrev pub told : PollFd → List DefaultWatch → List Call
told p [] = []
told p (w ∷ ws) = if tells p w then (w.name, p.revents) ∷ [] else told p ws

abbrev pub all_told : List PollFd → List DefaultWatch → List Call
all_told [] ws = []
all_told (p ∷ ps) ws = told p ws ++ all_told ps ws

-- An element of `fds` without events changes nothing.
scan_idle : (fd : ℕ) (ws : List DefaultWatch) → scan fd 0 ws ≡ (ws, [])
unfolding scan
scan_idle fd [] = refl
scan_idle fd (w ∷ ws) = rw (scan, idle w.enabled (w.fd == fd), scan_idle fd ws) refl
  where
    idle : (a b : Bool) → (a && b && false) ≡ false
    idle true true = refl
    idle true false = refl
    idle false b = refl

-- Watches that differ at most in the state that they were last told.
abbrev pub SameBut : List DefaultWatch → List DefaultWatch → Type 0
SameBut [] [] = Unit {0}
SameBut [] (v ∷ vs) = ⊥
SameBut (w ∷ ws) [] = ⊥
SameBut (w ∷ ws) (v ∷ vs) =
    (w.name ≡ v.name)
    × (w.enabled ≡ v.enabled)
    × (w.fd ≡ v.fd)
    × (w.flags ≡ v.flags)
    × SameBut ws vs

SameBut-refl : (ws : List DefaultWatch) → SameBut ws ws
SameBut-refl [] = tt
SameBut-refl (w ∷ ws) = (refl, refl, refl, refl, SameBut-refl ws)

SameBut-trans : (us vs ws : List DefaultWatch) → SameBut us vs → SameBut vs ws → SameBut us ws
SameBut-trans [] [] [] h k = tt
SameBut-trans [] [] (w ∷ ws) h k = absurd k
SameBut-trans [] (v ∷ vs) ws h k = absurd h
SameBut-trans (u ∷ us) [] ws h k = absurd h
SameBut-trans (u ∷ us) (v ∷ vs) [] h k = absurd k
SameBut-trans (u ∷ us) (v ∷ vs) (w ∷ ws) (a, b, c, d, h) (a', b', c', d', k) =
    (a ∙ a', b ∙ b', c ∙ c', d ∙ d', SameBut-trans us vs ws h k)

told-SameBut : (p : PollFd) (ws vs : List DefaultWatch) → SameBut ws vs → told p ws ≡ told p vs
told-SameBut p [] [] h = refl
told-SameBut p [] (v ∷ vs) h = absurd h
told-SameBut p (w ∷ ws) [] h = absurd h
told-SameBut p (w ∷ ws) (v ∷ vs) (names, enableds, fds, flags, h) =
    ground (arith, told-SameBut p ws vs h)

all_told-SameBut :
    (ps : List PollFd) (ws vs : List DefaultWatch) → SameBut ws vs → all_told ps ws ≡ all_told ps vs
all_told-SameBut [] ws vs h = refl
all_told-SameBut (p ∷ ps) ws vs h =
    ap₂ (λ a b. a ++ b) (told-SameBut p ws vs h) (all_told-SameBut ps ws vs h)

-- One pass over the watches tells the first that is enabled and has the descriptor, and no other.
scan-told :
    (p : PollFd) (ws : List DefaultWatch)
    → ((scan p.fd p.revents ws).1 ≡ told p ws) × SameBut (scan p.fd p.revents ws).0 ws
unfolding scan
scan-told p [] = (refl, tt)
scan-told p (w ∷ ws) = elim (Bool-cases (tells p w)) [
  | inl k ↦ rw (scan, k, scan_idle p.fd ws) (refl, (refl, refl, refl, refl, SameBut-refl ws))
  | inr k ↦
      let (calls, same) = scan-told p ws in rw (scan, k) (calls, (refl, refl, refl, refl, same))
]

serve-told :
    (ps : List PollFd) (ws vs : List DefaultWatch)
    → SameBut ws vs
    → ((serve ps ws).1 ≡ all_told ps vs) × SameBut (serve ps ws).0 vs
unfolding serve
serve-told [] ws vs h = (refl, h)
serve-told (p ∷ ps) ws vs h =
    let (calls, same) = scan-told p ws in
    let (rest, same') =
      serve-told ps (scan p.fd p.revents ws).0 vs
        (SameBut-trans (scan p.fd p.revents ws).0 ws vs same h) in
    (ap₂ (λ a b. a ++ b) (calls ∙ told-SameBut p ws vs h) rest, same')

-- In a round the events of each element that poll filled in are told once, to the first watch in the
-- list that is enabled and has the descriptor, and to no other; if there is none, or no event,
-- nobody is told. The watches stay the same but for the state, and the timeouts that expire are
-- those enabled whose time has come.
pub dispatch-told :
    (poll : List PollFd → ℕ → List PollFd) (now : ℕ) (pipe_fds : List ℕ) (loop : DefaultMainLoop)
    → let (loop', expired, calls) = dispatch poll now pipe_fds loop in
      (calls ≡ all_told (poll (poll_fds loop pipe_fds) (wait_min loop)) loop.watches)
      × SameBut loop'.watches loop.watches
      × (expired ≡ names_of (is_due now) loop.timeouts)
unfolding dispatch
dispatch-told poll now pipe_fds loop =
    let (calls, same) =
      serve-told (poll (poll_fds loop pipe_fds) (wait_min loop)) loop.watches loop.watches
        (SameBut-refl loop.watches) in
    (calls, same, (expire-expire now now loop.timeouts (omega arith)).0)
