-- ===== src/EventLoop/Wait.antt =====
-- The array of poll, and how long it may wait (DefaultMainLoop::dispatch, src/eventloop.cpp).
use mathlib.Core.List.{Mem, mem-cons, mem-cons_self, not-mem-nil, mem-cons_of_mem}
use mathlib.Core.Logic.Or
use native.Mathlib.Bridge.{le_prop}
use dbus_cplusplus.Common.{
  ℕ, ◌≤◌, ◌≡◌, refl, sym, subst, ◌∙◌, true, false, ◌&&◌, List, [], ◌∷◌, ◌++◌, map, Option, none,
  some, length, length-append, ltb, arith, if◌then◌else◌, Bool-cases, ◌⊎◌, inl, inr,
}
use dbus_cplusplus.EventLoop.{
  DefaultWatch, DefaultTimeout, DefaultMainLoop, PollFd, array_size, watch_fds, unlock_fds,
  poll_fds, pipe_events, lower, wait_min,
}

length-watch_fds : (ws : List DefaultWatch) → length (watch_fds ws) ≤ length ws
unfolding watch_fds
length-watch_fds [] = omega arith
length-watch_fds (w ∷ ws) = ground (arith, length-watch_fds ws)

length-map {ℓ κ} :
    {A : Type ℓ} {B : Type κ} (f : A → B) (xs : List A) → length (map f xs) ≡ length xs
length-map f [] = refl
length-map f (x ∷ xs) = omega (arith, length-map f xs)

length-unlock_fds :
    (o : Option ℕ) → length (unlock_fds o) ≤ elim o as (λ x. ℕ) [ none ↦ 0 | some fd ↦ 2 ]
unfolding unlock_fds
length-unlock_fds none = omega arith
length-unlock_fds (some fd) = omega arith

-- The writes to `fds` stay inside the array, whatever watches are enabled and whether or not there
-- is a descriptor to unlock the loop.
pub length-poll_fds :
    (loop : DefaultMainLoop) (pipe_fds : List ℕ)
    → length (poll_fds loop pipe_fds) ≤ array_size loop pipe_fds
unfolding poll_fds array_size
length-poll_fds loop pipe_fds = omega (
  arith,
  length-append (watch_fds loop.watches) (
      unlock_fds loop.fdunlock
      ++ map (λ fd. record { fd = fd; events = pipe_events; revents = 0 }) pipe_fds),
  length-append (unlock_fds loop.fdunlock)
      (map (λ fd. record { fd = fd; events = pipe_events; revents = 0 }) pipe_fds),
  length-watch_fds loop.watches,
  length-unlock_fds loop.fdunlock,
  length-map {B = PollFd} (λ fd. record { fd = fd; events = pipe_events; revents = 0 }) pipe_fds,
)

-- The least of a bound and the intervals of the timeouts that are enabled.
abbrev pub IsLeast : ℕ → List DefaultTimeout → ℕ → Type 0
IsLeast bound ts wait =
    (wait ≤ bound)
    × ((t : DefaultTimeout) → Mem t ts → t.enabled ≡ true → wait ≤ t.interval)
    × ((wait ≡ bound)
        ⊎ ((t : DefaultTimeout) × Mem t ts × (t.enabled ≡ true) × (t.interval ≡ wait)))

-- A timeout in front of others, which lowers the bound to `b`.
IsLeast-cons :
    (bound b wait : ℕ) (t : DefaultTimeout) (ts : List DefaultTimeout)
    → b ≤ bound
    → (t.enabled ≡ true → b ≤ t.interval)
    → (b ≡ bound) ⊎ ((t.enabled ≡ true) × (t.interval ≡ b))
    → IsLeast b ts wait
    → IsLeast bound (t ∷ ts) wait
IsLeast-cons bound b wait t ts low every which (below, all, attained) = (
  omega (arith, below, low),
  λ u m on.
      Or.elim le_prop (mem-cons.0 m)
        (λ e. at_head u (subst (λ v. v.enabled ≡ true → b ≤ v.interval) (sym e) every on))
        (λ k. all u k on),
  attained_by which attained,
)
  where
    at_head : (u : DefaultTimeout) → b ≤ u.interval → wait ≤ u.interval
    at_head u h = omega (arith, below, h)

    Attained : Type 0
    Attained =
        (wait ≡ bound)
        ⊎ ((u : DefaultTimeout) × Mem u (t ∷ ts) × (u.enabled ≡ true) × (u.interval ≡ wait))

    attained_by :
        ((b ≡ bound) ⊎ ((t.enabled ≡ true) × (t.interval ≡ b)))
        → ((wait ≡ b)
            ⊎ ((u : DefaultTimeout) × Mem u ts × (u.enabled ≡ true) × (u.interval ≡ wait)))
        → Attained
    attained_by which (inr (u, m, on, e)) = inr (u, mem-cons_of_mem t m, on, e)
    attained_by (inl e) (inl k) = inl (k ∙ e)
    attained_by (inr (on, e)) (inl k) = inr (t, mem-cons_self, on, e ∙ sym k)

lower-IsLeast : (bound : ℕ) (ts : List DefaultTimeout) → IsLeast bound ts (lower bound ts)
unfolding lower
lower-IsLeast bound [] = (omega arith, λ t m. absurd (not-mem-nil m), inl refl)
lower-IsLeast bound (t ∷ ts) =
    let b : ℕ = if t.enabled && ltb t.interval bound then t.interval else bound in
    IsLeast-cons bound b (lower b ts) t ts (ground arith) (ground arith)
      (chosen (Bool-cases (t.enabled && ltb t.interval bound))) (lower-IsLeast b ts)
  where
    chosen :
        (((t.enabled && ltb t.interval bound) ≡ true)
          ⊎ ((t.enabled && ltb t.interval bound) ≡ false))
        → ((if t.enabled && ltb t.interval bound then t.interval else bound) ≡ bound)
          ⊎ ((t.enabled ≡ true)
              × (t.interval ≡ (if t.enabled && ltb t.interval bound then t.interval else bound)))
    chosen (inl k) = rw k (inr (ground arith, refl))
    chosen (inr k) = rw k (inl refl)

-- poll waits for ten seconds, or for the least interval of the timeouts that are enabled if that is
-- less.
pub wait_min-IsLeast : (loop : DefaultMainLoop) → IsLeast 10000 loop.timeouts (wait_min loop)
unfolding wait_min
wait_min-IsLeast loop = lower-IsLeast 10000 loop.timeouts
