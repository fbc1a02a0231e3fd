-- ===== src/BusLoop/Mirror.antt =====
-- The watches of the event loop against those of libdbus (src/eventloop-integration.cpp,
-- src/eventloop.cpp).
use dbus_cplusplus.Common.{
  ℕ, ◌≡◌, refl, ap, ◌∙◌, inl, inr, true, false, not, ◌&&◌, List, [], ◌∷◌, ◌++◌, ◌==◌, ==_iff,
  if◌then◌else◌, Bool-cases,
}
use dbus_cplusplus.EventLoop.{
  DefaultWatch, DefaultMainLoop, PollFd, add_watch, watch_fds, scan, serve, dispatch, poll_fds,
  wait_min,
}
use dbus_cplusplus.BusLoop.{
  LibWatch, poll_flags, set_enabled, set_flags, remove_watch, add_bus_watch, toggle_watch,
  rem_watch,
}

-- What libdbus has: the watches that it added and did not remove, as it toggled them last.
unfoldable pub toggled : LibWatch → List LibWatch → List LibWatch
toggled wi [] = []
toggled wi (v ∷ vs) =
    (if v.name == wi.name then record v { enabled = wi.enabled } else v) ∷ toggled wi vs

unfoldable pub removed : ℕ → List LibWatch → List LibWatch
removed name [] = []
removed name (v ∷ vs) = let rest = removed name vs in if v.name == name then rest else v ∷ rest

-- What poll is to be asked for them
unfoldable pub wanted_fds : List LibWatch → List PollFd
wanted_fds [] = []
wanted_fds (v ∷ vs) =
    if v.enabled
    then record { fd = v.descriptor; events = poll_flags v.flags; revents = 0 } ∷ wanted_fds vs
    else wanted_fds vs

-- A watch of the loop stands for one of libdbus; its state is what poll said of it last.
abbrev pub Shows : LibWatch → DefaultWatch → Type 0
Shows v w =
    (w.name ≡ v.name)
    × (w.fd ≡ v.descriptor)
    × (w.flags ≡ poll_flags v.flags)
    × (w.enabled ≡ v.enabled)

abbrev pub Mirrors : List LibWatch → List DefaultWatch → Type 0
Mirrors [] [] = Unit {0}
Mirrors [] (w ∷ ws) = ⊥
Mirrors (v ∷ vs) [] = ⊥
Mirrors (v ∷ vs) (w ∷ ws) = Shows v w × Mirrors vs ws

abbrev pub New : ℕ → List LibWatch → Type 0
New name [] = Unit {0}
New name (v ∷ vs) = ((v.name == name) ≡ false) × New name vs

-- What may happen next: libdbus adds a watch under a new address, toggles one or removes one, or
-- the loop makes a round.
pub data Step (vs : List LibWatch) (loop : DefaultMainLoop)
    : List LibWatch → DefaultMainLoop → Type 0 where
  adds : (wi : LibWatch) → New wi.name vs → Step vs loop (vs ++ wi ∷ []) (add_bus_watch wi loop)
  toggles : (wi : LibWatch) → Step vs loop (toggled wi vs) (toggle_watch wi loop)
  removes : (name : ℕ) → Step vs loop (removed name vs) (rem_watch name loop)
  rounds :
      (poll : List PollFd → ℕ → List PollFd) (now : ℕ) (pipe_fds : List ℕ)
      → Step vs loop vs ((dispatch poll now pipe_fds loop).0)

pub data Reach : List LibWatch → DefaultMainLoop → Type 0 where
  starts : (loop : DefaultMainLoop) → loop.watches ≡ [] → Reach [] loop
  goes :
      (vs us : List LibWatch) (loop after : DefaultMainLoop)
      → Reach vs loop
      → Step vs loop us after
      → Reach us after

toggled-Mirrors :
    (wi : LibWatch) (vs : List LibWatch) (ws : List DefaultWatch)
    → Mirrors vs ws
    → Mirrors (toggled wi vs) (set_enabled wi.name wi.enabled ws)
unfolding toggled set_enabled
toggled-Mirrors wi [] [] m = tt
toggled-Mirrors wi [] (w ∷ ws) m = absurd m
toggled-Mirrors wi (v ∷ vs) [] m = absurd m
toggled-Mirrors wi (v ∷ vs) (w ∷ ws) ((n, f, g, e), m) = elim (Bool-cases (v.name == wi.name)) [
  | inl h ↦
      let same_name = ap (λ x. x == wi.name) n ∙ h in
      rw (toggled, set_enabled, same_name, h) ((n, f, g, refl), toggled-Mirrors wi vs ws m)
  | inr h ↦
      let other_name = ap (λ x. x == wi.name) n ∙ h in
      rw (toggled, set_enabled, other_name, h) ((n, f, g, e), toggled-Mirrors wi vs ws m)
]

removed-Mirrors :
    (name : ℕ) (vs : List LibWatch) (ws : List DefaultWatch)
    → Mirrors vs ws
    → Mirrors (removed name vs) (remove_watch name ws)
unfolding removed remove_watch
removed-Mirrors name [] [] m = tt
removed-Mirrors name [] (w ∷ ws) m = absurd m
removed-Mirrors name (v ∷ vs) [] m = absurd m
removed-Mirrors name (v ∷ vs) (w ∷ ws) ((n, f, g, e), m) = elim (Bool-cases (v.name == name)) [
  | inl h ↦
      let same_name = ap (λ x. x == name) n ∙ h in
      rw (removed, remove_watch, same_name, h) (removed-Mirrors name vs ws m)
  | inr h ↦
      let other_name = ap (λ x. x == name) n ∙ h in
      rw (removed, remove_watch, other_name, h) ((n, f, g, e), removed-Mirrors name vs ws m)
]

added-Mirrors :
    (wi : LibWatch) (vs : List LibWatch) (ws : List DefaultWatch)
    → New wi.name vs
    → Mirrors vs ws
    → Mirrors (vs ++ wi ∷ []) (
        set_enabled wi.name wi.enabled (
          set_flags wi.name (poll_flags wi.flags) (
            ws
            ++ record { name = wi.name; enabled = true; fd = wi.descriptor; flags = 0; state = 0 }
              ∷ [])))
unfolding set_enabled set_flags
added-Mirrors wi [] [] new m =
    let itself = (==_iff wi.name wi.name).1 refl in
    rw (set_flags, itself, set_enabled, itself) ((refl, refl, refl, refl), tt)
added-Mirrors wi [] (w ∷ ws) new m = absurd m
added-Mirrors wi (v ∷ vs) [] new m = absurd m
added-Mirrors wi (v ∷ vs) (w ∷ ws) (h, new) ((n, f, g, e), m) =
    let other_name = ap (λ x. x == wi.name) n ∙ h in
    rw (set_flags, other_name, set_enabled, other_name) ((n, f, g, e), added-Mirrors wi vs ws new m)

scan-Mirrors :
    (fd revents : ℕ) (vs : List LibWatch) (ws : List DefaultWatch)
    → Mirrors vs ws
    → Mirrors vs ((scan fd revents ws).0)
unfolding scan
scan-Mirrors fd revents [] [] m = tt
scan-Mirrors fd revents [] (w ∷ ws) m = absurd m
scan-Mirrors fd revents (v ∷ vs) [] m = absurd m
scan-Mirrors fd revents (v ∷ vs) (w ∷ ws) (s, m) =
    elim (Bool-cases (w.enabled && w.fd == fd && not (revents == 0))) [
      | inl h ↦ rw (scan, h) (s, scan-Mirrors fd 0 vs ws m)
      | inr h ↦ rw (scan, h) (s, scan-Mirrors fd revents vs ws m)
    ]

serve-Mirrors :
    (ps : List PollFd) (vs : List LibWatch) (ws : List DefaultWatch)
    → Mirrors vs ws
    → Mirrors vs ((serve ps ws).0)
unfolding serve
serve-Mirrors [] vs ws m = m
serve-Mirrors (p ∷ ps) vs ws m =
    serve-Mirrors ps vs ((scan p.fd p.revents ws).0) (scan-Mirrors p.fd p.revents vs ws m)

Step-Mirrors :
    (vs us : List LibWatch) (loop after : DefaultMainLoop)
    → Step vs loop us after
    → Mirrors vs loop.watches
    → Mirrors us after.watches
unfolding add_bus_watch add_watch toggle_watch rem_watch dispatch
Step-Mirrors vs _ loop _ (adds wi new) m = added-Mirrors wi vs loop.watches new m
Step-Mirrors vs _ loop _ (toggles wi) m = toggled-Mirrors wi vs loop.watches m
Step-Mirrors vs _ loop _ (removes name) m = removed-Mirrors name vs loop.watches m
Step-Mirrors vs _ loop _ (rounds poll now pipe_fds) m =
    serve-Mirrors (poll (poll_fds loop pipe_fds) (wait_min loop)) vs loop.watches m

-- However libdbus adds, toggles and removes its watches, and however many rounds the loop makes in
-- between, the loop has libdbus's watches in their order, each with its descriptor, its events and
-- as it was toggled last.
pub Reach-Mirrors :
    (vs : List LibWatch) (loop : DefaultMainLoop) → Reach vs loop → Mirrors vs loop.watches
Reach-Mirrors _ _ (starts loop e) = rw e tt
Reach-Mirrors _ _ (goes vs us loop after r s) =
    Step-Mirrors vs us loop after s (Reach-Mirrors vs loop r)

watch_fds-Mirrors :
    (vs : List LibWatch) (ws : List DefaultWatch) → Mirrors vs ws → watch_fds ws ≡ wanted_fds vs
unfolding watch_fds wanted_fds
watch_fds-Mirrors [] [] m = refl
watch_fds-Mirrors [] (w ∷ ws) m = absurd m
watch_fds-Mirrors (v ∷ vs) [] m = absurd m
watch_fds-Mirrors (v ∷ vs) (w ∷ ws) ((n, f, g, e), m) =
    rw (watch_fds, wanted_fds, e, f, g, watch_fds-Mirrors vs ws m) refl

-- However libdbus adds, toggles and removes its watches, and however many rounds the loop makes in
-- between, poll is asked for the enabled watches of libdbus alone, in their order, each with its
-- descriptor and with the events for its flags.
pub Reach-wanted_fds :
    (vs : List LibWatch) (loop : DefaultMainLoop)
    → Reach vs loop
    → watch_fds loop.watches ≡ wanted_fds vs
Reach-wanted_fds vs loop r = watch_fds-Mirrors vs loop.watches (Reach-Mirrors vs loop r)
