-- ===== src/BusLoop/Examples.antt =====
-- A watch that libdbus adds, disables and enables, and a watch that it removes
-- (src/eventloop-integration.cpp).
use dbus_cplusplus.Common.{◌≡◌, refl, true, false, [], ◌∷◌, none}
use dbus_cplusplus.EventLoop.{DefaultMainLoop, watch_fds, add_timeout}
use dbus_cplusplus.BusLoop.{
  LibWatch, has, poll_flags, ready_flags, watch_readable, watch_writable, watch_hangup, watch_error,
  pollin, pollout, pollhup, pollerr, add_bus_watch, toggle_watch, rem_watch, add_bus_timeout,
  toggle_timeout, set_timeout_enabled,
}
use dbus_cplusplus.BusLoop.Flags.{◌implies◌, ready_flags-poll_flags}
use dbus_cplusplus.BusLoop.Mirror.{
  toggled, removed, wanted_fds, adds, toggles, removes, Reach, starts, goes, Reach-wanted_fds,
}

abbrev empty : DefaultMainLoop
empty = record { watches = []; timeouts = []; fdunlock = none }

-- One for reading and one for writing, on the same descriptor
abbrev reading : LibWatch
reading = record { name = 100; descriptor = 7; flags = 1; enabled = true }

abbrev writing : LibWatch
writing = record { name = 200; descriptor = 7; flags = 2; enabled = false }

abbrev some_room : LibWatch
some_room = record writing { enabled = true }

abbrev added : DefaultMainLoop
added = add_bus_watch writing (add_bus_watch reading empty)

abbrev after : DefaultMainLoop
after = rem_watch 100 (toggle_watch some_room added)

history : Reach (removed 100 (toggled some_room (reading ∷ writing ∷ []))) after
history =
    goes (toggled some_room (reading ∷ writing ∷ [])) _ (toggle_watch some_room added) _
      (goes (reading ∷ writing ∷ []) _ added _
        (goes (reading ∷ []) _ (add_bus_watch reading empty) _
          (goes [] _ empty _ (starts empty refl) (adds reading tt)) (adds writing (refl, tt)))
        (toggles some_room))
      (removes 100)

Reach-wanted_fds_example :
    watch_fds after.watches ≡ wanted_fds (removed 100 (toggled some_room (reading ∷ writing ∷ [])))
Reach-wanted_fds_example =
    Reach-wanted_fds (removed 100 (toggled some_room (reading ∷ writing ∷ []))) after history

ready_flags-poll_flags_example :
    (has (poll_flags 1) pollin ≡ has 1 watch_readable)
    × (has (poll_flags 1) pollout ≡ has 1 watch_writable)
    × (has (poll_flags 1) pollhup ≡ true)
    × (has (poll_flags 1) pollerr ≡ true)
    × (has (ready_flags 17) watch_readable ≡ has 17 pollin)
    × (has (ready_flags 17) watch_writable ≡ has 17 pollout)
    × (has (ready_flags 17) watch_hangup ≡ has 17 pollhup)
    × (has (ready_flags 17) watch_error ≡ has 17 pollerr)
    × ((has (ready_flags 17) watch_readable implies has 1 watch_readable) ≡ true)
    × ((has (ready_flags 17) watch_writable implies has 1 watch_writable) ≡ true)
unfolding poll_flags
ready_flags-poll_flags_example = ready_flags-poll_flags 1 17 refl refl

-- libdbus disables a timeout and enables it again with another interval: the loop has the first one.
interval_kept :
    (toggle_timeout
      (record { name = 1; interval = 50; enabled = true })
      (toggle_timeout
        (record { name = 1; interval = 1000; enabled = false })
        (add_bus_timeout 0 (record { name = 1; interval = 1000; enabled = true }) empty))).timeouts
    ≡ record { name = 1; enabled = true; interval = 1000; repeat = true; expiration = 1000000 } ∷ []
unfolding add_bus_timeout toggle_timeout set_timeout_enabled add_timeout
interval_kept = refl
