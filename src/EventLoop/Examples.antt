-- ===== src/EventLoop/Examples.antt =====
-- A loop with two watches, one of them on the same descriptor as another, and two timeouts.
use dbus_cplusplus.Common.{ℕ, ◌≡◌, refl, Bool, true, false, List, [], ◌∷◌, map, some, arith}
use dbus_cplusplus.EventLoop.{
  DefaultWatch, DefaultTimeout, DefaultMainLoop, PollFd, poll_fds, wait_min, lower, expire, scan,
  serve, dispatch, is_due, watch_fds, unlock_fds,
}
use dbus_cplusplus.EventLoop.Wait.{IsLeast, wait_min-IsLeast}
use dbus_cplusplus.EventLoop.Timers.{names_of, due_again, expire-expire}
use dbus_cplusplus.EventLoop.Readiness.{all_told, SameBut, dispatch-told}

abbrev watch : ℕ → ℕ → DefaultWatch
watch name fd = record { name = name; enabled = true; fd = fd; flags = 1; state = 0 }

abbrev timeout : ℕ → Bool → DefaultTimeout
timeout name again = record {
  name = name;
  enabled = true;
  interval = 20;
  repeat = again;
  expiration = 5000;
}

abbrev a_loop : DefaultMainLoop
a_loop = record {
  watches = watch 1 7 ∷ watch 2 7 ∷ [];
  timeouts = timeout 3 true ∷ timeout 4 false ∷ [];
  fdunlock = some 9;
}

abbrev readable : PollFd → PollFd
readable p = record p { revents = 1 }

-- Everything is ready for reading.
abbrev poll : List PollFd → ℕ → List PollFd
poll fds wait = map readable fds

-- Both elements for the descriptor 7 are told to the first watch; the second watch is never told.
second_watch_starves : (dispatch poll 6000 (8 ∷ []) a_loop).2 ≡ (1, 1) ∷ (1, 1) ∷ []
unfolding dispatch poll_fds watch_fds unlock_fds wait_min lower serve scan
second_watch_starves = refl

-- Both timeouts expire, and the one that does not repeat expires again in the next round.
both_expire : (expire 6000 a_loop.timeouts).1 ≡ 3 ∷ 4 ∷ []
unfolding expire
both_expire = refl

one_shot_again : (expire 6001 (expire 6000 a_loop.timeouts).0).1 ≡ 4 ∷ []
unfolding expire
one_shot_again = refl

wait_min-IsLeast_example : IsLeast 10000 a_loop.timeouts (wait_min a_loop)
wait_min-IsLeast_example = wait_min-IsLeast a_loop

expire-expire_example :
    ((expire 6000 a_loop.timeouts).1 ≡ names_of (is_due 6000) a_loop.timeouts)
    × ((expire 6001 (expire 6000 a_loop.timeouts).0).1
        ≡ names_of (due_again 6000 6001) a_loop.timeouts)
expire-expire_example = expire-expire 6000 6001 a_loop.timeouts (omega arith)

dispatch-told_example :
    let (loop', expired, calls) = dispatch poll 6000 (8 ∷ []) a_loop in
    (calls ≡ all_told (poll (poll_fds a_loop (8 ∷ [])) (wait_min a_loop)) a_loop.watches)
    × SameBut loop'.watches a_loop.watches
    × (expired ≡ names_of (is_due 6000) a_loop.timeouts)
dispatch-told_example = dispatch-told poll 6000 (8 ∷ []) a_loop
