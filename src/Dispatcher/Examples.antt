-- ===== src/Dispatcher/Examples.antt =====
-- A libdbus with some messages, one of whose handlers queues another connection.
use dbus_cplusplus.Common.{
  ℕ, zero, suc, ◌+◌, ◌≤◌, ◌≡◌, refl, true, List, [], ◌∷◌, some, arith, length,
}
use dbus_cplusplus.Dispatcher.{
  DispatchStatus, data_remains, complete, Report, Libdbus, Dispatcher, dispatch_pending,
  dispatch_copy, pass, do_dispatch, reported, dispatch_status_stub, queue_connection,
}
use dbus_cplusplus.Dispatcher.Pending.{IsFinite, queued, due}
use dbus_cplusplus.Dispatcher.Drain.{Drained, dispatch_pending-Drained}

-- The state is the number of messages that wait, for whichever connection.
abbrev dispatch : ℕ → ℕ × DispatchStatus × List Report
dispatch zero = (0, complete, [])
dispatch (suc zero) = (0, complete, [])
dispatch (suc (suc zero)) = (1, data_remains, [])
dispatch (suc (suc (suc n))) = (suc n, data_remains, (9, data_remains) ∷ [])

abbrev lib : Libdbus ℕ
lib = record {
  is_connected = λ w c. true;
  dispatch = λ w c. dispatch w;
  dispatch_status = λ w c. complete;
}

abbrev work : ℕ → ℕ
work w = w

dispatch_is_finite :
    (w : ℕ) → (dispatch w).0 + length (queued (dispatch w).2) + due (dispatch w).1 ≤ w
dispatch_is_finite zero = omega arith
dispatch_is_finite (suc zero) = omega arith
dispatch_is_finite (suc (suc zero)) = omega arith
dispatch_is_finite (suc (suc (suc n))) = omega arith

lib_is_finite : IsFinite lib work
lib_is_finite w c = dispatch_is_finite w

abbrev two_queued : Dispatcher ℕ
two_queued = record { pending_queue = 1 ∷ 2 ∷ []; world = 3; finished = []; accepted = 1 ∷ 2 ∷ [] }

all_dispatched :
    dispatch_pending lib 5 two_queued
    ≡ some (record {
      pending_queue = [];
      world = 0;
      finished = 2 ∷ 1 ∷ 9 ∷ [];
      accepted = 1 ∷ 2 ∷ 9 ∷ [];
    })
unfolding dispatch_pending dispatch_copy pass do_dispatch reported dispatch_status_stub
    queue_connection
all_dispatched = refl

dispatch_pending-Drained_example :
    (d' : Dispatcher ℕ) × (dispatch_pending lib 5 two_queued ≡ some d')
    × Drained lib work lib_is_finite two_queued d'
dispatch_pending-Drained_example =
    dispatch_pending-Drained lib work lib_is_finite 5 two_queued (omega arith)
