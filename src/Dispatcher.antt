-- ===== src/Dispatcher.antt =====
-- src/dispatcher.cpp and the part of src/connection.cpp that it uses: the queue of connections with
-- messages to dispatch. A connection is its address.
--
-- libdbus is a parameter: a call of dbus_connection_dispatch gives the new state, its result, and
-- the calls of the dispatch status function that were made meanwhile, by its handlers or by other
-- threads, in their order. `finished` is the history of the connections that do_dispatch was done
-- with, and `accepted` that of those put into the queue.
pub mod Pending
pub mod Drain
mod Examples
use dbus_cplusplus.Common.{
  ℕ, zero, suc, Bool, true, false, not, List, [], ◌∷◌, ◌++◌, Option, none, some, length, drop,
  if◌then◌else◌,
}

-- DBusDispatchStatus
pub data DispatchStatus : Type 0 where
  data_remains complete need_memory : DispatchStatus

abbrev pub Report : Type 0
Report = ℕ × DispatchStatus

pub record Libdbus (W : Type 0) : Type 0 where
  pub is_connected : W → ℕ → Bool
  pub dispatch : W → ℕ → W × DispatchStatus × List Report
  pub dispatch_status : W → ℕ → DispatchStatus

pub record Dispatcher (W : Type 0) : Type 0 where
  pub pending_queue : List ℕ
  pub world : W
  pub finished : List ℕ
  pub accepted : List ℕ

abbrev pub remains : DispatchStatus → Bool
remains data_remains = true
remains complete = false
remains need_memory = false

module _ {W : Type 0} where
  -- Dispatcher::queue_connection
  unfoldable pub queue_connection : ℕ → Dispatcher W → Dispatcher W
  queue_connection cp d = record d {
    pending_queue = d.pending_queue ++ cp ∷ [];
    accepted = d.accepted ++ cp ∷ [];
  }

  -- Connection::Private::dispatch_status_stub
  unfoldable pub dispatch_status_stub : Report → Dispatcher W → Dispatcher W
  unfolding queue_connection
  dispatch_status_stub (p, data_remains) d = queue_connection p d
  dispatch_status_stub (p, complete) d = d
  dispatch_status_stub (p, need_memory) d = d

  unfoldable pub reported : List Report → Dispatcher W → Dispatcher W
  unfolding dispatch_status_stub
  reported [] d = d
  reported (r ∷ rs) d = reported rs (dispatch_status_stub r d)

module _ {W : Type 0} (lib : Libdbus W) where
  -- Connection::Private::has_something_to_dispatch
  abbrev pub connection_has_something : W → ℕ → Bool
  connection_has_something w c = remains (lib.dispatch_status w c)

  -- The loop of Dispatcher::has_something_to_dispatch
  unfoldable pub any_has_something : W → List ℕ → Bool
  any_has_something w [] = false
  any_has_something w (c ∷ cs) =
      if connection_has_something w c then true else any_has_something w cs

  unfoldable pub has_something_to_dispatch : Dispatcher W → Bool
  unfolding any_has_something
  has_something_to_dispatch d = any_has_something d.world d.pending_queue

  -- Connection::Private::do_dispatch
  unfoldable pub do_dispatch : ℕ → Dispatcher W → Dispatcher W × Bool
  unfolding reported
  do_dispatch c d = elim (lib.is_connected d.world c) [
    | false ↦ (d, true)
    | true ↦
        let (w, status, reports) = lib.dispatch d.world c in
        (reported reports (record d { world = w }), not (remains status))
  ]

  abbrev pub mark : ℕ → Dispatcher W × Bool → Dispatcher W
  mark c (d, true) = record d { finished = d.finished ++ c ∷ [] }
  mark c (d, false) = d

  -- One pass over the copy of the queue: what stays in it, and the dispatcher.
  unfoldable pub pass : List ℕ → Dispatcher W → List ℕ × Dispatcher W
  unfolding do_dispatch
  pass [] d = ([], d)
  pass (c ∷ cs) d =
      let r = do_dispatch c d in
      let (kept, d') = pass cs (mark c r) in (if r.1 then kept else c ∷ kept, d')

  -- Dispatcher::dispatch_pending(pending_queue), on fuel
  unfoldable pub dispatch_copy : ℕ → List ℕ → Dispatcher W → Option (Dispatcher W)
  unfolding pass
  dispatch_copy fuel [] d = some d
  dispatch_copy zero (c ∷ cs) d = none
  dispatch_copy (suc fuel) (c ∷ cs) d =
      let (kept, d') = pass (c ∷ cs) d in dispatch_copy fuel kept d'

  -- The erasing loop: as many elements as the copy had, from the front.
  abbrev pub erase_front : ℕ → Dispatcher W → Dispatcher W
  erase_front n d = record d { pending_queue = drop n d.pending_queue }

  -- Dispatcher::dispatch_pending(), on fuel
  unfoldable pub dispatch_pending : ℕ → Dispatcher W → Option (Dispatcher W)
  unfolding dispatch_copy
  dispatch_pending zero d = elim d.pending_queue [ [] ↦ some d | c ∷ cs ↦ none ]
  dispatch_pending (suc fuel) d = elim d.pending_queue [
    | [] ↦ some d
    | c ∷ cs ↦ elim (dispatch_copy (suc fuel) (c ∷ cs) d) [
      | none ↦ none
      | some d' ↦ dispatch_pending fuel (erase_front (length (c ∷ cs)) d')
    ]
  ]
