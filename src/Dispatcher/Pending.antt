-- ===== src/Dispatcher/Pending.antt =====
-- One pass of Dispatcher::dispatch_pending over a copy of the queue (src/dispatcher.cpp): which
-- connections it is done with, what it adds to the queue, and what it costs.
use mathlib.Core.List.{Mem, mem-append, mem-append_left, mem-append_right}
use mathlib.Core.Logic.{◌∨₁◌}
use mathlib.Core.Logic.Or
use dbus_cplusplus.Common.{
  ℕ, ◌+◌, ◌≤◌, ◌≡◌, refl, sym, ap, ◌∙◌, Bool, true, false, not, List, [], ◌∷◌, ◌++◌, append-nil,
  append_assoc, length, length-append, arith, if◌then◌else◌, Bool-cases, inl, inr,
}
use dbus_cplusplus.Dispatcher.{
  DispatchStatus, data_remains, complete, need_memory, Report, Libdbus, Dispatcher, remains,
  queue_connection, dispatch_status_stub, reported, do_dispatch, mark, pass,
}

-- The connections that some reports put into the queue.
abbrev pub queued : List Report → List ℕ
queued [] = []
queued ((c, s) ∷ rs) = if remains s then c ∷ queued rs else queued rs

-- One more call is due after such a result.
abbrev pub due : DispatchStatus → ℕ
due s = if remains s then 1 else 0

-- libdbus has a finite amount of work, and every report and every result that data remains is paid
-- for by some of it.
abbrev pub IsFinite : {W : Type 0} → Libdbus W → (W → ℕ) → Type 0
IsFinite {W} lib work =
    (w : W) (c : ℕ)
    → work (lib.dispatch w c).0 + length (queued (lib.dispatch w c).2) + due (lib.dispatch w c).1
      ≤ work w

grown : {W : Type 0} → List ℕ → Dispatcher W → Dispatcher W
grown cs d = record d { pending_queue = d.pending_queue ++ cs; accepted = d.accepted ++ cs }

reported-queued :
    {W : Type 0} (rs : List Report) (d : Dispatcher W) → reported rs d ≡ grown (queued rs) d
unfolding reported dispatch_status_stub queue_connection grown
reported-queued [] d = simp append-nil
reported-queued ((c, data_remains) ∷ rs) d = reported-queued rs _ ∙ simp append_assoc
reported-queued ((c, complete) ∷ rs) d = reported-queued rs d
reported-queued ((c, need_memory) ∷ rs) d = reported-queued rs d

module _ {W : Type 0} (work : W → ℕ) where
  -- From `d` to `d'`, with the connections `cs` to serve: the queue grew at its end alone, and every
  -- one of `cs` stays in `kept` or is finished.
  pub record Served (cs kept : List ℕ) (d d' : Dispatcher W) : Type 0 where
    pub added : List ℕ
    pub queue : d'.pending_queue ≡ d.pending_queue ++ added
    pub entered : d'.accepted ≡ d.accepted ++ added
    pub paid : work d'.world + length added + length kept ≤ work d.world
    pub finishes : (c : ℕ) → Mem c cs → Mem c kept ∨₁ Mem c d'.finished
    pub keeps : (c : ℕ) → Mem c d.finished → Mem c d'.finished

  module _ {d d' d'' : Dispatcher W} where
    -- Serving some connections, then others.
    Served-append :
        (cs cs' kept kept' : List ℕ)
        → Served cs kept d d'
        → Served cs' kept' d' d''
        → Served (cs ++ cs') (kept ++ kept') d d''
    Served-append cs cs' kept kept' a b = record {
      added = a.added ++ b.added;
      queue =
          b.queue ∙ (ap (λ q. q ++ b.added) a.queue ∙ append_assoc d.pending_queue a.added b.added);
      entered =
          b.entered ∙ (ap (λ q. q ++ b.added) a.entered ∙ append_assoc d.accepted a.added b.added);
      paid = omega (arith, a.paid, b.paid, length-append a.added b.added, length-append kept kept');
      finishes = λ c m.
          Or.elim (hlevel) (mem-append.0 m)
            (λ k. Or.imp (λ x. mem-append_left kept' x) (b.keeps c) (a.finishes c k))
            (λ k. Or.imp (λ x. mem-append_right kept x) (λ x. x) (b.finishes c k));
      keeps = λ c m. b.keeps c (a.keeps c m);
    }

    -- Serving some connections, then those that were kept.
    pub Served-kept :
        (cs kept kept' : List ℕ)
        → Served cs kept d d'
        → Served kept kept' d' d''
        → Served cs kept' d d''
    Served-kept cs kept kept' a b = record {
      added = a.added ++ b.added;
      queue =
          b.queue ∙ (ap (λ q. q ++ b.added) a.queue ∙ append_assoc d.pending_queue a.added b.added);
      entered =
          b.entered ∙ (ap (λ q. q ++ b.added) a.entered ∙ append_assoc d.accepted a.added b.added);
      paid = omega (arith, a.paid, b.paid, length-append a.added b.added);
      finishes =
          λ c m. Or.elim (hlevel) (a.finishes c m) (b.finishes c) (λ f. Or.inr (b.keeps c f));
      keeps = λ c m. b.keeps c (a.keeps c m);
    }

    -- One connection, then the rest of a pass.
    Served-cons :
        (done : Bool) (c : ℕ) (cs kept : List ℕ)
        → Served (c ∷ []) (if done then [] else c ∷ []) d d'
        → Served cs kept d' d''
        → Served (c ∷ cs) (if done then kept else c ∷ kept) d d''
    Served-cons true c cs kept a b = Served-append (c ∷ []) cs [] kept a b
    Served-cons false c cs kept a b = Served-append (c ∷ []) cs (c ∷ []) kept a b

module _ {W : Type 0} (lib : Libdbus W) (work : W → ℕ) where
  finished-Served :
      (c : ℕ) (d : Dispatcher W) (w : W) (rs : List Report)
      → work w + length (queued rs) ≤ work d.world
      → Served work (c ∷ []) [] d (mark lib c (reported rs (record d { world = w }), true))
  unfolding grown
  finished-Served c d w rs h = rw (reported-queued rs (record d { world = w })) (record {
    added = queued rs;
    queue = refl;
    entered = refl;
    paid = omega (arith, h);
    finishes = λ b m. Or.inr (mem-append_right d.finished m);
    keeps = λ b m. mem-append_left (c ∷ []) m;
  })

  kept-Served :
      (c : ℕ) (d : Dispatcher W) (w : W) (rs : List Report)
      → work w + length (queued rs) + 1 ≤ work d.world
      → Served work (c ∷ []) (c ∷ []) d (mark lib c (reported rs (record d { world = w }), false))
  unfolding grown
  kept-Served c d w rs h = rw (reported-queued rs (record d { world = w })) (record {
    added = queued rs;
    queue = refl;
    entered = refl;
    paid = omega (arith, h);
    finishes = λ b m. Or.inl m;
    keeps = λ b m. m;
  })

  dispatched-Served :
      (s : DispatchStatus) (c : ℕ) (d : Dispatcher W) (w : W) (rs : List Report)
      → work w + length (queued rs) + due s ≤ work d.world
      → Served work
          (c ∷ [])
          (if not (remains s) then [] else c ∷ [])
          d
          (mark lib c (reported rs (record d { world = w }), not (remains s)))
  dispatched-Served data_remains c d w rs h = kept-Served c d w rs h
  dispatched-Served complete c d w rs h = finished-Served c d w rs (omega (arith, h))
  dispatched-Served need_memory c d w rs h = finished-Served c d w rs (omega (arith, h))

module _ {W : Type 0} (lib : Libdbus W) (work : W → ℕ) (finite : IsFinite lib work) where
  do_dispatch-Served :
      (c : ℕ) (d : Dispatcher W)
      → Served work
          (c ∷ [])
          (if (do_dispatch lib c d).1 then [] else c ∷ [])
          d
          (mark lib c (do_dispatch lib c d))
  unfolding do_dispatch
  do_dispatch-Served c d = elim (Bool-cases (lib.is_connected d.world c)) [
    | inl connected ↦
        rw (do_dispatch, connected)
          (dispatched-Served lib work (lib.dispatch d.world c).1 c d (lib.dispatch d.world c).0
            (lib.dispatch d.world c).2 (finite d.world c))
    | inr gone ↦ rw (do_dispatch, gone) (finished-Served lib work c d d.world [] (omega arith))
  ]

  pub nothing-Served : (d : Dispatcher W) → Served work [] [] d d
  nothing-Served d = record {
    added = [];
    queue = sym (append-nil d.pending_queue);
    entered = sym (append-nil d.accepted);
    paid = omega arith;
    finishes = λ c m. Or.inl m;
    keeps = λ c m. m;
  }

  pub pass-Served :
      (cs : List ℕ) (d : Dispatcher W) → Served work cs (pass lib cs d).0 d (pass lib cs d).1
  unfolding pass
  pass-Served [] d = nothing-Served d
  pass-Served (c ∷ cs) d =
      Served-cons work (do_dispatch lib c d).1 c cs _ (do_dispatch-Served c d)
        (pass-Served cs (mark lib c (do_dispatch lib c d)))
