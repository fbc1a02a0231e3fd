-- ===== src/Dispatcher/Drain.antt =====
-- Dispatcher::dispatch_pending (src/dispatcher.cpp): it ends, with every connection served.
use mathlib.Core.List.{Mem, mem-append, not-mem-nil}
use mathlib.Core.Logic.{◌∨₁◌}
use mathlib.Core.Logic.Or
use dbus_cplusplus.Common.{
  ℕ, zero, suc, ◌+◌, ◌<◌, ◌≤◌, ◌≡◌, refl, sym, subst, ap, ◌∙◌, false, List, [], ◌∷◌, ◌++◌, Option,
  none, some, length, drop, drop-append_length, arith, inl, inr, ◌⊎◌,
}
use dbus_cplusplus.Dispatcher.{
  Libdbus, Dispatcher, any_has_something, has_something_to_dispatch, pass, dispatch_copy,
  erase_front, dispatch_pending,
}
use dbus_cplusplus.Dispatcher.Pending.{IsFinite, Served, Served-kept, nothing-Served, pass-Served}

module _ {W : Type 0} (lib : Libdbus W) (work : W → ℕ) (finite : IsFinite lib work) where
  -- Fuel is enough if there is nothing to do, or less work than fuel.
  Enough : ℕ → List ℕ → Dispatcher W → Type 0
  Enough fuel cs d = (cs ≡ []) ⊎ (work d.world < fuel)

  less_work :
      (fuel : ℕ) (kept added : List ℕ) (d d' : Dispatcher W)
      → work d'.world + length added + length kept ≤ work d.world
      → work d.world < suc fuel
      → Enough fuel kept d' × Enough fuel added d'
  unfolding Enough
  less_work fuel kept added d d' paid h = (of_kept kept paid, of_added added paid)
    where
      of_kept :
          (kept : List ℕ)
          → work d'.world + length added + length kept ≤ work d.world
          → (kept ≡ []) ⊎ (work d'.world < fuel)
      of_kept [] paid = inl refl
      of_kept (c ∷ cs) paid = inr (omega (arith, h))

      of_added :
          (added : List ℕ)
          → work d'.world + length added + length kept ≤ work d.world
          → (added ≡ []) ⊎ (work d'.world < fuel)
      of_added [] paid = inl refl
      of_added (c ∷ cs) paid = inr (omega (arith, h))

  dispatch_copy-Served :
      (fuel : ℕ) (cs : List ℕ) (d : Dispatcher W)
      → Enough fuel cs d
      → (d' : Dispatcher W) × (dispatch_copy lib fuel cs d ≡ some d') × Served work cs [] d d'
  unfolding Enough dispatch_copy
  dispatch_copy-Served fuel [] d h = (d, refl, nothing-Served lib work finite d)
  dispatch_copy-Served zero (c ∷ cs) d (inl e) = absurd (cc)
  dispatch_copy-Served zero (c ∷ cs) d (inr e) = absurd (omega arith)
  dispatch_copy-Served (suc fuel) (c ∷ cs) d (inl e) = absurd (cc)
  dispatch_copy-Served (suc fuel) (c ∷ cs) d (inr h) =
      let once = pass-Served lib work finite (c ∷ cs) d in
      let (d', e, all) =
        dispatch_copy-Served fuel (pass lib (c ∷ cs) d).0 (pass lib (c ∷ cs) d).1
          (less_work fuel (pass lib (c ∷ cs) d).0 once.added d (pass lib (c ∷ cs) d).1 once.paid
            h).0 in
      (d', e, Served-kept work (c ∷ cs) (pass lib (c ∷ cs) d).0 [] once all)

  -- What dispatch_pending leaves: an empty queue, nothing to dispatch, and every connection that was
  -- in the queue, or was put there meanwhile, finished.
  abbrev pub Drained : Dispatcher W → Dispatcher W → Type 0
  Drained d d' =
      (d'.pending_queue ≡ [])
      × (has_something_to_dispatch lib d' ≡ false)
      × ((c : ℕ) → Mem c d.pending_queue → Mem c d'.finished)
      × ((c : ℕ) → Mem c d'.accepted → Mem c d.accepted ∨₁ Mem c d'.finished)
      × ((c : ℕ) → Mem c d.finished → Mem c d'.finished)

  empty-Drained : (d : Dispatcher W) → d.pending_queue ≡ [] → Drained d d
  unfolding has_something_to_dispatch any_has_something
  empty-Drained d e = (
    e,
    rw (has_something_to_dispatch, e) refl,
    λ c m. absurd (not-mem-nil (subst (λ q. Mem c q) e m)),
    λ c m. Or.inl m,
    λ c m. m,
  )

  -- The erasing loop removes the copy's connections, and none of those queued meanwhile.
  erase_front-Served :
      (cs : List ℕ) (d d1 : Dispatcher W) (served : Served work cs [] d d1)
      → d.pending_queue ≡ cs
      → (erase_front lib (length cs) d1).pending_queue ≡ served.added
  erase_front-Served cs d d1 served e =
      ap (λ q. drop (length cs) q) (served.queue ∙ ap (λ q. q ++ served.added) e)
      ∙ drop-append_length cs served.added

  after_copy-Drained :
      (cs : List ℕ) (d d1 d' : Dispatcher W)
      → d.pending_queue ≡ cs
      → Served work cs [] d d1
      → Drained (erase_front lib (length cs) d1) d'
      → Drained d d'
  after_copy-Drained cs d d1 d' e served (empty, idle, all, late, keeps) = (
    empty,
    idle,
    λ c m. keeps c (
        Or.elim (hlevel) (served.finishes c (subst (λ q. Mem c q) e m))
          (λ k. absurd (not-mem-nil k)) (λ k. k)),
    λ c m.
        Or.elim (hlevel) (late c m)
          (λ k.
            Or.imp (λ x. x)
              (λ x. all c (subst (λ q. Mem c q) (sym (erase_front-Served cs d d1 served e)) x))
              (mem-append.0 (subst (λ q. Mem c q) served.entered k)))
          (λ k. Or.inr k),
    λ c m. keeps c (served.keeps c m),
  )

  dispatch_pending_next :
      (fuel c : ℕ) (cs : List ℕ) (d d1 : Dispatcher W)
      → d.pending_queue ≡ c ∷ cs
      → dispatch_copy lib (suc fuel) (c ∷ cs) d ≡ some d1
      → dispatch_pending lib (suc fuel) d
        ≡ dispatch_pending lib fuel (erase_front lib (length (c ∷ cs)) d1)
  unfolding dispatch_pending
  dispatch_pending_next fuel c cs d d1 e copied =
      ap
        (λ q. elim q as (λ x. Option (Dispatcher W)) [
          | [] ↦ some d
          | c' ∷ cs' ↦
              elim (dispatch_copy lib (suc fuel) (c' ∷ cs') d) as (λ x. Option (Dispatcher W)) [
                | none ↦ none
                | some d' ↦ dispatch_pending lib fuel (erase_front lib (length (c' ∷ cs')) d')
              ]
        ])
        e
      ∙ rw copied refl

  dispatch_pending-Enough :
      (fuel : ℕ) (cs : List ℕ) (d : Dispatcher W)
      → d.pending_queue ≡ cs
      → Enough fuel cs d
      → (d' : Dispatcher W) × (dispatch_pending lib fuel d ≡ some d') × Drained d d'
  unfolding dispatch_pending Enough
  dispatch_pending-Enough zero [] d e h = (d, simp (dispatch_pending, e), empty-Drained d e)
  dispatch_pending-Enough (suc fuel) [] d e h = (d, simp (dispatch_pending, e), empty-Drained d e)
  dispatch_pending-Enough zero (c ∷ cs) d e (inl n) = absurd (cc)
  dispatch_pending-Enough zero (c ∷ cs) d e (inr n) = absurd (omega arith)
  dispatch_pending-Enough (suc fuel) (c ∷ cs) d e (inl n) = absurd (cc)
  dispatch_pending-Enough (suc fuel) (c ∷ cs) d e (inr h) =
      let (d1, copied, served) = dispatch_copy-Served (suc fuel) (c ∷ cs) d (inr h) in
      let (d', rest, drained) =
        dispatch_pending-Enough fuel served.added (erase_front lib (length (c ∷ cs)) d1)
          (erase_front-Served (c ∷ cs) d d1 served e)
          (less_work fuel [] served.added d (erase_front lib (length (c ∷ cs)) d1) served.paid
            h).1 in
      (
        d',
        dispatch_pending_next fuel c cs d d1 e copied ∙ rest,
        after_copy-Drained (c ∷ cs) d d1 d' e served drained,
      )

  -- With more fuel than libdbus has work, dispatch_pending ends. The queue is then empty, nothing is
  -- left to dispatch, and do_dispatch was done with every connection that was in the queue, and with
  -- every one that was put there meanwhile.
  pub dispatch_pending-Drained :
      (fuel : ℕ) (d : Dispatcher W)
      → work d.world < fuel
      → (d' : Dispatcher W) × (dispatch_pending lib fuel d ≡ some d') × Drained d d'
  unfolding Enough
  dispatch_pending-Drained fuel d h = dispatch_pending-Enough fuel d.pending_queue d refl (inr h)
