-- ===== src/EventLoop/Timers.antt =====
-- Timeouts (DefaultMainLoop::dispatch, src/eventloop.cpp): which expire in a round, and when next.
use dbus_cplusplus.Common.{
  ℕ, ◌+◌, ◌≤◌, ◌≡◌, refl, ap, ◌∙◌, Bool, true, false, List, [], ◌∷◌, leb, arith, if◌then◌else◌,
  Bool-cases, ◌⊎◌, inl, inr, map,
}
use dbus_cplusplus.EventLoop.{DefaultTimeout, millis, is_due, rearm, expire}

-- The names of the timeouts that a test holds of, in their order.
abbrev pub names_of : (DefaultTimeout → Bool) → List DefaultTimeout → List ℕ
names_of test [] = []
names_of test (t ∷ ts) = if test t then t.name ∷ names_of test ts else names_of test ts

abbrev pub after : ℕ → DefaultTimeout → DefaultTimeout
after now t = if is_due now t then rearm now t else t

expire_lem :
    (now : ℕ) (ts : List DefaultTimeout)
    → expire now ts ≡ (map (after now) ts, names_of (is_due now) ts)
unfolding expire
expire_lem now [] = refl
expire_lem now (t ∷ ts) = elim (Bool-cases (is_due now t)) [
  | inl due ↦ rw (expire_lem now ts, due) refl
  | inr early ↦ rw (expire_lem now ts, early) refl
]

-- Whether a timeout expires at `later`, after a round at `now`: one that expired and repeats does so
-- after a whole interval, and one that expired and does not repeat expires again in any round.
abbrev pub due_again : ℕ → ℕ → DefaultTimeout → Bool
due_again now later t =
    if is_due now t
    then if t.repeat then leb (now + millis t.interval) later else true
    else is_due later t

is_due-after :
    (now later : ℕ) (t : DefaultTimeout)
    → now ≤ later
    → is_due later (after now t) ≡ due_again now later t
is_due-after now later t h = ground arith

names_of-map :
    (now later : ℕ) (ts : List DefaultTimeout)
    → now ≤ later
    → names_of (is_due later) (map (after now) ts) ≡ names_of (due_again now later) ts
names_of-map now later [] h = refl
names_of-map now later (t ∷ ts) h =
    rw
      (
        is_due-after now later t h,
        names_of-map now later ts h,
        after_name (Bool-cases (is_due now t)),
      )
      refl
  where
    after_name : ((is_due now t ≡ true) ⊎ (is_due now t ≡ false)) → (after now t).name ≡ t.name
    after_name h = ground arith

-- In two rounds one after the other, those timeouts expire that are enabled and past their time: in
-- the second, one that expired in the first expires if a whole interval has gone by, or if it is
-- not to repeat.
pub expire-expire :
    (now later : ℕ) (ts : List DefaultTimeout)
    → now ≤ later
    → ((expire now ts).1 ≡ names_of (is_due now) ts)
      × ((expire later (expire now ts).0).1 ≡ names_of (due_again now later) ts)
expire-expire now later ts h = (
  ap (λ r. r.1) (expire_lem now ts),
  ap (λ r. r.1) (expire_lem later (expire now ts).0)
      ∙ (ap (λ r. names_of (is_due later) r.0) (expire_lem now ts) ∙ names_of-map now later ts h),
)
