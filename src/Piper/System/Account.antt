-- ===== src/Piper/System/Account.antt =====
-- Where each forwarded call is while it is being served (src/request-piper.cpp), and the account
-- that must balance between the threads.
pub mod Parts
use mathlib.Core.List.{Perm, Nodup}
use dbus_cplusplus.Common.{
  ℕ, zero, suc, ◌+◌, ◌≡◌, Bool, true, false, List, [], ◌∷◌, ◌++◌, map, Option, none, some, length,
}
use dbus_cplusplus.Message.{CallMessage, Message, new_return}
use dbus_cplusplus.Object.{Continuation}
use dbus_cplusplus.Piper.{Queues}
use dbus_cplusplus.Piper.System.{System, promised, live_tags, entry, reply_serials}

-- The tags of responses on the pipe, without the null pointers that announce signals.
abbrev pub tags : List ℕ → List ℕ
tags [] = []
tags (zero ∷ ts) = tags ts
tags (suc t ∷ ts) = suc t ∷ tags ts

-- How many signals are announced.
abbrev pub marks : List ℕ → ℕ
marks [] = 0
marks (zero ∷ ts) = suc (marks ts)
marks (suc t ∷ ts) = marks ts

-- The responses that wait, each with the tag that its turn on the pipe gives it.
abbrev pub pair : List ℕ → List (CallMessage × Message) → List (ℕ × CallMessage)
pair [] rs = []
pair (t ∷ ts) [] = []
pair (t ∷ ts) ((c, m) ∷ rs) = (t, c) ∷ pair ts rs

abbrev pub requests : List (CallMessage × ℕ) → List (ℕ × CallMessage)
requests = map (λ e. (e.1, e.0))

abbrev pub kept : List (ℕ × (CallMessage × ℕ)) → List (ℕ × CallMessage)
kept = map (λ e. ((e.1).1, (e.1).0))

abbrev pub leaving : List (CallMessage × ℕ × Message) → List (ℕ × CallMessage)
leaving = map (λ e. (e.1, e.0))

-- Every call on its way, under its tag: queued, being served, kept by the worker, returned by a
-- thread, or with its response queued.
abbrev pub owed : System → List (ℕ × CallMessage)
owed s =
    requests (s.piper.self).request_queue
    ++ (entry s.serving
        ++ (kept (s.piper.self).pipe_continuations
            ++ (leaving s.returning
                ++ pair (tags (s.piper.self).response_n_signal_pipe)
                    (s.piper.self).response_queue)))

abbrev pub bit : Bool → ℕ
bit true = 1
bit false = 0

-- The reply that a continuation builds is still empty, and goes to its call.
abbrev pub Built : List (ℕ × Continuation) → Type 0
Built [] = Unit {0}
Built ((t, c) ∷ cs) = (c.return_ ≡ new_return c.call) × Built cs

abbrev pub serials : List (ℕ × CallMessage) → List ℕ
serials = map (λ e. (e.1).serial)

pub record Balance (s : System) : Type 0 where
  -- What is on its way is what an answer is promised to, call by call and tag by tag.
  pub balanced : Perm (owed s) (promised s)
  -- No tag object is null or used twice.
  pub distinct : Nodup (0 ∷ live_tags s)
  -- Tags on the pipe and responses, null pointers and signals, bytes and requests go together.
  pub matched :
      length (tags (s.piper.self).response_n_signal_pipe) ≡ length (s.piper.self).response_queue
  pub marked : marks (s.piper.self).response_n_signal_pipe ≡ length (s.piper.self).signal_queue
  pub wakeups : (s.piper.self).request_pipe + bit s.woken ≡ length (s.piper.self).request_queue
  -- Each accepted call has been answered once, or is promised an answer.
  pub answered :
      Perm
        (map (λ (c : CallMessage). c.serial) s.accepted)
        (serials (promised s) ++ reply_serials s.piper.sent)
  pub built : Built s.piper.continuations
