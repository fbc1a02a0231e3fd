-- ===== src/Piper/System/Safety.antt =====
-- What the dispatcher thread finds when it reads the response pipe (src/request-piper.cpp).
use mathlib.Core.List.{Perm}
use mathlib.Core.List.Perm
use dbus_cplusplus.Common.{
  ℕ, zero, suc, ◌≡◌, ◌≢◌, refl, sym, ap, ap₂, ◌∙◌, List, [], ◌∷◌, ◌++◌, Option, none, some, length,
  arith, String,
}
use dbus_cplusplus.Common.Perms.{perm-append_right}
use dbus_cplusplus.Message.{
  CallMessage, Message, SignalMessage, new_return, error_message, return_message, text, arguments,
}
use dbus_cplusplus.Object.{reply}
use dbus_cplusplus.Piper.{Piper, dispatcher_pipe_handler}
use dbus_cplusplus.Piper.System.{System, entry}
use dbus_cplusplus.Piper.System.Account.{Balance, owed, requests, kept, leaving, pair, tags, marks}
use dbus_cplusplus.Piper.System.Account.Parts.{Built-find}
use dbus_cplusplus.Piper.System.Deliver.{
  delivered, signalled, answer, response_out, delivered-Balance, signal_out, signalled-Balance,
  owed_continuation,
}

-- What a chunk leads to: the front response goes out as the answer to its call, whose continuation
-- is forgotten; or the front signal goes out. In both cases the account balances afterwards.
pub data Handled (s : System) (chunks : List ℕ) : ℕ → Option Piper → Type 0 where
  answers :
      {t : ℕ} {r : Option Piper} (c : CallMessage) (res : Message)
      (waiting : List (CallMessage × Message))
      → t ≢ 0
      → (s.piper.self).response_queue ≡ (c, res) ∷ waiting
      → r ≡ some (delivered s chunks t c res waiting).piper
      → Balance (delivered s chunks t c res waiting)
      → Handled s chunks t r
  signals :
      {t : ℕ} {r : Option Piper} (sig : SignalMessage) (waiting : List SignalMessage)
      → t ≡ 0
      → (s.piper.self).signal_queue ≡ sig ∷ waiting
      → r ≡ some (signalled s chunks sig waiting).piper
      → Balance (signalled s chunks sig waiting)
      → Handled s chunks t r

module _ (s : System) (v : Balance s) (idle : s.thrown ≡ none) (chunks : List ℕ) where
  abbrev handled : ℕ → Option Piper
  handled t =
      dispatcher_pipe_handler t
        (record (s.piper) { self = record (s.piper.self) { response_n_signal_pipe = chunks } })

  with_signals :
      (q : List SignalMessage)
      → (s.piper.self).signal_queue ≡ q
      → (s.piper.self).response_n_signal_pipe ≡ 0 ∷ chunks
      → Handled s chunks 0 (handled 0)
  with_signals [] queue pipe = absurd (omega (arith, v.marked, ap marks pipe, ap length queue))
  with_signals (sig ∷ waiting) queue pipe =
      signals sig waiting refl queue (signal_out s v chunks sig waiting queue)
        (signalled-Balance s v chunks sig waiting pipe queue)

  with_responses :
      (t : ℕ) (q : List (CallMessage × Message))
      → (s.piper.self).response_queue ≡ q
      → (s.piper.self).response_n_signal_pipe ≡ suc t ∷ chunks
      → Handled s chunks (suc t) (handled (suc t))
  with_responses t [] queue pipe =
      absurd (omega (arith, v.matched, ap (λ x. length (tags x)) pipe, ap length queue))
  with_responses t ((c, res) ∷ waiting) queue pipe =
      let r = requests (s.piper.self).request_queue in
      let w = entry s.serving in
      let k = kept (s.piper.self).pipe_continuations in
      let l = leaving s.returning in
      let rest = pair (tags chunks) waiting in
      let before : owed s ≡ r ++ (w ++ (k ++ (l ++ ((suc t, c) ∷ rest)))) =
        ap₂ (λ x y. r ++ (w ++ (k ++ (l ++ pair (tags x) y)))) pipe queue in
      let out : Perm (owed s) ((suc t, c) ∷ (r ++ (w ++ (k ++ (l ++ rest))))) = rw before (
        perm-append_right r (
          perm-append_right w
            (perm-append_right k (perm-append_right l (Perm.refl ((suc t, c) ∷ rest)))))) in
      let (apart, cont, found, call) = owed_continuation s v (suc t) c _ idle out in
      let built : cont.return_ ≡ new_return c =
        Built-find (suc t) s.piper.continuations cont v.built found ∙ ap new_return call in
      answers c res waiting (λ e. omega (arith, e)) queue
        (response_out s v idle chunks (suc t) c res waiting cont (λ e. omega (arith, e)) queue apart
          found built)
        (delivered-Balance s v idle chunks t c res waiting cont pipe queue found call)

-- Whenever the dispatcher thread reads a chunk, what the chunk announces is there: with a tag the
-- front response, whose call is the one that the tag's continuation was made for, and which goes
-- out as the answer to that call; with a null pointer the front signal.
pub delivery_total :
    (s : System) (t : ℕ) (chunks : List ℕ)
    → Balance s
    → s.thrown ≡ none
    → (s.piper.self).response_n_signal_pipe ≡ t ∷ chunks
    → Handled s chunks t (
        dispatcher_pipe_handler t
          (record (s.piper) { self = record (s.piper.self) { response_n_signal_pipe = chunks } }))
delivery_total s zero chunks v idle pipe = with_signals s v idle chunks _ refl pipe
delivery_total s (suc t) chunks v idle pipe = with_responses s v idle chunks t _ refl pipe

some_injective {ℓ} : {A : Type ℓ} (a b : A) → some a ≡ some b → a ≡ b
some_injective a b e = cc

error_out :
    (s : System) (t : ℕ) (chunks : List ℕ) (p : Piper) (r : Option Piper) (c : CallMessage) (to : ℕ)
    (name message : String) (waiting : List (CallMessage × Message))
    → t ≢ 0
    → (s.piper.self).response_queue ≡ (c, error_message to name message) ∷ waiting
    → r ≡ some p
    → Handled s chunks t r
    → p.sent ≡ s.piper.sent ++ reply (return_message c.serial (text message ∷ [])) ∷ []
unfolding arguments
error_out s t chunks p r c to name message waiting h queue e (answers d res others h' queue' is b) =
    let same : (d, res) ∷ others ≡ (c, error_message to name message) ∷ waiting =
      sym queue' ∙ queue in
    let call : d ≡ c = cc in
    let response : res ≡ error_message to name message = cc in
    ap (λ (x : Piper). x.sent) (some_injective p _ (sym e ∙ is))
    ∙ ap₂ (λ x y. s.piper.sent ++ reply (answer x y) ∷ []) call response
error_out s t chunks p r c to name message waiting h queue e (signals sig others h' queue' is b) =
    absurd (h h')

-- An error that the worker's method threw, or an unknown method, does not reach the caller as an
-- error: when its response is delivered, a method return goes out instead, with the error's message
-- as its one argument, and the error's name is lost.
pub error_becomes_return :
    (s : System) (t : ℕ) (chunks : List ℕ) (p : Piper) (c : CallMessage) (to : ℕ)
    (name message : String) (waiting : List (CallMessage × Message))
    → Balance s
    → s.thrown ≡ none
    → (s.piper.self).response_n_signal_pipe ≡ t ∷ chunks
    → t ≢ 0
    → (s.piper.self).response_queue ≡ (c, error_message to name message) ∷ waiting
    → dispatcher_pipe_handler t
        (record (s.piper) { self = record (s.piper.self) { response_n_signal_pipe = chunks } })
      ≡ some p
    → p.sent ≡ s.piper.sent ++ reply (return_message c.serial (text message ∷ [])) ∷ []
error_becomes_return s t chunks p c to name message waiting v idle pipe h queue e =
    error_out s t chunks p _ c to name message waiting h queue e
      (delivery_total s t chunks v idle pipe)
