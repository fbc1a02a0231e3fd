-- ===== src/BusLoop/Flags.antt =====
-- The flags of watches between libdbus and poll (src/eventloop-integration.cpp).
use Prim.Native.Nat.{bit_or}
use dbus_cplusplus.Common.{ℕ, ◌≡◌, refl, sym, ap₂, ◌∙◌, Bool, true, false, not, ◌||◌}
use dbus_cplusplus.BusLoop.{
  has, with_bit, poll_flags, ready_flags, watch_readable, watch_writable, watch_error, watch_hangup,
  pollin, pollout, pollerr, pollhup,
}

-- The events for a readable and a writable watch
events_for : Bool → Bool → ℕ
events_for r w = with_bit w pollout (with_bit r pollin (bit_or pollhup pollerr))

events_lem :
    (r w : Bool)
    → (has (events_for r w) pollin ≡ r)
      × (has (events_for r w) pollout ≡ w)
      × (has (events_for r w) pollhup ≡ true)
      × (has (events_for r w) pollerr ≡ true)
unfolding events_for
events_lem true true = (refl, refl, refl, refl)
events_lem true false = (refl, refl, refl, refl)
events_lem false true = (refl, refl, refl, refl)
events_lem false false = (refl, refl, refl, refl)

told_for : Bool → Bool → Bool → Bool → ℕ
told_for i o h e =
    with_bit e watch_error
      (with_bit h watch_hangup (with_bit o watch_writable (with_bit i watch_readable 0)))

told_lem :
    (i o h e : Bool)
    → (has (told_for i o h e) watch_readable ≡ i)
      × (has (told_for i o h e) watch_writable ≡ o)
      × (has (told_for i o h e) watch_hangup ≡ h)
      × (has (told_for i o h e) watch_error ≡ e)
unfolding told_for
told_lem true true true true = (refl, refl, refl, refl)
told_lem true true true false = (refl, refl, refl, refl)
told_lem true true false true = (refl, refl, refl, refl)
told_lem true true false false = (refl, refl, refl, refl)
told_lem true false true true = (refl, refl, refl, refl)
told_lem true false true false = (refl, refl, refl, refl)
told_lem true false false true = (refl, refl, refl, refl)
told_lem true false false false = (refl, refl, refl, refl)
told_lem false true true true = (refl, refl, refl, refl)
told_lem false true true false = (refl, refl, refl, refl)
told_lem false true false true = (refl, refl, refl, refl)
told_lem false true false false = (refl, refl, refl, refl)
told_lem false false true true = (refl, refl, refl, refl)
told_lem false false true false = (refl, refl, refl, refl)
told_lem false false false true = (refl, refl, refl, refl)
told_lem false false false false = (refl, refl, refl, refl)

-- One flag implies another.
infix 20 ◌implies◌
abbrev pub ◌implies◌ : Bool → Bool → Bool
b implies c = not b || c

-- poll is asked for what libdbus wants to know of a watch, and always for hangups and errors. Of
-- any answer, libdbus is told the four events that it knows, each by its own flag; and where poll
-- reports reading and writing only as asked, libdbus is told of neither unless it wanted to be.
pub ready_flags-poll_flags :
    (flags state : ℕ)
    → (has state pollin implies has (poll_flags flags) pollin) ≡ true
    → (has state pollout implies has (poll_flags flags) pollout) ≡ true
    → (has (poll_flags flags) pollin ≡ has flags watch_readable)
      × (has (poll_flags flags) pollout ≡ has flags watch_writable)
      × (has (poll_flags flags) pollhup ≡ true)
      × (has (poll_flags flags) pollerr ≡ true)
      × (has (ready_flags state) watch_readable ≡ has state pollin)
      × (has (ready_flags state) watch_writable ≡ has state pollout)
      × (has (ready_flags state) watch_hangup ≡ has state pollhup)
      × (has (ready_flags state) watch_error ≡ has state pollerr)
      × ((has (ready_flags state) watch_readable implies has flags watch_readable) ≡ true)
      × ((has (ready_flags state) watch_writable implies has flags watch_writable) ≡ true)
unfolding poll_flags ready_flags events_for told_for
ready_flags-poll_flags flags state asked_in asked_out =
    let (ein, eout, ehup, eerr) =
      events_lem (has flags watch_readable) (has flags watch_writable) in
    let (tin, tout, thup, terr) =
      told_lem (has state pollin) (has state pollout) (has state pollhup) (has state pollerr) in
    (
      ein,
      eout,
      ehup,
      eerr,
      tin,
      tout,
      thup,
      terr,
      ap₂ ◌implies◌ tin (sym ein) ∙ asked_in,
      ap₂ ◌implies◌ tout (sym eout) ∙ asked_out,
    )
