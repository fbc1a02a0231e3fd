-- ===== src/Piper/System/Forward.antt =====
-- The dispatcher thread forwards a call (RequestPiper::_Forwarding_stub, src/request-piper.cpp) and
-- registers its continuation (ObjectAdaptor::handle_message, src/object.cpp): the account balances.
use mathlib.Core.List.{
  Mem, Nodup, Perm, map-append, map-map, mem-append_left, perm_append_singleton,
}
use mathlib.Core.List.Perm
use dbus_cplusplus.Common.{
  ℕ, ◌≡◌, refl, sym, ap, subst, ◌∙◌, List, [], ◌∷◌, ◌++◌, map, none, some, length-append,
  append-nil, arith,
}
use dbus_cplusplus.Common.Perms.{keys, perm_add, distinct_add, distinct_absent, insert_absent}
use dbus_cplusplus.Message.{CallMessage}
use dbus_cplusplus.Interface.{later}
use dbus_cplusplus.Common.Dict.{insert}
use dbus_cplusplus.Object.{Continuation, conclude, new_continuation}
use dbus_cplusplus.Piper.{forwarding_stub}
use dbus_cplusplus.Piper.System.{
  System, promised, entry, registered_calls, with_queues, IsFresh, reply_serials,
}
use dbus_cplusplus.Piper.System.Account.{Balance, owed, serials}
use dbus_cplusplus.Piper.System.Account.Parts.{Built-append}

keys-registered : (cs : List (ℕ × Continuation)) → keys (registered_calls cs) ≡ keys cs
keys-registered cs = map-map (λ (x : ℕ × CallMessage). x.0) _ cs

-- One more entry at the end of the first part.
grow {ℓ} : {A : Type ℓ} (xs ys : List A) (x : A) → Perm ((xs ++ x ∷ []) ++ ys) (x ∷ (xs ++ ys))
grow xs ys x = Perm.append_right ys (perm_append_singleton x xs)

module _ (s : System) (v : Balance s) (c : CallMessage) (t : ℕ) where
  abbrev pub forwarded : System
  forwarded = record (with_queues s (forwarding_stub c (record (s.piper.self) { new_tag = t })).0) {
    thrown = some (c, t);
    accepted = s.accepted ++ c ∷ [];
  }

  pub forwards-Balance : s.thrown ≡ none → IsFresh t s → Balance forwarded
  unfolding forwarding_stub
  forwards-Balance idle fresh =
      let conts = registered_calls s.piper.continuations in
      let now : promised s ≡ conts = ap (λ x. conts ++ entry x) idle ∙ append-nil conts in
      record {
        balanced =
            rw
              (map-append {B = ℕ × CallMessage} (λ (e : CallMessage × ℕ). (e.1, e.0))
                (s.piper.self).request_queue ((c, t) ∷ []))
              (perm_add (grow _ _ (t, c)) (perm_append_singleton (t, c) conts)
                (subst (λ p. Perm (owed s) p) now v.balanced));
        distinct =
            distinct_add
              (rw (map-append (λ (e : ℕ × CallMessage). e.0) conts ((t, c) ∷ []))
                (grow (keys conts) (keys (s.piper.self).pipe_continuations) t))
              fresh.0
              (subst (λ p. ¬ Mem t (keys p ++ keys (s.piper.self).pipe_continuations)) now fresh.1)
              (subst (λ p. Nodup (0 ∷ (keys p ++ keys (s.piper.self).pipe_continuations))) now
                v.distinct);
        matched = v.matched;
        marked = v.marked;
        wakeups =
            omega (arith, v.wakeups, length-append (s.piper.self).request_queue ((c, t) ∷ []));
        answered = rw (map-append (λ (d : CallMessage). d.serial) s.accepted (c ∷ [])) (
            rw (map-append (λ (e : ℕ × CallMessage). (e.1).serial) conts ((t, c) ∷ [])) (
              perm_add (perm_append_singleton c.serial _) (grow (serials conts) _ c.serial) (
                subst
                  (λ p.
                    Perm (map (λ (d : CallMessage). d.serial) s.accepted)
                      (serials p ++ reply_serials s.piper.sent))
                  now v.answered)));
        built = v.built;
      }

module _ (s : System) (v : Balance s) (c : CallMessage) (t : ℕ) where
  abbrev pub caught : System
  caught = record s { piper = conclude c (later t) s.piper; thrown = none }

  pub catches-Balance : s.thrown ≡ some (c, t) → Balance caught
  unfolding conclude new_continuation
  catches-Balance e =
      let conts = s.piper.continuations in
      let waiting : promised s ≡ registered_calls conts ++ (t, c) ∷ [] =
        ap (λ x. registered_calls conts ++ entry x) e in
      let new_one = new_continuation c in
      let tagged = keys (s.piper.self).pipe_continuations in
      let taken : Perm (keys (registered_calls conts ++ (t, c) ∷ []) ++ tagged)
          (t ∷ (keys (registered_calls conts) ++ tagged)) =
        rw (map-append (λ (x : ℕ × CallMessage). x.0) (registered_calls conts) ((t, c) ∷ []))
          (grow (keys (registered_calls conts)) tagged t) in
      let alone : ¬ Mem t (keys (registered_calls conts) ++ tagged) =
        distinct_absent taken (subst (λ p. Nodup (0 ∷ (keys p ++ tagged))) waiting v.distinct) in
      let absent : ¬ Mem t (keys conts) =
        λ m. alone (mem-append_left tagged (rw (keys-registered conts) m)) in
      let there : insert t new_one conts ≡ conts ++ (t, new_one) ∷ [] =
        insert_absent t new_one conts absent in
      let same : promised s ≡ promised caught =
        waiting
        ∙ sym (
            map-append {B = ℕ × CallMessage} (λ (x : ℕ × Continuation). (x.0, (x.1).call)) conts
              ((t, new_one) ∷ []))
        ∙ ap registered_calls (sym there)
        ∙ sym (append-nil (registered_calls (insert t new_one conts))) in
      record {
        balanced = subst (λ p. Perm (owed s) p) same v.balanced;
        distinct =
            subst (λ p. Nodup (0 ∷ (keys p ++ keys (s.piper.self).pipe_continuations))) same
              v.distinct;
        matched = v.matched;
        marked = v.marked;
        wakeups = v.wakeups;
        answered =
            subst
              (λ p.
                Perm (map (λ (d : CallMessage). d.serial) s.accepted)
                  (serials p ++ reply_serials s.piper.sent))
              same v.answered;
        built = rw there (Built-append conts t new_one v.built refl);
      }
