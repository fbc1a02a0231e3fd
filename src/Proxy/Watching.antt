-- ===== src/Proxy/Watching.antt =====
-- register_obj and unregister_obj of an ObjectProxy (src/object.cpp): what is left of a proxy in
-- libdbus and on the bus.
use text.Mathlib.Text.{◌==◌}
use text.Mathlib.TextPositions.{eq_refl}
use dbus_cplusplus.Common.{
  ℕ, suc, ◌+◌, ◌≡◌, ◌≢◌, refl, sym, ap, ◌∙◌, String, Bool, true, false, List, [], ◌∷◌, none, some,
  if◌then◌else◌, arith, Option-cases, inl, inr,
}
use dbus_cplusplus.Connection.{Bus, Connection, Error, add_match, remove_match}
use dbus_cplusplus.Proxy.{
  ObjectProxy, rule, add_matches, register_obj, remove_matches, unregister_obj,
}

-- How often each match rule and each filter is there, and what the operations do to that.
pub record Watch (bus : Bus) : Type 0 where
  pub rules : String → bus.State → ℕ
  pub filters : ℕ → bus.State → ℕ
  pub rules-add_match :
      (q r : String) (s : bus.State)
      → (bus.add_match r s).1 ≡ none
      → rules q (bus.add_match r s).0 ≡ (if q == r then suc (rules q s) else rules q s)
  pub rules-remove_match :
      (r : String) (s : bus.State)
      → rules r s ≢ 0
      → ((bus.remove_match r s).1 ≡ none)
        × ((q : String)
            → rules q s ≡ (
                if q == r
                then suc (rules q (bus.remove_match r s).0)
                else rules q (bus.remove_match r s).0))
  pub rules-add_filter :
      (q : String) (f : ℕ) (s : bus.State) → rules q (bus.add_filter f s).0 ≡ rules q s
  pub rules-remove_filter :
      (q : String) (f : ℕ) (s : bus.State) → rules q (bus.remove_filter f s) ≡ rules q s
  pub filters-add_match :
      (f : ℕ) (r : String) (s : bus.State) → filters f (bus.add_match r s).0 ≡ filters f s
  pub filters-remove_match :
      (f : ℕ) (r : String) (s : bus.State) → filters f (bus.remove_match r s).0 ≡ filters f s
  pub filters-add_filter :
      (f : ℕ) (s : bus.State)
      → (bus.add_filter f s).1 ≡ true
      → filters f (bus.add_filter f s).0 ≡ suc (filters f s)
  pub filters-remove_filter :
      (f : ℕ) (s : bus.State)
      → filters f s ≢ 0
      → filters f s ≡ suc (filters f (bus.remove_filter f s))

unfoldable wanted : String → String → List (String × List (String × ℕ)) → ℕ
wanted q path [] = 0
wanted q path ((i, signals) ∷ ii) =
    let rest = wanted q path ii in if q == rule i path then suc rest else rest

module _ (bus : Bus) (w : Watch bus) where
  open w use {rules, filters}

  add_matches-filters :
      (f : ℕ) (path : String) (ii : List (String × List (String × ℕ))) (c : Connection bus)
      → filters f (add_matches bus path ii c).0.state ≡ filters f c.state
  unfolding add_matches add_match
  add_matches-filters f path [] c = refl
  add_matches-filters f path ((i, signals) ∷ ii) c =
      let first = bus.add_match (rule i path) c.state in
      elim (Option-cases first.1) [
        | inl ok ↦
            rw (add_matches, ok)
              (add_matches-filters f path ii (record c { state = first.0 })
                ∙ w.filters-add_match f (rule i path) c.state)
        | inr (e, err) ↦ rw (add_matches, err) (w.filters-add_match f (rule i path) c.state)
      ]

  add_matches_first :
      (path i : String) (signals : List (String × ℕ)) (ii : List (String × List (String × ℕ)))
      (c : Connection bus)
      → (bus.add_match (rule i path) c.state).1 ≡ none
      → add_matches bus path ((i, signals) ∷ ii) c
        ≡ add_matches bus path ii (record c { state = (bus.add_match (rule i path) c.state).0 })
  unfolding add_matches add_match
  add_matches_first path i signals ii c ok = rw (add_matches, ok) refl

  add_matches_thrown :
      (path i : String) (signals : List (String × ℕ)) (ii : List (String × List (String × ℕ)))
      (c : Connection bus) (e : Error)
      → (bus.add_match (rule i path) c.state).1 ≡ some e
      → (add_matches bus path ((i, signals) ∷ ii) c).1 ≡ some e
  unfolding add_matches add_match
  add_matches_thrown path i signals ii c e err = rw (add_matches, err) refl

  remove_matches_first :
      (throw : Bool) (path i : String) (signals : List (String × ℕ))
      (ii : List (String × List (String × ℕ))) (c : Connection bus)
      → (bus.remove_match (rule i path) c.state).1 ≡ none
      → remove_matches bus throw path ((i, signals) ∷ ii) c
        ≡ remove_matches bus throw path ii
            (record c { state = (bus.remove_match (rule i path) c.state).0 })
  unfolding remove_matches remove_match
  remove_matches_first true path i signals ii c ok = rw (remove_matches, ok) refl
  remove_matches_first false path i signals ii c ok = refl

  add_matches-rules :
      (q path : String) (ii : List (String × List (String × ℕ))) (c : Connection bus)
      → (add_matches bus path ii c).1 ≡ none
      → rules q (add_matches bus path ii c).0.state ≡ rules q c.state + wanted q path ii
  unfolding add_matches add_match wanted
  add_matches-rules q path [] c h = ground (arith)
  add_matches-rules q path ((i, signals) ∷ ii) c h =
      let first = bus.add_match (rule i path) c.state in
      elim (Option-cases first.1) [
        | inl ok ↦
            let step = add_matches_first path i signals ii c ok in
            let rest =
              add_matches-rules q path ii (record c { state = first.0 })
                (ap (λ x. x.1) (sym step) ∙ h) in
            let here = w.rules-add_match q (rule i path) c.state ok in
            ap (λ x. rules q x.0.state) step ∙ ground (arith, rest, here)
        | inr (e, err) ↦
            absurd (
              let thrown = add_matches_thrown path i signals ii c e err in
              ground (arith, thrown, h))
      ]

  remove_matches-rules :
      (throw : Bool) (path : String) (ii : List (String × List (String × ℕ))) (c : Connection bus)
      (k : String → ℕ)
      → ((q : String) → rules q c.state ≡ k q + wanted q path ii)
      → ((remove_matches bus throw path ii c).1 ≡ none)
        × ((q : String) → rules q (remove_matches bus throw path ii c).0.state ≡ k q)
        × ((f : ℕ) → filters f (remove_matches bus throw path ii c).0.state ≡ filters f c.state)
  unfolding remove_matches remove_match wanted
  remove_matches-rules throw path [] c k h = (refl, λ q. ground (arith, h q), λ f. refl)
  remove_matches-rules throw path ((i, signals) ∷ ii) c k h =
      let r = rule i path in
      let there = w.rules-remove_match r c.state (λ z. ground (arith, h r, z, eq_refl r)) in
      let step = remove_matches_first throw path i signals ii c there.0 in
      let rest =
        remove_matches-rules throw path ii (record c { state = (bus.remove_match r c.state).0 }) k
          (λ q. ground (arith, h q, there.1 q)) in
      (
        ap (λ x. x.1) step ∙ rest.0,
        λ q. ap (λ x. rules q x.0.state) step ∙ rest.1 q,
        λ f. ap (λ x. filters f x.0.state) step ∙ (rest.2 f ∙ w.filters-remove_match f r c.state),
      )

  -- What register_obj did without an error, unregister_obj undoes without one, whether it is to
  -- throw or not: every match rule is there as often as before, and so is the proxy's filter.
  pub register_obj-unregister_obj :
      (throw : Bool) (p : ObjectProxy) (c : Connection bus)
      → (bus.add_filter p.filtered c.state).1 ≡ true
      → (register_obj bus p c).1 ≡ none
      → ((unregister_obj bus throw p (register_obj bus p c).0).1 ≡ none)
        × ((q : String)
            → rules q (unregister_obj bus throw p (register_obj bus p c).0).0.state
              ≡ rules q c.state)
        × (filters p.filtered (unregister_obj bus throw p (register_obj bus p c).0).0.state
            ≡ filters p.filtered c.state)
  unfolding register_obj unregister_obj
  register_obj-unregister_obj throw p c added none_thrown =
      let start : Connection bus = record c { state = (bus.add_filter p.filtered c.state).0 } in
      let watching : Connection bus = (add_matches bus p.path p.interfaces start).0 in
      let left = (remove_matches bus throw p.path p.interfaces watching).0 in
      let removed =
        remove_matches-rules throw p.path p.interfaces watching (λ q. rules q c.state)
          (λ q.
            add_matches-rules q p.path p.interfaces start none_thrown
            ∙ ap (λ n. n + wanted q p.path p.interfaces)
                (w.rules-add_filter q p.filtered c.state)) in
      let step : unregister_obj bus throw p watching
          ≡ (record left { state = bus.remove_filter p.filtered left.state }, none) =
        rw (unregister_obj, removed.0) refl in
      let one_more : filters p.filtered left.state ≡ suc (filters p.filtered c.state) =
        removed.2 p.filtered
        ∙ (add_matches-filters p.filtered p.path p.interfaces start
            ∙ w.filters-add_filter p.filtered c.state added) in
      let taken =
        w.filters-remove_filter p.filtered left.state (λ z. ground (arith, one_more, z)) in
      (
        ap (λ x. x.1) step,
        λ q.
            ap (λ x. rules q x.0.state) step
            ∙ (w.rules-remove_filter q p.filtered left.state ∙ removed.1 q),
        ap (λ x. filters p.filtered x.0.state) step ∙ ground (arith, one_more, taken),
      )

  -- A register_obj that throws, as when a match rule is refused, leaves the filter of the proxy in
  -- place, although the proxy's constructor has failed.
  pub register_obj_thrown :
      (p : ObjectProxy) (c : Connection bus) (e : Error)
      → (bus.add_filter p.filtered c.state).1 ≡ true
      → (register_obj bus p c).1 ≡ some e
      → filters p.filtered (register_obj bus p c).0.state ≡ suc (filters p.filtered c.state)
  unfolding register_obj
  register_obj_thrown p c e added thrown =
      add_matches-filters p.filtered p.path p.interfaces _
      ∙ w.filters-add_filter p.filtered c.state added
