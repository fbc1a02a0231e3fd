-- ===== src/Generator/Programs/ProxyRuns.antt =====
-- What the statements of a proxy's method do (tools/generate_proxy.cpp).
use dbus_cplusplus.Common.{
  ℕ, suc, ◌≡◌, refl, sym, ap, ◌∙◌, List, [], ◌∷◌, ◌++◌, append-nil, Option, none, some, length,
  drop, codes,
}
use dbus_cplusplus.Paths.{same}
use dbus_cplusplus.Xml.{Bytes}
use dbus_cplusplus.Signature.Types.{Tree}
use dbus_cplusplus.Marshal.{Libdbus, current}
use dbus_cplusplus.Marshal.Read.{read}
use dbus_cplusplus.Generator.Programs.{Statement, set_member, invoke_method}
use dbus_cplusplus.Generator.Programs.Meaning.{
  Value, Variables, fulls, look_up, value_of, values_of, filled, State, started, World, step, run,
  run_lines,
}
use dbus_cplusplus.Generator.Programs.Runs.{
  Distinct, extracts, types, Bound, Declared, values_of-Bound, filled-Bound, Carries,
}
use dbus_cplusplus.Generator.Programs.Loops.{run-inserts, run-extracts}
use dbus_cplusplus.Generator.Programs.Calls.{writing, receiving, proxy_lines}
use dbus_cplusplus.Generator.Programs.Numbered.{length-types}

module _ (lib : Libdbus) where
  length-Declared :
      (xs : List Bytes) (ts : List Tree) (vars : Variables lib)
      → Declared lib xs ts vars
      → length xs ≡ length ts
  length-Declared [] [] vars h = refl
  length-Declared [] (t ∷ ts) vars h = absurd h
  length-Declared (x ∷ xs) [] vars h = absurd h
  length-Declared (x ∷ xs) (t ∷ ts) vars (h, hs) = ap suc (length-Declared xs ts vars hs)

  -- What the caller gets: nothing, the value that is returned, or those that are assigned.
  abbrev pub given_back : List Tree → List Bytes → State lib → Option (List (Value lib))
  given_back [] ys s = some []
  given_back (t ∷ []) ys s = elim s.result [ none ↦ none | some v ↦ some (v ∷ []) ]
  given_back (t ∷ u ∷ ts) ys s = values_of lib ys s.vars

  -- Several variables that go out are parameters of the function, with different names.
  abbrev pub Referred : List Tree → List Bytes → Variables lib → Type 0
  Referred [] ys vars = Unit {0}
  Referred (t ∷ []) ys vars = Unit {0}
  Referred (t ∷ u ∷ ts) ys vars = Declared lib ys (t ∷ u ∷ ts) vars × Distinct ys

  module _ (fuel : ℕ) (world : World lib) where
    run-writing :
        (xs : List Bytes) (vs : List (Value lib)) (is : List lib.Item) (s : State lib)
        (ls : List (List Statement))
        → Bound lib xs vs s.vars
        → Carries lib fuel vs is
        → s.written ≡ []
        → run_lines lib fuel world (writing xs ++ ls) s
          ≡ run_lines lib fuel world ls (record s { written = is })
    unfolding writing run_lines run step
    run-writing [] [] [] s ls h c e =
        ap (λ w. run_lines lib fuel world ls (record s { written = w })) e
    run-writing [] [] (i ∷ is) s ls h c e = absurd c
    run-writing [] (v ∷ vs) is s ls h c e = absurd h
    run-writing (x ∷ xs) vs is s ls h c e =
        run-inserts lib fuel world (x ∷ xs) vs is (record s { written = [] }) ls h c

    run-receiving :
        (ys : List Bytes) (ws : List (Value lib)) (os : List lib.Item) (s : State lib)
        → Referred (types lib ws) ys s.vars
        → Carries lib fuel ws os
        → s.received ≡ os
        → (after : State lib) × (run_lines lib fuel world (receiving (types lib ws) ys) s
            ≡ some after)
          × (given_back (types lib ws) ys after ≡ some ws)
    unfolding receiving run_lines run step look_up value_of same
    run-receiving ys [] os s h c e = (s, refl, refl)
    run-receiving ys ((t, v) ∷ []) [] s h c e = absurd c
    run-receiving ys ((t, v) ∷ []) (o ∷ os) s h (w, r, c) e =
        let x = codes "argout" in
        let comes = ap (λ items. read lib fuel t (current lib items)) e ∙ r in
        (
          record s {
            vars = (x, (t, some v)) ∷ (x, (t, none)) ∷ s.vars;
            unread = drop 1 s.received;
            result = some (t, v);
          },
          rw (run_lines, run, step, comes) refl,
          refl,
        )
    run-receiving ys ((t, v) ∷ (u, w) ∷ ws) os s (h, d) c e =
        let vs = (t, v) ∷ (u, w) ∷ ws in
        (
          record s { vars = filled lib ys (fulls lib vs) s.vars; unread = [] },
          ap (λ x. run_lines lib fuel world x (record s { unread = s.received }))
                (sym (append-nil (extracts ys)))
              ∙ run-extracts lib fuel world ys vs os [] (record s { unread = s.received }) [] h d c
                  (e ∙ sym (append-nil os)),
          values_of-Bound lib ys vs (filled lib ys (fulls lib vs) s.vars) (
              filled-Bound lib ys vs s.vars d
                (length-Declared ys (types lib vs) s.vars h ∙ length-types lib vs)),
        )

    -- The proxy writes the arguments and reads what comes back.
    pub run-proxy :
        (name : Bytes) (xs ys : List Bytes) (vs ws : List (Value lib)) (is os : List lib.Item)
        (vars : Variables lib)
        → Bound lib xs vs vars
        → Referred (types lib ws) ys vars
        → Carries lib fuel vs is
        → Carries lib fuel ws os
        → world.answer name is ≡ some os
        → (s : State lib) × (run_lines lib fuel world
              (proxy_lines name xs (types lib ws) ys)
              (started lib vars [])
            ≡ some s)
          × (given_back (types lib ws) ys s ≡ some ws)
    unfolding proxy_lines run_lines run step
    run-proxy name xs ys vs ws is os vars h k c d e =
        let after = (set_member name ∷ []) ∷ (invoke_method ∷ []) ∷ receiving (types lib ws) ys in
        let replied = record (started lib vars []) { written = is; called = name; received = os } in
        let (s, ran, gives) = run-receiving ys ws os replied k d refl in
        (
          s,
          run-writing xs vs is (started lib vars []) after h c refl
              ∙ (rw (run_lines, run, step, e) ran),
          gives,
        )
