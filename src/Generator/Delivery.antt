-- ===== src/Generator/Delivery.antt =====
-- A signal from a generated adaptor to a generated proxy (tools/generate_adaptor.cpp,
-- tools/generate_proxy.cpp).
use dbus_cplusplus.Common.{
  ℕ, Bool, true, ◌≡◌, refl, sym, ap, ◌∙◌, List, [], ◌∷◌, ◌++◌, append-nil, none, some, length, drop,
  arith, codes,
}
use dbus_cplusplus.Paths.Order.{same_refl}
use dbus_cplusplus.Xml.{Bytes, Node}
use dbus_cplusplus.Marshal.{Libdbus}
use dbus_cplusplus.Signature.Names.{stub_name}
use dbus_cplusplus.Generator.{Output, put}
use dbus_cplusplus.Generator.Text.{tab, text}
use dbus_cplusplus.Generator.Programs.{Statement, show_lines, emit_signal, call_with}
use dbus_cplusplus.Generator.Programs.Meaning.{
  Value, Variables, State, started, World, look_up, filled, step, run, run_lines,
}
use dbus_cplusplus.Generator.Programs.Scope.{compiles, run_function}
use dbus_cplusplus.Generator.Programs.Runs.{
  Distinct, types, Bound, values_of-Bound, Carries, AllGood, AllGood-Carries, drawn, drawn-Bound,
}
use dbus_cplusplus.Generator.Programs.Loops.{run-inserts}
use dbus_cplusplus.Generator.Adaptor.Emitters.{emitter_body}
use dbus_cplusplus.Generator.Proxy.Signals.{put_signal_unmarshaler}
use dbus_cplusplus.Generator.Programs.Bodies.{AllPlain, names, numbered, length-AllPlain}
use dbus_cplusplus.Generator.Programs.Calls.{name_of}
use dbus_cplusplus.Generator.Programs.Numbered.{length-types}
use dbus_cplusplus.Generator.Programs.Emissions.{
  args_of, appending, emitter_lines, reads_of, taking, handler_lines, length-names,
  emitter_body-shown, put_signal_unmarshaler-shown,
}

module _ (lib : Libdbus) (fuel : ℕ) (world : World lib) where
  run-appending :
      (xs : List Bytes) (vs : List (Value lib)) (is : List lib.Item) (s : State lib)
      (ls : List (List Statement))
      → Bound lib xs vs s.vars
      → Carries lib fuel vs is
      → s.written ≡ []
      → run_lines lib fuel world (appending xs ++ ls) s
        ≡ run_lines lib fuel world ls (record s { written = is })
  unfolding appending run_lines run step
  run-appending [] [] [] s ls h c e =
      ap (λ w. run_lines lib fuel world ls (record s { written = w })) e
  run-appending [] [] (i ∷ is) s ls h c e = absurd c
  run-appending [] (v ∷ vs) is s ls h c e = absurd h
  run-appending (x ∷ xs) vs is s ls h c e =
      run-inserts lib fuel world (x ∷ xs) vs is (record s { written = [] }) ls h c

  run-reads_of :
      (xs : List Bytes) (vs : List (Value lib)) (is more : List lib.Item) (s : State lib)
      (ls : List (List Statement))
      → length xs ≡ length vs
      → Carries lib fuel vs is
      → s.unread ≡ is ++ more
      → run_lines lib fuel world (reads_of (types lib vs) xs ++ ls) s
        ≡ run_lines lib fuel world ls (record s { vars = drawn lib xs vs s.vars; unread = more })
  unfolding run_lines run step reads_of drawn look_up
  run-reads_of [] [] [] more s ls h c e =
      ap (λ u. run_lines lib fuel world ls (record s { unread = u })) e
  run-reads_of [] (v ∷ vs) is more s ls h c e = absurd (omega (arith, h))
  run-reads_of xs [] (i ∷ is) more s ls h c e = absurd c
  run-reads_of (x ∷ xs) [] is more s ls h c e = absurd (omega (arith, h))
  run-reads_of xs (v ∷ vs) [] more s ls h c e = absurd c
  run-reads_of (x ∷ xs) ((t, v) ∷ vs) (i ∷ is) more s ls h (w, r, c) e =
      rw (run_lines, run, step, look_up, same_refl x, e, r)
        (run-reads_of xs vs is more
          (record s { vars = (x, (t, some v)) ∷ (x, (t, none)) ∷ s.vars; unread = drop 1 s.unread })
          ls (omega (arith, h)) c (ap (drop 1) e))

  run-taking :
      (xs : List Bytes) (vs : List (Value lib)) (is : List lib.Item) (ls : List (List Statement))
      → length xs ≡ length vs
      → Carries lib fuel vs is
      → run_lines lib fuel world (taking (types lib vs) xs ++ ls) (started lib [] is)
        ≡ run_lines lib fuel world ls (record (started lib [] is) { vars = drawn lib xs vs [] })
  unfolding taking run_lines run step drawn
  run-taking [] [] [] ls h c = refl
  run-taking xs [] (i ∷ is) ls h c = absurd c
  run-taking (x ∷ xs) [] is ls h c = absurd (omega (arith, h))
  run-taking xs ((t, v) ∷ vs) is ls h c =
      run-reads_of xs ((t, v) ∷ vs) is [] (record (started lib [] is) { unread = is }) ls h c
        (sym (append-nil is))

  -- The functions that the generators write for a signal are the texts of statements, where its
  -- arguments have the types of some values and no annotation for an object. Where both functions
  -- are well-formed, that of the adaptor, run with these values in its parameters, which are valid
  -- for a message, sends one signal of that name; that of the proxy, run on what was sent, calls
  -- the handler once, with these values in their order. They are well-formed if the names are
  -- identifiers, no argument is called like another or like a variable of the function, and none
  -- hides a function that is called.
  pub signal_delivered :
      (is_identifier : Bytes → Bool) (signal : Node) (vs : List (Value lib)) (vars : Variables lib)
      (out : Output)
      → AllPlain (types lib vs) (args_of signal)
      → AllGood lib fuel vs
      → Bound lib (numbered (codes "arg") 0 (types lib vs)) vs vars
      → compiles is_identifier
          (numbered (codes "arg") 0 (types lib vs))
          (emitter_lines (name_of signal) (types lib vs))
        ≡ true
      → compiles is_identifier
          (codes "sig" ∷ [])
          (handler_lines (name_of signal) (types lib vs) (names (codes "arg") 0 (args_of signal)))
        ≡ true
      → Distinct (names (codes "arg") 0 (args_of signal))
      → (emitter_body signal
          ≡ text (
              codes ")\n"
              ∷ tab
              ∷ codes "{\n"
              ∷ show_lines (emitter_lines (name_of signal) (types lib vs))
              ∷ tab
              ∷ codes "}\n"
              ∷ []))
        × (put_signal_unmarshaler signal out
            ≡ put
                (text (
                  tab
                  ∷ codes "void "
                  ∷ stub_name (name_of signal)
                  ∷ codes "(const ::DBus::SignalMessage &sig)\n"
                  ∷ tab
                  ∷ codes "{\n"
                  ∷ show_lines (
                      handler_lines
                        (name_of signal)
                        (types lib vs)
                        (names (codes "arg") 0 (args_of signal)))
                  ∷ tab
                  ∷ codes "}\n"
                  ∷ []))
                out)
        × (items : List lib.Item) × (emitted received : State lib) × (run_function lib fuel
              is_identifier world
              (numbered (codes "arg") 0 (types lib vs))
              (emitter_lines (name_of signal) (types lib vs))
              (started lib vars [])
            ≡ some emitted)
        × (emitted.sent ≡ (name_of signal, items) ∷ [])
        × (run_function lib fuel is_identifier world
              (codes "sig" ∷ [])
              (handler_lines
                (name_of signal)
                (types lib vs)
                (names (codes "arg") 0 (args_of signal)))
              (started lib [] items)
            ≡ some received)
        × (received.calls ≡ (name_of signal, vs) ∷ [])
  unfolding emitter_lines handler_lines run_lines run step filled run_function
  signal_delivered is_identifier signal vs vars out h good bound compiled compiled' distinct =
      let name = name_of signal in
      let ts = types lib vs in
      let xs = names (codes "arg") 0 (args_of signal) in
      let (items, c) = AllGood-Carries lib fuel vs good in
      let long =
        length-names (codes "arg") 0 (args_of signal)
        ∙ (length-AllPlain ts (args_of signal) h ∙ length-types lib vs) in
      let has = drawn-Bound lib xs vs [] distinct long in
      let got = values_of-Bound lib xs vs (drawn lib xs vs []) has in
      (
        emitter_body-shown signal ts h,
        put_signal_unmarshaler-shown signal ts out h,
        items,
        record (started lib vars []) { written = items; called = name; sent = (name, items) ∷ [] },
        record (started lib [] items) { vars = drawn lib xs vs []; calls = (name, vs) ∷ [] },
        rw compiled (
            run-appending (numbered (codes "arg") 0 ts) vs items
              (record (started lib vars []) { called = name }) ((emit_signal ∷ []) ∷ []) bound c
              refl),
        refl,
        rw compiled' (
            run-taking xs vs items ((call_with name xs [] ∷ []) ∷ []) long c
            ∙ rw (run_lines, run, step, got) refl),
        refl,
      )
