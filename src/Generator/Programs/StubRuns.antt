-- ===== src/Generator/Programs/StubRuns.antt =====
-- What the statements of an adaptor's unmarshaler do (tools/generate_adaptor.cpp).
use dbus_cplusplus.Common.{
  ℕ, suc, ◌+◌, ◌≡◌, refl, sym, ap, ◌∙◌, List, [], ◌∷◌, ◌++◌, append-nil, append_assoc, some, codes,
}
use dbus_cplusplus.Xml.{Bytes}
use dbus_cplusplus.Signature.Types.{Tree}
use dbus_cplusplus.Marshal.{Libdbus}
use dbus_cplusplus.Generator.Text.{decimal}
use dbus_cplusplus.Generator.Programs.{Statement, call_with, new_reply, give_reply}
use dbus_cplusplus.Generator.Programs.Meaning.{
  Value, Variables, Variable, fulls, value_of, filled, State, started, World, step, run, run_lines,
}
use dbus_cplusplus.Generator.Programs.Runs.{
  declares, types, blanks, Bound, values_of-Bound, look_up-filled, filled-Bound, Carries, drawn,
  drawn-Bound,
}
use dbus_cplusplus.Generator.Programs.Loops.{run-inserts, run-declare_extracts, run-declares}
use dbus_cplusplus.Generator.Programs.Bodies.{numbered, length-numbered}
use dbus_cplusplus.Generator.Programs.Calls.{reading, calling, replying, adaptor_lines}
use dbus_cplusplus.Generator.Programs.Numbered.{numbered-Distinct, argin-Absent, length-types}

module _ (lib : Libdbus) where
  still-Bound :
      (i j : ℕ) (ts us : List Tree) (vs : List (Value lib)) (ws : List (Variable lib))
      (vars : Variables lib)
      → Bound lib (numbered (codes "argin") i ts) vs vars
      → Bound lib
          (numbered (codes "argin") i ts)
          vs
          (filled lib (numbered (codes "argout") j us) ws vars)
  unfolding numbered value_of
  still-Bound i j [] us [] ws vars h = tt
  still-Bound i j [] us (v ∷ vs) ws vars h = absurd h
  still-Bound i j (t ∷ ts) us [] ws vars h = absurd h
  still-Bound i j (t ∷ ts) us (v ∷ vs) ws vars (h, hs) = (
    rw
        (
          value_of,
          look_up-filled lib (codes "argin" ++ decimal (i + 1)) (numbered (codes "argout") j us) ws
              vars (argin-Absent (i + 1) j us),
        )
        h,
    still-Bound (suc i) j ts us vs ws vars hs,
  )

  module _ (fuel : ℕ) (world : World lib) where
    run-reading :
        (vs : List (Value lib)) (is : List lib.Item) (ls : List (List Statement))
        → Carries lib fuel vs is
        → run_lines lib fuel world
            (reading (types lib vs) (numbered (codes "argin") 0 (types lib vs)) ++ ls)
            (started lib [] is)
          ≡ run_lines lib fuel world ls (record (started lib [] is) {
            vars = drawn lib (numbered (codes "argin") 0 (types lib vs)) vs [];
          })
    unfolding reading run_lines run step drawn numbered
    run-reading [] [] ls c = refl
    run-reading [] (i ∷ is) ls c = absurd c
    run-reading ((t, v) ∷ vs) is ls c =
        run-declare_extracts lib fuel world (numbered (codes "argin") 0 (types lib ((t, v) ∷ vs)))
          ((t, v) ∷ vs) is [] (record (started lib [] is) { unread = is }) ls
          (length-numbered (codes "argin") 0 (types lib ((t, v) ∷ vs))
            ∙ length-types lib ((t, v) ∷ vs))
          c (sym (append-nil is))

    run-calling :
        (name : Bytes) (vs ws : List (Value lib)) (s : State lib) (ls : List (List Statement))
        → Bound lib (numbered (codes "argin") 0 (types lib vs)) vs s.vars
        → world.perform name vs ≡ ws
        → (vars : Variables lib) × Bound lib (numbered (codes "argout") 0 (types lib ws)) ws vars
          × (run_lines lib fuel world
                (calling name
                    (numbered (codes "argin") 0 (types lib vs))
                    (types lib ws)
                    (numbered (codes "argout") 0 (types lib ws))
                  ++ ls)
                s
              ≡ run_lines lib fuel world ls
                  (record s { vars = vars; calls = s.calls ++ (name, vs) ∷ [] }))
    unfolding calling run_lines run step numbered filled decimal
    run-calling name vs [] s ls h e =
        let ins = values_of-Bound lib (numbered (codes "argin") 0 (types lib vs)) vs s.vars h in
        (s.vars, tt, rw (run_lines, run, step, ins) refl)
    run-calling name vs ((t, w) ∷ []) s ls h e =
        let ins = values_of-Bound lib (numbered (codes "argin") 0 (types lib vs)) vs s.vars h in
        (
          filled lib (numbered (codes "argout") 0 (t ∷ [])) (fulls lib ((t, w) ∷ [])) s.vars,
          filled-Bound lib (numbered (codes "argout") 0 (t ∷ [])) ((t, w) ∷ []) s.vars
              (numbered-Distinct (codes "argout") 0 (t ∷ [])) refl,
          rw (run_lines, run, step, ins, e) refl,
        )
    run-calling name vs ((t, v) ∷ (u, w) ∷ ws) s ls h e =
        let ys = numbered (codes "argout") 0 (t ∷ u ∷ types lib ws) in
        let blank = filled lib ys (blanks lib (t ∷ u ∷ types lib ws)) s.vars in
        let kept =
          still-Bound 0 0 (types lib vs) (t ∷ u ∷ types lib ws) vs
            (blanks lib (t ∷ u ∷ types lib ws)) s.vars h in
        let ins = values_of-Bound lib (numbered (codes "argin") 0 (types lib vs)) vs blank kept in
        (
          filled lib ys (fulls lib ((t, v) ∷ (u, w) ∷ ws)) blank,
          filled-Bound lib ys ((t, v) ∷ (u, w) ∷ ws) blank
              (numbered-Distinct (codes "argout") 0 (t ∷ u ∷ types lib ws))
              (length-numbered (codes "argout") 0 (t ∷ u ∷ types lib ws)
                ∙ length-types lib ((t, v) ∷ (u, w) ∷ ws)),
          ap (λ x. run_lines lib fuel world x s)
                (append_assoc (declares (t ∷ u ∷ types lib ws) ys)
                  ((call_with name (numbered (codes "argin") 0 (types lib vs)) ys ∷ []) ∷ []) ls)
              ∙ (run-declares lib fuel world ys (t ∷ u ∷ types lib ws) s _
                  ∙ rw (run_lines, run, step, ins, e) refl),
        )

    run-replying :
        (ys : List Bytes) (ws : List (Value lib)) (is : List lib.Item) (s : State lib)
        (ls : List (List Statement))
        → Bound lib ys ws s.vars
        → Carries lib fuel ws is
        → s.written ≡ []
        → run_lines lib fuel world (replying ys ++ ls) s
          ≡ run_lines lib fuel world ls (record s { written = is })
    unfolding replying run_lines run step
    run-replying [] [] [] s ls h c e =
        ap (λ w. run_lines lib fuel world ls (record s { written = w })) e
    run-replying [] [] (i ∷ is) s ls h c e = absurd c
    run-replying [] (w ∷ ws) is s ls h c e = absurd h
    run-replying (y ∷ ys) ws is s ls h c e =
        run-inserts lib fuel world (y ∷ ys) ws is (record s { written = [] }) ls h c

    -- The adaptor reads the arguments, calls the method and writes what it gives out.
    pub run-adaptor :
        (name : Bytes) (vs ws : List (Value lib)) (is os : List lib.Item)
        → Carries lib fuel vs is
        → Carries lib fuel ws os
        → world.perform name vs ≡ ws
        → (s : State lib) × (run_lines lib fuel world
              (adaptor_lines name (types lib vs) (types lib ws))
              (started lib [] is)
            ≡ some s)
          × (s.written ≡ os)
          × (s.calls ≡ (name, vs) ∷ [])
    unfolding adaptor_lines run_lines run step
    run-adaptor name vs ws is os c d e =
        let ts = types lib vs in
        let us = types lib ws in
        let xs = numbered (codes "argin") 0 ts in
        let ys = numbered (codes "argout") 0 us in
        let tail = (give_reply ∷ []) ∷ [] in
        let reply = (new_reply ∷ []) ∷ (replying ys ++ tail) in
        let after = record (started lib [] is) { vars = drawn lib xs vs [] } in
        let has =
          drawn-Bound lib xs vs [] (numbered-Distinct (codes "argin") 0 ts)
            (length-numbered (codes "argin") 0 ts ∙ length-types lib vs) in
        let (vars, gives, called) = run-calling name vs ws after reply has e in
        let replied =
          run-replying ys ws os (record after { vars = vars; calls = (name, vs) ∷ [] }) tail gives d
            refl in
        (
          record after { vars = vars; written = os; calls = (name, vs) ∷ [] },
          run-reading vs is (calling name xs us ys ++ reply) c ∙ (called ∙ replied),
          refl,
          refl,
        )
