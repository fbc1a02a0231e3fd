-- ===== src/Generator/Programs/Loops.antt =====
-- What the statements of tools/generate_adaptor.cpp and tools/generate_proxy.cpp do in the loops
-- over arguments.
use dbus_cplusplus.Common.{
  ℕ, ◌≡◌, refl, sym, ap, ◌∙◌, List, [], ◌∷◌, ◌++◌, append-nil, append_assoc, none, some, length,
  drop, arith,
}
use dbus_cplusplus.Paths.Order.{same_refl}
use dbus_cplusplus.Xml.{Bytes}
use dbus_cplusplus.Signature.Types.{Tree}
use dbus_cplusplus.Marshal.{Libdbus}
use dbus_cplusplus.Generator.Programs.{Statement}
use dbus_cplusplus.Generator.Programs.Meaning.{
  Value, fulls, look_up, filled, State, World, step, run, run_lines,
}
use dbus_cplusplus.Generator.Programs.Runs.{
  inserts, extracts, declares, declare_extracts, types, blanks, Bound, Declared, Distinct, Carries,
  drawn, still-Declared,
}

module _ (lib : Libdbus) (fuel : ℕ) (world : World lib) where
  -- The lines that insert variables, and others after them
  pub run-inserts :
      (xs : List Bytes) (vs : List (Value lib)) (is : List lib.Item) (s : State lib)
      (ls : List (List Statement))
      → Bound lib xs vs s.vars
      → Carries lib fuel vs is
      → run_lines lib fuel world (inserts xs ++ ls) s
        ≡ run_lines lib fuel world ls (record s { written = s.written ++ is })
  unfolding run_lines run step inserts
  run-inserts [] [] [] s ls h c =
      ap (λ w. run_lines lib fuel world ls (record s { written = w })) (sym (append-nil s.written))
  run-inserts [] (v ∷ vs) is s ls h c = absurd h
  run-inserts [] [] (i ∷ is) s ls h c = absurd c
  run-inserts (x ∷ xs) [] is s ls h c = absurd h
  run-inserts (x ∷ xs) (v ∷ vs) [] s ls h c = absurd c
  run-inserts (x ∷ xs) ((t, v) ∷ vs) (i ∷ is) s ls (h, hs) (w, r, c) =
      rw (run_lines, run, step, h, w)
        (run-inserts xs vs is (record s { written = s.written ++ i ∷ [] }) ls hs c
          ∙ ap (λ w. run_lines lib fuel world ls (record s { written = w }))
              (append_assoc s.written (i ∷ []) is))

  -- The lines that extract variables that have been declared
  pub run-extracts :
      (xs : List Bytes) (vs : List (Value lib)) (is more : List lib.Item) (s : State lib)
      (ls : List (List Statement))
      → Declared lib xs (types lib vs) s.vars
      → Distinct xs
      → Carries lib fuel vs is
      → s.unread ≡ is ++ more
      → run_lines lib fuel world (extracts xs ++ ls) s
        ≡ run_lines lib fuel world ls
            (record s { vars = filled lib xs (fulls lib vs) s.vars; unread = more })
  unfolding run_lines run step extracts filled
  run-extracts [] [] [] more s ls h d c e =
      ap (λ u. run_lines lib fuel world ls (record s { unread = u })) e
  run-extracts [] (v ∷ vs) is more s ls h d c e = absurd h
  run-extracts [] [] (i ∷ is) more s ls h d c e = absurd c
  run-extracts (x ∷ xs) [] is more s ls h d c e = absurd h
  run-extracts (x ∷ xs) (v ∷ vs) [] more s ls h d c e = absurd c
  run-extracts (x ∷ xs) ((t, v) ∷ vs) (i ∷ is) more s ls ((o, h), hs) (d, ds) (w, r, c) e =
      rw (run_lines, run, step, h, e, r)
        (run-extracts xs vs is more
          (record s { vars = (x, (t, some v)) ∷ s.vars; unread = drop 1 s.unread }) ls
          (still-Declared lib x (t, some v) xs (types lib vs) s.vars d hs) ds c (ap (drop 1) e))

  -- The lines that declare variables and extract them
  pub run-declare_extracts :
      (xs : List Bytes) (vs : List (Value lib)) (is more : List lib.Item) (s : State lib)
      (ls : List (List Statement))
      → length xs ≡ length vs
      → Carries lib fuel vs is
      → s.unread ≡ is ++ more
      → run_lines lib fuel world (declare_extracts (types lib vs) xs ++ ls) s
        ≡ run_lines lib fuel world ls (record s { vars = drawn lib xs vs s.vars; unread = more })
  unfolding run_lines run step declare_extracts drawn look_up
  run-declare_extracts [] [] [] more s ls h c e =
      ap (λ u. run_lines lib fuel world ls (record s { unread = u })) e
  run-declare_extracts [] (v ∷ vs) is more s ls h c e = absurd (omega (arith, h))
  run-declare_extracts xs [] (i ∷ is) more s ls h c e = absurd c
  run-declare_extracts (x ∷ xs) [] is more s ls h c e = absurd (omega (arith, h))
  run-declare_extracts xs (v ∷ vs) [] more s ls h c e = absurd c
  run-declare_extracts (x ∷ xs) ((t, v) ∷ vs) (i ∷ is) more s ls h (w, r, c) e =
      rw (run_lines, run, step, look_up, same_refl x, e, r)
        (run-declare_extracts xs vs is more
          (record s { vars = (x, (t, some v)) ∷ (x, (t, none)) ∷ s.vars; unread = drop 1 s.unread })
          ls (omega (arith, h)) c (ap (drop 1) e))

  -- The lines that declare variables
  pub run-declares :
      (xs : List Bytes) (ts : List Tree) (s : State lib) (ls : List (List Statement))
      → run_lines lib fuel world (declares ts xs ++ ls) s
        ≡ run_lines lib fuel world ls (record s { vars = filled lib xs (blanks lib ts) s.vars })
  unfolding run_lines run step declares filled
  run-declares [] [] s ls = refl
  run-declares [] (t ∷ ts) s ls = refl
  run-declares (x ∷ xs) [] s ls = refl
  run-declares (x ∷ xs) (t ∷ ts) s ls =
      run-declares xs ts (record s { vars = (x, (t, none)) ∷ s.vars }) ls
