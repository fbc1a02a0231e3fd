-- ===== src/Generator/Remote.antt =====
-- A call from a generated proxy to a generated adaptor (tools/generate_proxy.cpp,
-- tools/generate_adaptor.cpp).
use dbus_cplusplus.Common.{ℕ, Bool, ◌++◌, List, [], ◌∷◌, Option, none, some, if◌then◌else◌, codes}
use dbus_cplusplus.Paths.{same}
use dbus_cplusplus.Xml.{Bytes, Node}
use dbus_cplusplus.Marshal.{Libdbus}
use dbus_cplusplus.Generator.Adaptor.Parameters.{in_of, out_of}
use dbus_cplusplus.Generator.Programs.{Statement}
use dbus_cplusplus.Generator.Programs.Meaning.{Value, started, World}
use dbus_cplusplus.Generator.Programs.Scope.{run_function}
use dbus_cplusplus.Generator.Programs.Runs.{types}
use dbus_cplusplus.Generator.Programs.Bodies.{names}
use dbus_cplusplus.Generator.Programs.Calls.{name_of, proxy_lines, adaptor_lines}

-- One value that goes out is what the proxy's function returns.
abbrev pub by_reference : List Bytes → List Bytes
by_reference [] = []
by_reference (y ∷ []) = []
by_reference (y ∷ z ∷ ys) = y ∷ z ∷ ys

-- Several values that go out are parameters of the proxy's function.
abbrev pub parameters_of : Node → List Bytes
parameters_of method =
    names (codes "argin") 0 (in_of method)
    ++ by_reference (names (codes "argout") 0 (out_of method))

module _ (lib : Libdbus) (fuel : ℕ) (is_identifier : Bytes → Bool) where
  -- The service, which runs the lines of its function for the calls of a member.
  unfoldable pub served :
      Bytes
      → List (List Statement)
      → (Bytes → List (Value lib) → List (Value lib))
      → Bytes
      → List lib.Item
      → Option (List lib.Item)
  unfolding run_function
  served name ls perform member items =
      if same member name
      then elim (run_function lib fuel is_identifier
          (record { answer = λ m is. none; perform = perform }) (codes "call" ∷ []) ls
          (started lib [] items)) [ none ↦ none | some s ↦ some s.written ]
      else none

  -- The client's world
  abbrev pub remote :
      Bytes → List (List Statement) → (Bytes → List (Value lib) → List (Value lib)) → World lib
  remote name ls perform = record { answer = served name ls perform; perform = λ n vs. [] }

  -- The statements of both functions for a method
  abbrev pub proxy_of : Node → List (Value lib) → List (List Statement)
  proxy_of method outs =
      proxy_lines (name_of method) (names (codes "argin") 0 (in_of method)) (types lib outs)
        (names (codes "argout") 0 (out_of method))

  abbrev pub adaptor_of : Node → List (Value lib) → List (Value lib) → List (List Statement)
  adaptor_of method ins outs = adaptor_lines (name_of method) (types lib ins) (types lib outs)
