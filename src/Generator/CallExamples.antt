-- ===== src/Generator/CallExamples.antt =====
-- A method between generated code (tools/generate_adaptor.cpp, tools/generate_proxy.cpp), and the namespaces of an interface.
use dbus_cplusplus.Common.{
  ◌≡◌, ◌≤◌, ◌+◌, arith, refl, Bool, not, true, false, List, [], ◌∷◌, ◌++◌, none, some, codes,
}
use dbus_cplusplus.Signature.Types.{atom, int32, string, uint32, boolean}
use dbus_cplusplus.Paths.{same}
use dbus_cplusplus.Xml.{Bytes, Node, node, nil, cons, get, named, children_named, select}
use dbus_cplusplus.Marshal.Types.{TypeOf}
use dbus_cplusplus.Marshal.Valid.{Valid, nesting}
use dbus_cplusplus.Marshal.Items.{lib}
use dbus_cplusplus.Generator.Text.{text}
use dbus_cplusplus.Generator.Join.{join}
use dbus_cplusplus.Generator.Adaptor.Parameters.{in_of, out_of, returned, included}
use dbus_cplusplus.Generator.Proxy.Parameters.{put_signature}
use dbus_cplusplus.Generator.Proxy.Heads.{proxy_parameters, put_signature-shown}
use dbus_cplusplus.Generator.Namespaces.{line, namespaces_of, class_of, close_namespaces}
use dbus_cplusplus.Generator.Dotted.{
  dotted, openings, closings, NoDots, NoDot, namespaces_of-dotted,
}
use dbus_cplusplus.Generator.Programs.Meaning.{Value, Variables}
use dbus_cplusplus.Generator.Programs.Runs.{AllGood}
use dbus_cplusplus.Generator.Proxy.Parameters.{no_reply}

namespaces_of-dotted_example :
    (parts : List Bytes) × (rest : Bytes) × (dotted parts rest ≡ codes "org.foo.Bar")
    × NoDots parts
    × NoDot rest
    × ((namespaces_of (codes "org.foo.Bar")).opened ≡ openings parts)
    × (close_namespaces (namespaces_of (codes "org.foo.Bar")).nspaces ≡ closings parts)
    × (class_of (codes "_proxy") (codes "org.foo.Bar") ≡ line b'\n' rest ++ codes "_proxy")
namespaces_of-dotted_example = namespaces_of-dotted (codes "_proxy") (codes "org.foo.Bar")

abbrev pub arg : Bytes → Bytes → Bytes → Node
arg name type direction =
    node (codes "arg")
      ((codes "direction", direction) ∷ (codes "name", name) ∷ (codes "type", type) ∷ []) [] nil

-- A method that takes a number and a text and gives out a number and a Boolean.
abbrev method : Node
method = node (codes "method") ((codes "name", codes "Put") ∷ []) [] (
    cons (arg (codes "a") (codes "i") (codes "in")) (
      cons (arg (codes "b") (codes "s") (codes "in")) (
        cons (arg (codes "c") (codes "u") (codes "out"))
          (cons (arg (codes "d") (codes "b") (codes "out")) nil))))

unfoldable pub ins : List (Value lib)
unfolding TypeOf
ins = (atom int32, 5) ∷ (atom string, codes "x") ∷ []

outs : List (Value lib)
unfolding TypeOf
outs = (atom uint32, 7) ∷ (atom boolean, true) ∷ []

vars : Variables lib
unfolding TypeOf
vars =
    (codes "a", (atom int32, some 5))
    ∷ (codes "b", (atom string, some (codes "x")))
    ∷ (codes "c", (atom uint32, none))
    ∷ (codes "d", (atom boolean, some false))
    ∷ []

abbrev perform : Bytes → List (Value lib) → List (Value lib)
perform name vs = outs

flat : (0 ≤ 32) × (0 ≤ 32) × (0 + 1 ≤ 64) × (1 ≤ 32)
flat = (omega arith, omega arith, omega arith, omega arith)

pub good_in : AllGood lib 1 ins
unfolding ins Valid TypeOf nesting
good_in = (flat, refl, (flat, ((refl, tt), refl), tt))

wanted : no_reply (children_named (codes "annotation") method) ≡ false
unfolding no_reply select children_named named same
wanted = refl

-- Among these names it is enough to leave out a keyword.
abbrev pub named_well : Bytes → Bool
named_well x = not (same x (codes "int"))

put_signature-shown_example :
    put_signature method
      (in_of method)
      (out_of method)
      (record { body = codes "public:\n"; includes = [] })
    ≡ record {
      body =
          codes "public:\n"
          ++ text (
              codes "    "
              ∷ returned method
              ∷ get (codes "name") method
              ∷ codes "("
              ∷ join (proxy_parameters (in_of method) (out_of method))
              ∷ codes ")\n"
              ∷ []);
      includes = included (in_of method) (out_of method);
    }
put_signature-shown_example = put_signature-shown method (codes "public:\n") []
