-- ===== src/Generator/ObjectExamples.antt =====
-- What is written for an argument with an annotation for an object (tools/generate_adaptor.cpp,
-- tools/generate_proxy.cpp), and the includes.
use dbus_cplusplus.Common.{◌≡◌, refl, [], ◌∷◌, ◌++◌, codes}
use dbus_cplusplus.Signature.{
  signature_to_type, parse_signature, switch, advance, atomic_type_to_string, look_up, atos,
}
use dbus_cplusplus.Paths.{same, unique, unique_from}
use dbus_cplusplus.Xml.{Node, node, nil, cons, get, find, named, children_named, select}
use dbus_cplusplus.Generator.{type_of, object_of, object_for}
use dbus_cplusplus.Generator.Text.{tab, digits, decimal}
use dbus_cplusplus.Generator.Files.{include_lines}
use dbus_cplusplus.Generator.Adaptor.Unmarshalers.{declare_out, declare_out_object, call_method}
use dbus_cplusplus.Generator.Proxy.Parameters.{name_or}
use dbus_cplusplus.Generator.Proxy.Bodies.{write_argument}

abbrev point : Node
point = node (codes "arg") ((codes "name", codes "p") ∷ (codes "type", codes "s") ∷ []) [] (
    cons
      (node (codes "annotation")
        ((codes "name", codes "org.freedesktop.DBus.Object") ∷ (codes "value", codes "Point") ∷ [])
        [] nil)
      nil)

-- The proxy declares no variable "_p".
proxy_variable :
    write_argument 0 point ≡ codes "        std::string_p;\n        _p << p;\n        wi << _p;\n"
unfolding write_argument tab type_of object_of object_for name_or get find children_named named
    select same signature_to_type parse_signature switch advance atomic_type_to_string look_up atos
proxy_variable = refl

-- In an adaptor the value that a method returns is assigned to no variable of its type.
adaptor_variable :
    declare_out 1 0 point
      ++ (declare_out_object 0 point ++ call_method (codes "Where") [] (point ∷ []))
    ≡ codes "        std::string argout1 =         Point _argout1;\nWhere();\n"
unfolding declare_out declare_out_object call_method tab type_of object_of object_for get find
    children_named named select same signature_to_type parse_signature switch advance
    atomic_type_to_string look_up atos decimal digits
adaptor_variable = refl

-- Of equal includes, only those next to each other are taken once.
repeated_include :
    include_lines (unique (codes "Point" ∷ codes "Point" ∷ codes "Size" ∷ codes "Point" ∷ []))
    ≡ codes "#include \"Point.h\"\n#include \"Size.h\"\n#include \"Point.h\"\n"
unfolding include_lines unique unique_from same
repeated_include = refl
