-- ===== src/Generator/Examples.antt =====
-- The declarations of two methods (tools/generate_adaptor.cpp).
use dbus_cplusplus.Common.{◌≡◌, refl, [], ◌∷◌, ◌++◌, codes}
use dbus_cplusplus.Signature.{
  signature_to_type, parse_signature, switch, advance, atomic_type_to_string, look_up, atos,
}
use dbus_cplusplus.Xml.{
  Bytes, Node, node, nil, cons, get, find, named, children_named, all_named, select,
}
use dbus_cplusplus.Paths.{same}
use dbus_cplusplus.Generator.Join.{join}
use dbus_cplusplus.Generator.{
  declare_method, type_of, object_of, put_type, put_parameter, put_in, put_out, return_type,
}
use dbus_cplusplus.Generator.Adaptor.Parameters.{
  shown, included, in_of, out_of, returned, declare_method-shown,
}

abbrev arg : Bytes → Bytes → Bytes → Node
arg name type direction =
    node (codes "arg")
      ((codes "direction", direction) ∷ (codes "name", name) ∷ (codes "type", type) ∷ []) [] nil

-- An argument that goes in, with the name of a class for its object
abbrev annotated : Node
annotated =
    node (codes "arg")
      ((codes "direction", codes "in") ∷ (codes "name", codes "p") ∷ (codes "type", codes "s") ∷ [])
      []
      (cons
        (node (codes "annotation")
          ((codes "name", codes "org.freedesktop.DBus.Object")
            ∷ (codes "value", codes "Point")
            ∷ [])
          [] nil)
        nil)

abbrev method : Node → Node → Node
method first second =
    node (codes "method") ((codes "name", codes "Move") ∷ []) [] (cons first (cons second nil))

abbrev swap : Node
swap =
    method (arg (codes "a") (codes "i") (codes "out")) (arg (codes "b") (codes "s") (codes "out"))

abbrev move : Node
move = method annotated (arg (codes "r") (codes "i") (codes "out"))

swap-declared : declare_method swap (record { body = []; includes = [] }) ≡ record {
  body = codes "    virtual void Move(int32_t& a, std::string& b) = 0;\n";
  includes = [];
}
unfolding declare_method put_in put_out put_parameter put_type type_of object_of return_type get
    find children_named named all_named select same signature_to_type parse_signature switch advance
    atomic_type_to_string look_up atos
swap-declared = refl

-- The annotation is on the argument that goes in, but it is also the type that is returned, where
-- the document says int32_t.
move-declared : declare_method move (record { body = []; includes = [] }) ≡ record {
  body = codes "    virtual Point Move(const Point& p) = 0;\n";
  includes = codes "Point" ∷ [];
}
unfolding declare_method put_in put_out put_parameter put_type type_of object_of return_type get
    find children_named named all_named select same signature_to_type parse_signature switch advance
    atomic_type_to_string look_up atos
move-declared = refl

-- An argument of no direction, which D-Bus takes for one that goes in, is left out.
undirected-declared :
    declare_method
      (method (arg (codes "a") (codes "i") []) (arg (codes "b") (codes "s") (codes "in")))
      (record { body = []; includes = [] })
    ≡ record { body = codes "    virtual void Move(const std::string& b) = 0;\n"; includes = [] }
unfolding declare_method put_in put_out put_parameter put_type type_of object_of return_type get
    find children_named named all_named select same signature_to_type parse_signature switch advance
    atomic_type_to_string look_up atos
undirected-declared = refl

declare_method-shown_example :
    declare_method swap (record { body = codes "public:\n"; includes = [] }) ≡ record {
      body =
          codes "public:\n"
          ++ (codes "    virtual "
              ++ (returned swap
                  ++ (get (codes "name") swap
                      ++ (codes "("
                          ++ (join (shown (in_of swap) (out_of swap)) ++ codes ") = 0;\n")))));
      includes = included (in_of swap) (out_of swap);
    }
declare_method-shown_example = declare_method-shown swap (codes "public:\n") []
