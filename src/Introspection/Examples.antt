-- ===== src/Introspection/Examples.antt =====
-- The document of an object with one method and one child (src/introspection.cpp).
use dbus_cplusplus.Common.{◌≡◌, refl, false, [], ◌∷◌, List, none, some, codes}
use dbus_cplusplus.Introspection.{
  IntrospectedInterface, introspect, each, write_interface, write_method, write_argument,
  write_name,
}
use dbus_cplusplus.Introspection.Show.{show, document, introspect-show}
use dbus_cplusplus.Paths.{Bytes}

abbrev clock : IntrospectedInterface
clock = record {
  name = codes "org.example.Clock";
  methods =
      record {
        name = codes "GetTime";
        args = record { name = none; type = codes "x"; is_in = false } ∷ [];
      }
      ∷ [];
  signals = [];
  properties = [];
}

abbrev paths : List Bytes
paths = codes "/a" ∷ codes "/a/b/c" ∷ codes "/a/b" ∷ codes "/x" ∷ []

introspect-show_example :
    introspect (codes "/a") (some clock ∷ none ∷ []) paths
    ≡ show (document (codes "/a") (some clock ∷ none ∷ []) paths)
introspect-show_example = introspect-show (codes "/a") (some clock ∷ none ∷ []) paths

one_interface :
    write_interface (some clock)
    ≡ codes
        "\n\t<interface name=\"org.example.Clock\">\n\t\t<method name=\"GetTime\">\n\t\t\t<arg direction=\"out\" type=\"x\"/>\n\t\t</method>\n\t</interface>"
unfolding write_interface each write_method write_argument write_name
one_interface = refl
