-- ===== src/Generator/Adaptor/Tables.antt =====
-- The tables of an adaptor's introspect() (tools/generate_adaptor.cpp).
use dbus_cplusplus.Common.{List, [], ◌∷◌, ◌++◌, codes}
use dbus_cplusplus.Paths.{same}
use dbus_cplusplus.Xml.{Bytes, Node, get, children_named}
use dbus_cplusplus.Generator.Text.{tab, text, each, contains, boolean}
use dbus_cplusplus.Generator.Adaptor.Class.{accessible}

-- "name", or 0 where there is none
unfoldable pub quoted_or_0 : Bytes → Bytes
quoted_or_0 [] = codes "0, "
quoted_or_0 (c ∷ name) = text (codes "\"" ∷ (c ∷ name) ∷ codes "\", " ∷ [])

-- One argument in the table of a method or a signal
unfoldable pub introspected_argument : Node → Bytes
unfolding tab quoted_or_0
introspected_argument arg = text (
    tab
    ∷ tab
    ∷ tab
    ∷ codes "{ "
    ∷ quoted_or_0 (get (codes "name") arg)
    ∷ codes "\""
    ∷ get (codes "type") arg
    ∷ codes "\", "
    ∷ boolean (same (get (codes "direction") arg) (codes "in"))
    ∷ codes " },\n"
    ∷ [])

unfoldable pub introspected_arguments : Node → Bytes
unfolding introspected_argument
introspected_arguments method = text (
    tab
    ∷ tab
    ∷ codes "static ::DBus::IntrospectedArgument "
    ∷ get (codes "name") method
    ∷ codes "_args[] = \n"
    ∷ tab
    ∷ tab
    ∷ codes "{\n"
    ∷ each introspected_argument (children_named (codes "arg") method)
    ∷ tab
    ∷ tab
    ∷ tab
    ∷ codes "{ 0, 0, 0 }\n"
    ∷ tab
    ∷ tab
    ∷ codes "};\n"
    ∷ [])

-- One method or signal
unfoldable pub introspected_method : Node → Bytes
unfolding tab
introspected_method method = text (
    tab
    ∷ tab
    ∷ tab
    ∷ codes "{ \""
    ∷ get (codes "name") method
    ∷ codes "\", "
    ∷ get (codes "name") method
    ∷ codes "_args },\n"
    ∷ [])

unfoldable pub introspected_property : Node → Bytes
unfolding tab contains
introspected_property property = text (
    tab
    ∷ tab
    ∷ tab
    ∷ codes "{ \""
    ∷ get (codes "name") property
    ∷ codes "\", \""
    ∷ get (codes "type") property
    ∷ codes "\", "
    ∷ accessible (codes "read") property
    ∷ codes ", "
    ∷ accessible (codes "write") property
    ∷ codes " },\n"
    ∷ [])

-- A table: its head, its rows and the row that ends it
unfoldable pub table : Bytes → Bytes → Bytes → Bytes → Bytes → Bytes
unfolding tab
table type ifaceclass suffix rows end = text (
    tab
    ∷ tab
    ∷ codes "static ::DBus::"
    ∷ type
    ∷ codes " "
    ∷ ifaceclass
    ∷ suffix
    ∷ codes "[] = \n"
    ∷ tab
    ∷ tab
    ∷ codes "{\n"
    ∷ rows
    ∷ tab
    ∷ tab
    ∷ tab
    ∷ end
    ∷ codes "\n"
    ∷ tab
    ∷ tab
    ∷ codes "};\n"
    ∷ [])

-- introspect()
unfoldable pub introspect_of : Bytes → Bytes → List Node → List Node → List Node → Bytes
unfolding introspected_arguments introspected_method introspected_property table
introspect_of ifaceclass ifacename properties methods signals = text (
    tab
    ∷ codes "::DBus::IntrospectedInterface *introspect() const \n"
    ∷ tab
    ∷ codes "{\n"
    ∷ each introspected_arguments (methods ++ signals)
    ∷ table (codes "IntrospectedMethod") ifaceclass (codes "_methods")
        (each introspected_method methods) (codes "{ 0, 0 }")
    ∷ table (codes "IntrospectedMethod") ifaceclass (codes "_signals")
        (each introspected_method signals) (codes "{ 0, 0 }")
    ∷ table (codes "IntrospectedProperty") ifaceclass (codes "_properties")
        (each introspected_property properties) (codes "{ 0, 0, 0, 0 }")
    ∷ tab
    ∷ tab
    ∷ codes "static ::DBus::IntrospectedInterface "
    ∷ ifaceclass
    ∷ codes "_interface = \n"
    ∷ tab
    ∷ tab
    ∷ codes "{\n"
    ∷ tab
    ∷ tab
    ∷ tab
    ∷ codes "\""
    ∷ ifacename
    ∷ codes "\",\n"
    ∷ field (codes "_methods,\n")
    ∷ field (codes "_signals,\n")
    ∷ field (codes "_properties\n")
    ∷ tab
    ∷ tab
    ∷ codes "};\n"
    ∷ tab
    ∷ tab
    ∷ codes "return &"
    ∷ ifaceclass
    ∷ codes "_interface;\n"
    ∷ tab
    ∷ codes "}\n\n"
    ∷ [])
  where
    field : Bytes → Bytes
    field suffix = text (tab ∷ tab ∷ tab ∷ ifaceclass ∷ suffix ∷ [])
