-- ===== src/Generator/Adaptor/Class.antt =====
-- The constructor and the properties of an adaptor (tools/generate_adaptor.cpp).
use dbus_cplusplus.Common.{List, [], ◌∷◌, codes}
use dbus_cplusplus.Xml.{Bytes, Node, get}
use dbus_cplusplus.Signature.Names.{stub_name}
use dbus_cplusplus.Generator.{type_of}
use dbus_cplusplus.Generator.Text.{tab, text, each, contains, boolean}

-- The access of a property, "read" or "write"
abbrev pub accessible : Bytes → Node → Bytes
accessible kind property = boolean (contains kind (get (codes "access") property))

unfoldable pub bind_property : Node → Bytes
unfolding tab contains
bind_property property = text (
    tab
    ∷ tab
    ∷ codes "bind_property("
    ∷ get (codes "name") property
    ∷ codes ", \""
    ∷ get (codes "type") property
    ∷ codes "\", "
    ∷ accessible (codes "read") property
    ∷ codes ", "
    ∷ accessible (codes "write") property
    ∷ codes ");\n"
    ∷ [])

unfoldable pub register_method : Bytes → Node → Bytes
unfolding tab stub_name
register_method ifaceclass method = text (
    tab
    ∷ tab
    ∷ codes "register_method("
    ∷ ifaceclass
    ∷ codes ", "
    ∷ get (codes "name") method
    ∷ codes ", "
    ∷ stub_name (get (codes "name") method)
    ∷ codes ");\n"
    ∷ [])

-- The class and its constructor
unfoldable pub constructor_of : Bytes → Bytes → List Node → List Node → Bytes
unfolding bind_property register_method
constructor_of ifaceclass ifacename properties methods = text (
    codes "class "
    ∷ ifaceclass
    ∷ codes "\n: public ::DBus::InterfaceAdaptor\n{\npublic:\n\n"
    ∷ tab
    ∷ ifaceclass
    ∷ codes "()\n"
    ∷ tab
    ∷ codes ": ::DBus::InterfaceAdaptor(\""
    ∷ ifacename
    ∷ codes "\")\n"
    ∷ tab
    ∷ codes "{\n"
    ∷ each bind_property properties
    ∷ each (register_method ifaceclass) methods
    ∷ tab
    ∷ codes "}\n\n"
    ∷ [])

-- The declaration of a property
unfoldable pub declare_property : Node → Bytes
unfolding tab type_of
declare_property property = text (
    tab
    ∷ codes "::DBus::PropertyAdaptor< "
    ∷ type_of (get (codes "type") property)
    ∷ codes " > "
    ∷ get (codes "name") property
    ∷ codes ";\n"
    ∷ [])

unfoldable pub properties_of : List Node → Bytes
unfolding declare_property
properties_of properties = text (
    codes "public:\n\n"
    ∷ tab
    ∷ codes "/* properties exposed by this interface, use\n"
    ∷ tab
    ∷ codes " * property() and property(value) to get and set a particular property\n"
    ∷ tab
    ∷ codes " */\n"
    ∷ each declare_property properties
    ∷ codes "\n"
    ∷ [])
