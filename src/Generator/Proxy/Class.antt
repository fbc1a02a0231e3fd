-- ===== src/Generator/Proxy/Class.antt =====
-- The constructor and the properties of a proxy (tools/generate_proxy.cpp).
use dbus_cplusplus.Common.{◌||◌, List, [], ◌∷◌, ◌++◌, if◌then◌else◌, codes}
use dbus_cplusplus.Paths.{same}
use dbus_cplusplus.Xml.{Bytes, Node, get}
use dbus_cplusplus.Signature.Names.{stub_name}
use dbus_cplusplus.Generator.{type_of}
use dbus_cplusplus.Generator.Text.{tab, text, each}

unfoldable pub connect_signal : Bytes → Node → Bytes
unfolding tab stub_name
connect_signal ifaceclass signal = text (
    tab
    ∷ tab
    ∷ codes "connect_signal("
    ∷ ifaceclass
    ∷ codes ", "
    ∷ get (codes "name") signal
    ∷ codes ", "
    ∷ stub_name (get (codes "name") signal)
    ∷ codes ");\n"
    ∷ [])

-- The class and its constructor
unfoldable pub proxy_constructor : Bytes → Bytes → List Node → Bytes
unfolding tab connect_signal
proxy_constructor ifaceclass ifacename signals = text (
    codes "class "
    ∷ ifaceclass
    ∷ codes "\n: public ::DBus::InterfaceProxy\n{\npublic:\n\n"
    ∷ tab
    ∷ ifaceclass
    ∷ codes "()\n"
    ∷ tab
    ∷ codes ": ::DBus::InterfaceProxy(\""
    ∷ ifacename
    ∷ codes "\")\n"
    ∷ tab
    ∷ codes "{\n"
    ∷ each (connect_signal ifaceclass) signals
    ∷ tab
    ∷ codes "}\n\n"
    ∷ [])

-- Lines of a function's body, three tabs in
abbrev pub lines : List Bytes → Bytes
lines [] = []
lines (l ∷ ls) = tab ++ (tab ++ (tab ++ (l ++ lines ls)))

-- The two constants in which both functions keep the names
abbrev pub interface_line : Bytes → Bytes
interface_line ifacename =
    text (codes "const std::string interface_name = \"" ∷ ifacename ∷ codes "\";\n" ∷ [])

abbrev pub property_line : Bytes → Bytes
property_line prop_name =
    text (codes "const std::string property_name  = \"" ∷ prop_name ∷ codes "\";\n" ∷ [])

-- The function that asks for a property
unfoldable pub getter : Bytes → Node → Bytes
unfolding tab type_of
getter ifacename property = text (
    tab
    ∷ tab
    ∷ codes "const "
    ∷ type_of (get (codes "type") property)
    ∷ codes " "
    ∷ get (codes "name") property
    ∷ codes "() {\n"
    ∷ lines (
        codes "::DBus::CallMessage call ;\n "
        ∷ codes "call.member(\"Get\"); call.interface(\"org.freedesktop.DBus.Properties\");\n"
        ∷ codes "::DBus::MessageIter wi = call.writer(); \n"
        ∷ interface_line ifacename
        ∷ property_line (get (codes "name") property)
        ∷ codes "wi << interface_name;\n"
        ∷ codes "wi << property_name;\n"
        ∷ codes "::DBus::Message ret = this->invoke_method (call);\n"
        ∷ codes "::DBus::MessageIter ri = ret.reader ();\n"
        ∷ codes "::DBus::Variant argout; \n"
        ∷ codes "ri >> argout;\n"
        ∷ codes "return argout;\n"
        ∷ [])
    ∷ tab
    ∷ tab
    ∷ codes "};\n"
    ∷ [])

-- The function that sets a property
unfoldable pub setter : Bytes → Node → Bytes
unfolding tab type_of
setter ifacename property = text (
    tab
    ∷ tab
    ∷ codes "void "
    ∷ get (codes "name") property
    ∷ codes "( const "
    ∷ type_of (get (codes "type") property)
    ∷ codes " & input) {\n"
    ∷ lines (
        codes "::DBus::CallMessage call ;\n "
        ∷ codes "call.member(\"Set\");  call.interface( \"org.freedesktop.DBus.Properties\");\n"
        ∷ codes "::DBus::MessageIter wi = call.writer(); \n"
        ∷ codes "::DBus::Variant value;\n"
        ∷ codes "::DBus::MessageIter vi = value.writer ();\n"
        ∷ codes "vi << input;\n"
        ∷ interface_line ifacename
        ∷ property_line (get (codes "name") property)
        ∷ codes "wi << interface_name;\n"
        ∷ codes "wi << property_name;\n"
        ∷ codes "wi << value;\n"
        ∷ codes "::DBus::Message ret = this->invoke_method (call);\n"
        ∷ [])
    ∷ tab
    ∷ tab
    ∷ codes "};\n"
    ∷ [])

-- One property, by its access
unfoldable pub access_functions : Bytes → Node → Bytes
unfolding getter setter
access_functions ifacename property =
    let property_access = get (codes "access") property in
    let both = same property_access (codes "readwrite") in
    text (
      (if same property_access (codes "read") || both then getter ifacename property else [])
      ∷ (if same property_access (codes "write") || both then setter ifacename property else [])
      ∷ [])

unfoldable pub proxy_properties : Bytes → List Node → Bytes
unfolding tab access_functions
proxy_properties ifacename properties = text (
    codes "public:\n\n"
    ∷ tab
    ∷ codes "/* properties exported by this interface */\n"
    ∷ each (access_functions ifacename) properties
    ∷ [])
