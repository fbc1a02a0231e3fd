-- ===== src/Generator/Adaptor.antt =====
-- generate_adaptor (tools/generate_adaptor.cpp).
pub mod Class
pub mod Tables
pub mod Emitters
pub mod Unmarshalers
pub mod Parameters
use dbus_cplusplus.Common.{List, [], ◌∷◌, if◌then◌else◌, codes}
use dbus_cplusplus.Xml.{Bytes, Node, get, children_named}
use dbus_cplusplus.Generator.{Output, put, declare_methods}
use dbus_cplusplus.Generator.Text.{tab, text, each}
use dbus_cplusplus.Generator.Namespaces.{namespaces_of, class_of, close_namespaces}
use dbus_cplusplus.Generator.Adaptor.Class.{constructor_of, properties_of}
use dbus_cplusplus.Generator.Adaptor.Tables.{introspect_of}
use dbus_cplusplus.Generator.Adaptor.Emitters.{put_emitters}
use dbus_cplusplus.Generator.Adaptor.Unmarshalers.{unmarshaler}
use dbus_cplusplus.Generator.Files.{cond_comp, skipped, file_of}

-- The namespaces, and the class up to its methods
unfoldable pub adaptor_head : Node → Bytes
unfolding tab namespaces_of class_of constructor_of introspect_of properties_of
adaptor_head iface =
    let ifacename = get (codes "name") iface in
    let ifaceclass = class_of (codes "_adaptor") ifacename in
    let methods = children_named (codes "method") iface in
    let signals = children_named (codes "signal") iface in
    let properties = children_named (codes "property") iface in
    text (
      (namespaces_of ifacename).opened
      ∷ codes "\n"
      ∷ constructor_of ifaceclass ifacename properties methods
      ∷ introspect_of ifaceclass ifacename properties methods signals
      ∷ properties_of properties
      ∷ codes "public:\n\n"
      ∷ tab
      ∷ codes "/* methods exported by this interface,\n"
      ∷ tab
      ∷ codes " * you will have to implement them in your ObjectAdaptor\n"
      ∷ tab
      ∷ codes " */\n"
      ∷ [])

unfoldable pub emitters_comment : Bytes
unfolding tab
emitters_comment = text (
    codes "\npublic:\n\n"
    ∷ tab
    ∷ codes "/* signal emitters for this interface\n"
    ∷ tab
    ∷ codes " */\n"
    ∷ [])

-- The unmarshalers, and the end of the class and of the namespaces
unfoldable pub adaptor_tail : Node → Bytes
unfolding tab unmarshaler namespaces_of close_namespaces
adaptor_tail iface = text (
    codes "\nprivate:\n\n"
    ∷ tab
    ∷ codes
        "/* unmarshalers (to unpack the DBus message before calling the actual interface method)\n"
    ∷ tab
    ∷ codes " */\n"
    ∷ each unmarshaler (children_named (codes "method") iface)
    ∷ codes "};\n\n"
    ∷ close_namespaces ((namespaces_of (get (codes "name") iface)).nspaces)
    ∷ codes "\n"
    ∷ [])

-- One interface
unfoldable pub put_adaptor : Node → Output → Output
unfolding adaptor_head emitters_comment adaptor_tail declare_methods put_emitters skipped
put_adaptor iface out =
    let declared =
      declare_methods (children_named (codes "method") iface) (put (adaptor_head iface) out) in
    let emitting =
      put_emitters (children_named (codes "signal") iface) (put emitters_comment declared) in
    if skipped (get (codes "name") iface) then out else put (adaptor_tail iface) emitting

-- The loop over the interfaces
unfoldable pub put_adaptors : List Node → Output → Output
unfolding put_adaptor
put_adaptors [] out = out
put_adaptors (iface ∷ interfaces) out = put_adaptors interfaces (put_adaptor iface out)

-- What is written to the file, for the root of the document and the name of the file
unfoldable pub generate_adaptor : Node → Bytes → Bytes
unfolding put_adaptors cond_comp file_of
generate_adaptor root filename =
    file_of (cond_comp (codes "__ADAPTOR_MARSHAL_H") filename)
      (put_adaptors (children_named (codes "interface") root) (record { body = []; includes = [] }))
