-- ===== src/Generator/Proxy.antt =====
-- generate_proxy (tools/generate_proxy.cpp).
pub mod Class
pub mod Parameters
pub mod Bodies
pub mod Heads
pub mod Methods
pub mod Signals
use dbus_cplusplus.Common.{List, [], ◌∷◌, if◌then◌else◌, codes}
use dbus_cplusplus.Xml.{Bytes, Node, get, children_named}
use dbus_cplusplus.Generator.{Output, put}
use dbus_cplusplus.Generator.Text.{tab, text}
use dbus_cplusplus.Generator.Namespaces.{namespaces_of, class_of, close_namespaces}
use dbus_cplusplus.Generator.Proxy.Class.{proxy_constructor, proxy_properties}
use dbus_cplusplus.Generator.Proxy.Methods.{put_methods}
use dbus_cplusplus.Generator.Proxy.Signals.{put_handlers, put_signal_unmarshalers}
use dbus_cplusplus.Generator.Files.{cond_comp, skipped, file_of}

-- The namespaces, and the class up to its methods
unfoldable pub proxy_head : Node → Bytes
unfolding tab namespaces_of class_of proxy_constructor proxy_properties
proxy_head iface =
    let ifacename = get (codes "name") iface in
    text (
      (namespaces_of ifacename).opened
      ∷ codes "\n"
      ∷ proxy_constructor (class_of (codes "_proxy") ifacename) ifacename
          (children_named (codes "signal") iface)
      ∷ proxy_properties ifacename (children_named (codes "property") iface)
      ∷ codes "public:\n\n"
      ∷ tab
      ∷ codes "/* methods exported by this interface,\n"
      ∷ tab
      ∷ codes " * this functions will invoke the corresponding methods on the remote objects\n"
      ∷ tab
      ∷ codes " */\n"
      ∷ [])

unfoldable pub handlers_comment : Bytes
unfolding tab
handlers_comment = text (
    codes "\npublic:\n\n"
    ∷ tab
    ∷ codes "/* signal handlers for this interface\n"
    ∷ tab
    ∷ codes " */\n"
    ∷ [])

unfoldable pub unmarshalers_comment : Bytes
unfolding tab
unmarshalers_comment = text (
    codes "\nprivate:\n\n"
    ∷ tab
    ∷ codes
        "/* unmarshalers (to unpack the DBus message before calling the actual signal handler)\n"
    ∷ tab
    ∷ codes " */\n"
    ∷ [])

-- The end of the class and of the namespaces
unfoldable pub proxy_tail : Node → Bytes
unfolding namespaces_of close_namespaces
proxy_tail iface = text (
    codes "};\n\n"
    ∷ close_namespaces ((namespaces_of (get (codes "name") iface)).nspaces)
    ∷ codes "\n"
    ∷ [])

-- One interface
unfoldable pub put_proxy : Node → Output → Output
unfolding proxy_head handlers_comment unmarshalers_comment proxy_tail put_methods put_handlers
    put_signal_unmarshalers skipped
put_proxy iface out =
    let signals = children_named (codes "signal") iface in
    let calling =
      put_methods (children_named (codes "method") iface) (put (proxy_head iface) out) in
    let handling = put_handlers signals (put handlers_comment calling) in
    let reading = put_signal_unmarshalers signals (put unmarshalers_comment handling) in
    if skipped (get (codes "name") iface) then out else put (proxy_tail iface) reading

-- The loop over the interfaces
unfoldable pub put_proxies : List Node → Output → Output
unfolding put_proxy
put_proxies [] out = out
put_proxies (iface ∷ interfaces) out = put_proxies interfaces (put_proxy iface out)

-- What is written to the file, for the root of the document and the name of the file
unfoldable pub generate_proxy : Node → Bytes → Bytes
unfolding put_proxies cond_comp file_of
generate_proxy root filename =
    file_of (cond_comp (codes "__PROXY_MARSHAL_H") filename)
      (put_proxies (children_named (codes "interface") root) (record { body = []; includes = [] }))
