-- ===== src/Generator/Proxy/Methods.antt =====
-- The functions of a proxy that call a method (tools/generate_proxy.cpp).
use dbus_cplusplus.Common.{List, [], ◌∷◌, codes}
use dbus_cplusplus.Xml.{Node, children_named, select}
use dbus_cplusplus.Generator.{Output, put}
use dbus_cplusplus.Generator.Proxy.Parameters.{put_signature}
use dbus_cplusplus.Generator.Proxy.Bodies.{method_body}

unfoldable pub put_method : Node → Output → Output
unfolding put_signature method_body
put_method method out =
    let args = children_named (codes "arg") method in
    let args_in = select (codes "direction") (codes "in") args in
    let args_out = select (codes "direction") (codes "out") args in
    put (method_body method args_in args_out) (put_signature method args_in args_out out)

-- The loop over the methods
unfoldable pub put_methods : List Node → Output → Output
unfolding put_method
put_methods [] out = out
put_methods (method ∷ methods) out = put_methods methods (put_method method out)
