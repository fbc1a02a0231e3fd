-- ===== src/Generator/Proxy/Bodies.antt =====
-- The bodies of a proxy's functions that call a method (tools/generate_proxy.cpp).
use dbus_cplusplus.Common.{ℕ, Bool, true, false, List, [], ◌∷◌, codes}
use dbus_cplusplus.Xml.{Bytes, Node, get, children_named}
use dbus_cplusplus.Generator.{type_of, object_for}
use dbus_cplusplus.Generator.Text.{tab, text, each_from}
use dbus_cplusplus.Generator.Proxy.Parameters.{name_or, arg_name, no_reply}

-- What appends one argument: an object is converted first, in a variable for which there is a line
-- that has no space between its type and its name.
unfoldable pub write_argument : ℕ → Node → Bytes
unfolding tab type_of object_for name_or
write_argument i arg =
    let name = arg_name (codes "argin") i arg in
    elim (object_for arg) [
      | [] ↦ text (tab ∷ tab ∷ codes "wi << " ∷ name ∷ codes ";\n" ∷ [])
      | c ∷ object ↦ text (
          tab
          ∷ tab
          ∷ type_of (get (codes "type") arg)
          ∷ codes "_"
          ∷ name
          ∷ codes ";\n"
          ∷ tab
          ∷ tab
          ∷ codes "_"
          ∷ name
          ∷ codes " << "
          ∷ name
          ∷ codes ";\n"
          ∷ tab
          ∷ tab
          ∷ codes "wi << _"
          ∷ name
          ∷ codes ";\n"
          ∷ [])
    ]

unfoldable pub write_arguments : List Node → Bytes
unfolding tab write_argument
write_arguments [] = []
write_arguments (arg ∷ args) = text (
    tab
    ∷ tab
    ∷ codes "::DBus::MessageIter wi = call.writer();\n\n"
    ∷ each_from write_argument 0 (arg ∷ args)
    ∷ [])

-- The call, with its reply or without
unfoldable pub invoke : Bool → List Node → Bytes
unfolding tab
invoke true [] = text (tab ∷ tab ∷ codes "assert (invoke_method_noreply (call));\n" ∷ [])
invoke true (arg ∷ args) =
    text (tab ∷ tab ∷ codes "::DBus::Message ret = invoke_method (call);\n" ∷ [])
invoke false args = text (tab ∷ tab ∷ codes "::DBus::Message ret = invoke_method (call);\n" ∷ [])

-- The only 'out' value, which is returned
unfoldable pub return_value : Node → Bytes
unfolding tab type_of object_for
return_value arg = elim (object_for arg) [
  | [] ↦ text (
      tab
      ∷ tab
      ∷ type_of (get (codes "type") arg)
      ∷ codes " argout;\n"
      ∷ tab
      ∷ tab
      ∷ codes "ri >> argout;\n"
      ∷ tab
      ∷ tab
      ∷ codes "return argout;\n"
      ∷ [])
  | c ∷ object ↦ text (
      tab
      ∷ tab
      ∷ (c ∷ object)
      ∷ codes " _argout;\n"
      ∷ tab
      ∷ tab
      ∷ type_of (get (codes "type") arg)
      ∷ codes " argout;\n"
      ∷ tab
      ∷ tab
      ∷ codes "ri >> argout;\n"
      ∷ tab
      ∷ tab
      ∷ codes "_argout << argout;\n"
      ∷ tab
      ∷ tab
      ∷ codes "return _argout;\n"
      ∷ [])
]

-- One of several 'out' values
unfoldable pub read_value : ℕ → Node → Bytes
unfolding tab type_of object_for name_or
read_value i arg =
    let name = arg_name (codes "argout") i arg in
    elim (object_for arg) [
      | [] ↦ text (tab ∷ tab ∷ codes "ri >> " ∷ name ∷ codes ";\n" ∷ [])
      | c ∷ object ↦ text (
          tab
          ∷ tab
          ∷ type_of (get (codes "type") arg)
          ∷ codes "_"
          ∷ name
          ∷ codes ";\n"
          ∷ tab
          ∷ tab
          ∷ codes "ri >> _"
          ∷ name
          ∷ codes ";\n"
          ∷ tab
          ∷ tab
          ∷ name
          ∷ codes " << _"
          ∷ name
          ∷ codes ";\n"
          ∷ [])
    ]

-- The 'out' values, after their reader
unfoldable pub read_values : List Node → Bytes
unfolding tab return_value read_value
read_values [] = []
read_values (arg ∷ []) =
    text (tab ∷ tab ∷ codes "::DBus::MessageIter ri = ret.reader();\n\n" ∷ return_value arg ∷ [])
read_values (arg ∷ other ∷ args) = text (
    tab
    ∷ tab
    ∷ codes "::DBus::MessageIter ri = ret.reader();\n\n"
    ∷ each_from read_value 0 (arg ∷ other ∷ args)
    ∷ [])

-- The body of a method's function
unfoldable pub method_body : Node → List Node → List Node → Bytes
unfolding tab write_arguments no_reply invoke read_values
method_body method args_in args_out = text (
    tab
    ∷ codes "{\n"
    ∷ tab
    ∷ tab
    ∷ codes "::DBus::CallMessage call;\n"
    ∷ write_arguments args_in
    ∷ tab
    ∷ tab
    ∷ codes "call.member(\""
    ∷ get (codes "name") method
    ∷ codes "\");\n"
    ∷ invoke (no_reply (children_named (codes "annotation") method)) args_out
    ∷ read_values args_out
    ∷ tab
    ∷ codes "}\n\n"
    ∷ [])
