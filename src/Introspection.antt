-- ===== src/Introspection.antt =====
-- src/introspection.cpp and include/dbus-c++/introspection.h: the document that Introspect writes.
-- A text is the list of its bytes. An array that ends at a null pointer is the list of what stands
-- before it.
pub mod Show
mod Examples
use dbus_cplusplus.Common.{
  ℕ, Bool, true, false, List, [], ◌∷◌, ◌++◌, Option, none, some, if◌then◌else◌, codes,
}
use dbus_cplusplus.Paths.{Bytes, child_nodes_from_prefix}

pub record IntrospectedArgument : Type 0 where
  pub name : Option Bytes
  pub type : Bytes
  pub is_in : Bool

pub record IntrospectedMethod : Type 0 where
  pub name : Bytes
  pub args : List IntrospectedArgument

pub record IntrospectedProperty : Type 0 where
  pub name : Bytes
  pub type : Bytes
  pub read : Bool
  pub write : Bool

pub record IntrospectedInterface : Type 0 where
  pub name : Bytes
  pub methods : List IntrospectedMethod
  pub signals : List IntrospectedMethod
  pub properties : List IntrospectedProperty

-- A loop whose body writes to the stream.
unfoldable pub each {ℓ} : {A : Type ℓ} → (A → Bytes) → List A → Bytes
each write [] = []
each write (x ∷ xs) = write x ++ each write xs

unfoldable pub access_of : IntrospectedProperty → Bytes
access_of p = (if p.read then codes "read" else []) ++ (if p.write then codes "write" else [])

unfoldable pub write_property : IntrospectedProperty → Bytes
unfolding access_of
write_property p =
    codes "\n\t\t<property name=\""
    ++ p.name
    ++ codes "\""
    ++ codes " type=\""
    ++ p.type
    ++ codes "\""
    ++ codes " access=\""
    ++ access_of p
    ++ codes "\"/>"

unfoldable pub write_name : Option Bytes → Bytes
write_name none = []
write_name (some name) = codes " name=\"" ++ name ++ codes "\""

unfoldable pub write_argument : IntrospectedArgument → Bytes
unfolding write_name
write_argument a =
    codes "\n\t\t\t<arg direction=\""
    ++ (if a.is_in then codes "in" else codes "out")
    ++ codes "\""
    ++ codes " type=\""
    ++ a.type
    ++ codes "\""
    ++ write_name a.name
    ++ codes "/>"

unfoldable pub write_method : IntrospectedMethod → Bytes
unfolding each write_argument
write_method m =
    codes "\n\t\t<method name=\""
    ++ m.name
    ++ codes "\">"
    ++ each write_argument m.args
    ++ codes "\n\t\t</method>"

unfoldable pub write_signal_argument : IntrospectedArgument → Bytes
unfolding write_name
write_signal_argument a =
    codes "<arg type=\"" ++ a.type ++ codes "\"" ++ write_name a.name ++ codes "/>"

unfoldable pub write_signal : IntrospectedMethod → Bytes
unfolding each write_signal_argument
write_signal m =
    codes "\n\t\t<signal name=\""
    ++ m.name
    ++ codes "\">"
    ++ each write_signal_argument m.args
    ++ codes "\n\t\t</signal>"

-- What introspect of an adaptor gives may be the null pointer.
unfoldable pub write_interface : Option IntrospectedInterface → Bytes
unfolding each write_property write_method write_signal
write_interface none = []
write_interface (some i) =
    codes "\n\t<interface name=\""
    ++ i.name
    ++ codes "\">"
    ++ each write_property i.properties
    ++ each write_method i.methods
    ++ each write_signal i.signals
    ++ codes "\n\t</interface>"

unfoldable pub write_node : Bytes → Bytes
write_node name = codes "\n\t<node name=\"" ++ name ++ codes "\"/>"

-- IntrospectableAdaptor::Introspect, after the document type declaration: the object's path, its
-- interfaces in the order of their names, and the paths of all objects
unfoldable pub introspect : Bytes → List (Option IntrospectedInterface) → List Bytes → Bytes
unfolding each write_interface write_node
introspect path interfaces paths =
    codes "<node name=\""
    ++ path
    ++ codes "\">"
    ++ each write_interface interfaces
    ++ each write_node (child_nodes_from_prefix (path ++ codes "/") paths)
    ++ codes "\n</node>"
