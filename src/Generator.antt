-- ===== src/Generator.antt =====
-- tools/generate_adaptor.cpp and tools/generate_proxy.cpp: the classes for a service and for its
-- clients, from the document that tools/xml.cpp has read. A text is the list of its bytes. This file
-- has the declarations of the methods that a service is to implement, and what the others share.
pub mod Join
pub mod Text
pub mod Namespaces
pub mod Files
pub mod Adaptor
pub mod Proxy
pub mod Dotted
pub mod Decimal
pub mod Programs
pub mod Remote
pub mod Delivery
mod Examples
mod CallExamples
mod SignalExamples
mod ObjectExamples
use dbus_cplusplus.Common.{
  ℕ, zero, suc, Bool, true, false, not, ◌||◌, List, [], ◌∷◌, ◌++◌, Option, none, some, length, ltb,
  ◌==◌, if◌then◌else◌, codes,
}
use dbus_cplusplus.Signature.{signature_to_type}
use dbus_cplusplus.Xml.{Bytes, Node, get, children_named, all_named, select}

-- The text of the class so far, and include_vector.
pub record Output : Type 0 where
  pub body : Bytes
  pub includes : List Bytes

abbrev pub put : Bytes → Output → Output
put text out = record out { body = out.body ++ text }

-- The type for a signature; signature_to_type gives one for every text.
unfoldable pub type_of : Bytes → Bytes
type_of sig = elim (signature_to_type sig) [ none ↦ [] | some type ↦ codes type ]

-- The value of the first annotation for an object, or no text
unfoldable pub object_of : List Node → Bytes
object_of annotations =
    elim (select (codes "name") (codes "org.freedesktop.DBus.Object") annotations) [
      | [] ↦ []
      | annotation ∷ others ↦ get (codes "value") annotation
    ]

-- The object of one argument
unfoldable pub object_for : Node → Bytes
unfolding object_of
object_for arg = object_of (children_named (codes "annotation") arg)

-- body << object, which is stored for the includes, or else the type of the argument
unfoldable pub put_type : Bytes → Node → Output → Output
unfolding type_of
put_type [] arg out = put (type_of (get (codes "type") arg)) out
put_type (c ∷ object) arg out = record {
  body = out.body ++ (c ∷ object);
  includes = out.includes ++ (c ∷ object) ∷ [];
}

-- One parameter, after "const " when it goes in
unfoldable pub put_parameter : Bytes → Node → Output → Output
unfolding put_type object_of
put_parameter const arg out = put (get (codes "name") arg) (
    put (codes "& ")
      (put_type (object_of (children_named (codes "annotation") arg)) arg (put const out)))

abbrev pub put_comma : Bool → Output → Output
put_comma wanted out = if wanted then put (codes ", ") out else out

-- The loop over the arguments that go in, from the index `i` on; `more` is for args_out.size() > 1
unfoldable pub put_in : Bool → ℕ → ℕ → List Node → Output → Output
unfolding put_parameter
put_in more size i [] out = out
put_in more size i (arg ∷ args) out =
    put_in more size (suc i) args
      (put_comma (not (suc i == size) || more) (put_parameter (codes "const ") arg out))

-- The loop over the arguments that go out
unfoldable pub put_out : ℕ → ℕ → List Node → Output → Output
unfolding put_parameter
put_out size i [] out = out
put_out size i (arg ∷ args) out =
    put_out size (suc i) args (put_comma (not (suc i == size)) (put_parameter [] arg out))

-- The type that is returned: void for none or several arguments that go out. The object is that of
-- an annotation of any argument.
unfoldable pub return_type : Bytes → List Node → Bytes
unfolding type_of
return_type object [] = codes "void "
return_type [] (arg ∷ []) = type_of (get (codes "type") arg) ++ codes " "
return_type (c ∷ object) (arg ∷ []) = (c ∷ object) ++ codes " "
return_type object (arg ∷ other ∷ args) = codes "void "

-- The declaration of one method
unfoldable pub declare_method : Node → Output → Output
unfolding return_type put_in put_out object_of
declare_method method out =
    let args = children_named (codes "arg") method in
    let args_in = select (codes "direction") (codes "in") args in
    let args_out = select (codes "direction") (codes "out") args in
    let object = object_of (all_named (codes "annotation") args) in
    let more = ltb 1 (length args_out) in
    let named = put (codes "(") (
      put (get (codes "name") method)
        (put (return_type object args_out) (put (codes "    virtual ") out))) in
    let ins = put_in more (length args_in) 0 args_in named in
    let outs = put_out (length args_out) 0 args_out ins in
    put (codes ") = 0;\n") (if more then outs else ins)

-- The loop over the methods
unfoldable pub declare_methods : List Node → Output → Output
unfolding declare_method
declare_methods [] out = out
declare_methods (method ∷ methods) out = declare_methods methods (declare_method method out)
