-- ===== src/Generator/Proxy/Parameters.antt =====
-- The parameters of a proxy's functions (tools/generate_proxy.cpp).
use dbus_cplusplus.Common.{
  ℕ, suc, ◌+◌, Bool, false, not, ◌||◌, List, [], ◌∷◌, ◌++◌, length, ltb, ◌==◌, if◌then◌else◌, codes,
}
use dbus_cplusplus.Paths.{same}
use dbus_cplusplus.Xml.{Bytes, Node, get, children_named, all_named, select}
use dbus_cplusplus.Generator.{Output, put, object_of, object_for, put_comma, put_type, return_type}
use dbus_cplusplus.Generator.Text.{tab, text, decimal}

-- arg_name: the argument's name, or a default with its number
unfoldable pub name_or : Bytes → ℕ → Bytes → Bytes
unfolding decimal
name_or default i [] = default ++ decimal i
name_or default i (c ∷ name) = c ∷ name

abbrev pub arg_name : Bytes → ℕ → Node → Bytes
arg_name default i arg = name_or default i (get (codes "name") arg)

-- The value of the first annotation that there be no reply
unfoldable pub no_reply : List Node → Bool
no_reply annotations =
    elim (select (codes "name") (codes "org.freedesktop.DBus.Method.NoReply") annotations) [
      | [] ↦ false
      | annotation ∷ others ↦ same (get (codes "value") annotation) (codes "true")
    ]

-- One 'in' parameter
unfoldable pub put_in_parameter : ℕ → Node → Output → Output
unfolding put_type object_for name_or
put_in_parameter i arg out =
    put (codes "& " ++ arg_name (codes "argin") i arg)
      (put_type (object_for arg) arg (put (codes "const ") out))

-- The loop over the 'in' arguments; `more` is for args_out.size() > 1.
unfoldable pub put_in_parameters : Bool → ℕ → ℕ → List Node → Output → Output
unfolding put_in_parameter
put_in_parameters more size i [] out = out
put_in_parameters more size i (arg ∷ args) out =
    put_in_parameters more size (suc i) args
      (put_comma (not (i + 1 == size) || more) (put_in_parameter i arg out))

-- What stands after an 'out' parameter's type: there is one more space after an object.
unfoldable pub reference : Bytes → Bytes
reference [] = codes "&"
reference (c ∷ object) = codes "& "

-- One 'out' parameter
unfoldable pub put_out_parameter : ℕ → Node → Output → Output
unfolding put_type object_for name_or reference
put_out_parameter j arg out =
    put (text (reference (object_for arg) ∷ codes " " ∷ arg_name (codes "argout") j arg ∷ []))
      (put_type (object_for arg) arg out)

-- The loop over the 'out' arguments
unfoldable pub put_out_parameters : ℕ → ℕ → List Node → Output → Output
unfolding put_out_parameter
put_out_parameters size j [] out = out
put_out_parameters size j (arg ∷ args) out =
    put_out_parameters size (suc j) args
      (put_comma (not (j + 1 == size)) (put_out_parameter j arg out))

-- The head of a method's function, up to its body
unfoldable pub put_signature : Node → List Node → List Node → Output → Output
unfolding return_type object_of put_in_parameters put_out_parameters tab
put_signature method args_in args_out out =
    let object = object_of (all_named (codes "annotation") (children_named (codes "arg") method)) in
    let more = ltb 1 (length args_out) in
    let named =
      put (text (tab ∷ return_type object args_out ∷ get (codes "name") method ∷ codes "(" ∷ []))
        out in
    let ins = put_in_parameters more (length args_in) 0 args_in named in
    let outs = put_out_parameters (length args_out) 0 args_out ins in
    put (codes ")\n") (if more then outs else ins)
