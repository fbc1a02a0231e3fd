-- ===== src/Generator/Adaptor/Emitters.antt =====
-- The functions of an adaptor that emit a signal (tools/generate_adaptor.cpp).
use dbus_cplusplus.Common.{ℕ, suc, ◌+◌, not, List, [], ◌∷◌, ◌++◌, length, ◌==◌, codes}
use dbus_cplusplus.Xml.{Bytes, Node, get, children_named}
use dbus_cplusplus.Generator.{Output, put, type_of, object_for, put_comma, put_type}
use dbus_cplusplus.Generator.Text.{tab, text, each_from, decimal}

-- The parameter for one argument, number i + 1; its object is stored for the includes.
unfoldable pub put_emitter_parameter : ℕ → Node → Output → Output
unfolding put_type object_for decimal
put_emitter_parameter i arg out =
    put (codes "& arg" ++ decimal (i + 1))
      (put_type (object_for arg) arg (put (codes "const ") out))

-- The loop over the arguments
unfoldable pub put_emitter_parameters : ℕ → ℕ → List Node → Output → Output
unfolding put_emitter_parameter
put_emitter_parameters size i [] out = out
put_emitter_parameters size i (arg ∷ args) out =
    put_emitter_parameters size (suc i) args
      (put_comma (not (i + 1 == size)) (put_emitter_parameter i arg out))

-- What appends one argument to the message: an object is converted first.
unfoldable pub append_argument : ℕ → Node → Bytes
unfolding tab type_of object_for decimal
append_argument i arg = elim (object_for arg) [
  | [] ↦ text (tab ∷ tab ∷ codes "wi << arg" ∷ decimal (i + 1) ∷ codes ";\n" ∷ [])
  | c ∷ object ↦ text (
      tab
      ∷ tab
      ∷ type_of (get (codes "type") arg)
      ∷ codes " _arg"
      ∷ decimal (i + 1)
      ∷ codes ";\n"
      ∷ tab
      ∷ tab
      ∷ codes "_arg"
      ∷ decimal (i + 1)
      ∷ codes " << arg"
      ∷ decimal (i + 1)
      ∷ codes ";\n"
      ∷ tab
      ∷ tab
      ∷ codes "wi << _arg"
      ∷ decimal (i + 1)
      ∷ codes ";\n"
      ∷ [])
]

-- if (!args.empty())
unfoldable pub append_arguments : List Node → Bytes
unfolding append_argument
append_arguments [] = []
append_arguments (arg ∷ args) = text (
    tab
    ∷ tab
    ∷ codes "::DBus::MessageIter wi = sig.writer();\n"
    ∷ each_from append_argument 0 (arg ∷ args)
    ∷ [])

-- The body of the function
unfoldable pub emitter_body : Node → Bytes
unfolding append_arguments
emitter_body signal = text (
    codes ")\n"
    ∷ tab
    ∷ codes "{\n"
    ∷ tab
    ∷ tab
    ∷ codes "::DBus::SignalMessage sig(\""
    ∷ get (codes "name") signal
    ∷ codes "\");\n"
    ∷ append_arguments (children_named (codes "arg") signal)
    ∷ tab
    ∷ tab
    ∷ codes "emit_signal(sig);\n"
    ∷ tab
    ∷ codes "}\n"
    ∷ [])

unfoldable pub put_emitter : Node → Output → Output
unfolding put_emitter_parameters emitter_body tab
put_emitter signal out =
    let args = children_named (codes "arg") signal in
    put (emitter_body signal) (
      put_emitter_parameters (length args) 0 args
        (put (text (tab ∷ codes "void " ∷ get (codes "name") signal ∷ codes "(" ∷ [])) out))

-- The loop over the signals
unfoldable pub put_emitters : List Node → Output → Output
unfolding put_emitter
put_emitters [] out = out
put_emitters (signal ∷ signals) out = put_emitters signals (put_emitter signal out)
