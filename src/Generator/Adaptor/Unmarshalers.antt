-- ===== src/Generator/Adaptor/Unmarshalers.antt =====
-- The functions of an adaptor that take a call's message apart, call the method and make the reply
-- (tools/generate_adaptor.cpp). The counters that start at 1 in the code start at 0 here, and are
-- written one higher.
use dbus_cplusplus.Common.{
  ℕ, ◌+◌, Bool, not, ◌||◌, List, [], ◌∷◌, ◌++◌, length, ltb, ◌==◌, if◌then◌else◌, codes,
}
use dbus_cplusplus.Xml.{Bytes, Node, get, children_named, select}
use dbus_cplusplus.Signature.Names.{stub_name}
use dbus_cplusplus.Generator.{type_of, object_for}
use dbus_cplusplus.Generator.Text.{tab, text, each_from, decimal}

-- The 'in' variables
unfoldable pub read_in : ℕ → Node → Bytes
unfolding tab type_of decimal
read_in i arg = text (
    tab
    ∷ tab
    ∷ type_of (get (codes "type") arg)
    ∷ codes " argin"
    ∷ decimal (i + 1)
    ∷ codes "; ri >> argin"
    ∷ decimal (i + 1)
    ∷ codes ";\n"
    ∷ [])

-- The 'in' object variables
unfoldable pub convert_in : ℕ → Node → Bytes
unfolding tab object_for decimal
convert_in i arg = elim (object_for arg) [
  | [] ↦ []
  | c ∷ object ↦ text (
      tab
      ∷ tab
      ∷ (c ∷ object)
      ∷ codes " _argin"
      ∷ decimal (i + 1)
      ∷ codes "; _argin"
      ∷ decimal (i + 1)
      ∷ codes " << argin"
      ∷ decimal (i + 1)
      ∷ codes ";\n"
      ∷ [])
]

-- The 'out' variables; a single one will be assigned.
unfoldable pub declare_out : ℕ → ℕ → Node → Bytes
unfolding tab type_of decimal
declare_out size i arg = text (
    tab
    ∷ tab
    ∷ type_of (get (codes "type") arg)
    ∷ codes " argout"
    ∷ decimal (i + 1)
    ∷ (if size == 1 then codes " = " else codes ";\n")
    ∷ [])

-- The 'out' object variables
unfoldable pub declare_out_object : ℕ → Node → Bytes
unfolding tab object_for decimal
declare_out_object i arg = elim (object_for arg) [
  | [] ↦ []
  | c ∷ object ↦
      text (tab ∷ tab ∷ (c ∷ object) ∷ codes " _argout" ∷ decimal (i + 1) ∷ codes ";\n" ∷ [])
]

-- A variable in the call: that of the object, where there is one
unfoldable pub variable : Bytes → ℕ → Node → Bytes
unfolding object_for decimal
variable prefix i arg = elim (object_for arg) [
  | [] ↦ prefix ++ decimal (i + 1)
  | c ∷ object ↦ codes "_" ++ (prefix ++ decimal (i + 1))
]

abbrev pub comma : Bool → Bytes
comma wanted = if wanted then codes ", " else []

-- The loops over the arguments of the call
unfoldable pub call_in : Bool → ℕ → ℕ → Node → Bytes
unfolding variable
call_in more size i arg = variable (codes "argin") i arg ++ comma (not (i + 1 == size) || more)

unfoldable pub call_out : ℕ → ℕ → Node → Bytes
unfolding variable
call_out size i arg = variable (codes "argout") i arg ++ comma (not (i + 1 == size))

-- An object that the method gave is converted for the reply.
unfoldable pub convert_out : ℕ → Node → Bytes
unfolding tab object_for decimal
convert_out i arg = elim (object_for arg) [
  | [] ↦ []
  | c ∷ object ↦ text (
      tab
      ∷ tab
      ∷ codes "argout"
      ∷ decimal (i + 1)
      ∷ codes " << _argout"
      ∷ decimal (i + 1)
      ∷ codes ";\n"
      ∷ [])
]

-- for (unsigned int i = 0; i < args_out.size(); ++i)
unfoldable pub write_out : ℕ → Node → Bytes
unfolding tab decimal
write_out i arg = text (tab ∷ tab ∷ codes "wi << argout" ∷ decimal (i + 1) ∷ codes ";\n" ∷ [])

unfoldable pub read_ins : List Node → Bytes
unfolding tab read_in
read_ins [] = []
read_ins (arg ∷ args) = text (
    tab
    ∷ tab
    ∷ codes "::DBus::MessageIter ri = call.reader();\n\n"
    ∷ each_from read_in 0 (arg ∷ args)
    ∷ [])

unfoldable pub write_outs : List Node → Bytes
unfolding tab convert_out write_out
write_outs [] = []
write_outs (arg ∷ args) = text (
    tab
    ∷ tab
    ∷ codes "::DBus::MessageIter wi = reply.writer();\n"
    ∷ each_from convert_out 0 (arg ∷ args)
    ∷ each_from write_out 0 (arg ∷ args)
    ∷ [])

-- The call of the method, with its indent and its arguments
unfoldable pub call_method : Bytes → List Node → List Node → Bytes
unfolding tab call_in call_out
call_method name args_in args_out =
    let more = ltb 1 (length args_out) in
    text (
      (if length args_out == 1 then [] else tab ++ tab)
      ∷ name
      ∷ codes "("
      ∷ each_from (call_in more (length args_in)) 0 args_in
      ∷ (if more then each_from (call_out (length args_out)) 0 args_out else [])
      ∷ codes ");\n"
      ∷ [])

unfoldable pub unmarshaler : Node → Bytes
unfolding tab stub_name read_ins convert_in declare_out declare_out_object call_method write_outs
unmarshaler method =
    let args = children_named (codes "arg") method in
    let args_in = select (codes "direction") (codes "in") args in
    let args_out = select (codes "direction") (codes "out") args in
    text (
      tab
      ∷ codes "::DBus::Message "
      ∷ stub_name (get (codes "name") method)
      ∷ codes "(const ::DBus::CallMessage &call)\n"
      ∷ tab
      ∷ codes "{\n"
      ∷ read_ins args_in
      ∷ each_from convert_in 0 args_in
      ∷ each_from (declare_out (length args_out)) 0 args_out
      ∷ each_from declare_out_object 0 args_out
      ∷ call_method (get (codes "name") method) args_in args_out
      ∷ tab
      ∷ tab
      ∷ codes "::DBus::ReturnMessage reply(call);\n"
      ∷ write_outs args_out
      ∷ tab
      ∷ tab
      ∷ codes "return reply;\n"
      ∷ tab
      ∷ codes "}\n"
      ∷ [])
