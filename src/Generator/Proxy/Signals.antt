-- ===== src/Generator/Proxy/Signals.antt =====
-- The handlers of a proxy's signals, and the functions that take a signal's message apart and call
-- them (tools/generate_proxy.cpp).
use dbus_cplusplus.Common.{
  ℕ, suc, ◌+◌, false, not, List, [], ◌∷◌, ◌++◌, length, ◌==◌, if◌then◌else◌, codes,
}
use dbus_cplusplus.Xml.{Bytes, Node, get, children_named}
use dbus_cplusplus.Signature.Names.{stub_name}
use dbus_cplusplus.Generator.{Output, put, type_of, object_for}
use dbus_cplusplus.Generator.Text.{tab, text, each_from}
use dbus_cplusplus.Generator.Proxy.Parameters.{name_or, arg_name, put_in_parameters}

-- The handler that is to be implemented. The loop over its arguments does what that over the 'in'
-- arguments of a method does.
unfoldable pub put_handler : Node → Output → Output
unfolding tab put_in_parameters
put_handler signal out =
    let args = children_named (codes "arg") signal in
    put (codes ") = 0;\n") (
      put_in_parameters false (length args) 0 args
        (put (text (tab ∷ codes "virtual void " ∷ get (codes "name") signal ∷ codes "(" ∷ [])) out))

-- The loop over the signals
unfoldable pub put_handlers : List Node → Output → Output
unfolding put_handler
put_handlers [] out = out
put_handlers (signal ∷ signals) out = put_handlers signals (put_handler signal out)

-- A variable is declared for an argument and read.
unfoldable pub read_argument : ℕ → Node → Bytes
unfolding tab type_of name_or
read_argument i arg =
    let name = arg_name (codes "arg") i arg in
    text (
      tab
      ∷ tab
      ∷ type_of (get (codes "type") arg)
      ∷ codes " "
      ∷ name
      ∷ codes ";\n"
      ∷ tab
      ∷ tab
      ∷ codes "ri >> "
      ∷ name
      ∷ codes ";\n"
      ∷ [])

-- Its conversion to an object, which is stored for the includes.
unfoldable pub put_conversion : Bytes → Bytes → Output → Output
unfolding tab
put_conversion [] name out = out
put_conversion (c ∷ object) name out = record {
  body =
      out.body
      ++ text (
          tab
          ∷ tab
          ∷ (c ∷ object)
          ∷ codes " _"
          ∷ name
          ∷ codes ";\n"
          ∷ tab
          ∷ tab
          ∷ codes "_"
          ∷ name
          ∷ codes " << "
          ∷ name
          ∷ codes ";\n"
          ∷ []);
  includes = out.includes ++ (c ∷ object) ∷ [];
}

-- The loop over the arguments
unfoldable pub put_reads : ℕ → List Node → Output → Output
unfolding read_argument put_conversion object_for name_or
put_reads i [] out = out
put_reads i (arg ∷ args) out =
    put_reads (suc i) args (
      put_conversion (object_for arg) (arg_name (codes "arg") i arg)
        (put (read_argument i arg) out))

-- An argument of the handler's call
unfoldable pub passed : ℕ → ℕ → Node → Bytes
unfolding object_for name_or
passed size j arg = text (
    elim (object_for arg) [ [] ↦ [] | c ∷ object ↦ codes "_" ]
    ∷ arg_name (codes "arg") j arg
    ∷ (if not (j + 1 == size) then codes ", " else [])
    ∷ [])

-- if (!args.empty())
unfoldable pub sig_reader : List Node → Bytes
unfolding tab
sig_reader [] = []
sig_reader (arg ∷ args) = text (tab ∷ tab ∷ codes "::DBus::MessageIter ri = sig.reader();\n\n" ∷ [])

unfoldable pub put_signal_unmarshaler : Node → Output → Output
unfolding tab stub_name sig_reader put_reads passed
put_signal_unmarshaler signal out =
    let args = children_named (codes "arg") signal in
    let opened =
      put
        (text (
          tab
          ∷ codes "void "
          ∷ stub_name (get (codes "name") signal)
          ∷ codes "(const ::DBus::SignalMessage &sig)\n"
          ∷ tab
          ∷ codes "{\n"
          ∷ sig_reader args
          ∷ []))
        out in
    put
      (text (
        tab
        ∷ tab
        ∷ get (codes "name") signal
        ∷ codes "("
        ∷ each_from (passed (length args)) 0 args
        ∷ codes ");\n"
        ∷ tab
        ∷ codes "}\n"
        ∷ []))
      (put_reads 0 args opened)

-- The loop over the signals
unfoldable pub put_signal_unmarshalers : List Node → Output → Output
unfolding put_signal_unmarshaler
put_signal_unmarshalers [] out = out
put_signal_unmarshalers (signal ∷ signals) out =
    put_signal_unmarshalers signals (put_signal_unmarshaler signal out)
