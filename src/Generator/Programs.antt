-- ===== src/Generator/Programs.antt =====
-- The statements that tools/generate_adaptor.cpp and tools/generate_proxy.cpp write in the bodies
-- of functions, and how each is written in C++.
pub mod Meaning
pub mod Scope
pub mod Runs
pub mod Loops
pub mod Bodies
pub mod Calls
pub mod Stubs
pub mod Emissions
pub mod Numbered
pub mod StubRuns
pub mod ProxyRuns
use dbus_cplusplus.Common.{ℕ, List, [], ◌∷◌, ◌++◌, Option, none, some, drop, if◌then◌else◌, codes}
use dbus_cplusplus.Paths.{same}
use dbus_cplusplus.Xml.{Bytes}
use dbus_cplusplus.Interface.{ok, err}
use dbus_cplusplus.Signature.Types.{Tree, cpp_type}
use dbus_cplusplus.Marshal.{Libdbus, current}
use dbus_cplusplus.Marshal.Types.{TypeOf}
use dbus_cplusplus.Marshal.Write.{write}
use dbus_cplusplus.Marshal.Read.{read}
use dbus_cplusplus.Generator.Text.{tab, text}
use dbus_cplusplus.Generator.Join.{join}

-- An assignment declares its variable.
pub data Statement : Type 0 where
  new_call new_reply : Statement
  new_signal : Bytes → Statement
  emit_signal : Statement
  get_reader get_writer : Bytes → Statement
  set_member : Bytes → Statement
  invoke_method : Statement
  declare : Tree → Bytes → Statement
  extract insert : Bytes → Statement
  call_with : Bytes → List Bytes → List Bytes → Statement
  assign_call : Tree → Bytes → Bytes → List Bytes → Statement
  give_back : Bytes → Statement
  give_reply : Statement

unfoldable pub show : Statement → Bytes
unfolding join
show new_call = codes "::DBus::CallMessage call;"
show (new_signal name) = text (codes "::DBus::SignalMessage sig(\"" ∷ name ∷ codes "\");" ∷ [])
show emit_signal = codes "emit_signal(sig);"
show new_reply = codes "::DBus::ReturnMessage reply(call);"
show (get_reader message) =
    text (codes "::DBus::MessageIter ri = " ∷ message ∷ codes ".reader();" ∷ [])
show (get_writer message) =
    text (codes "::DBus::MessageIter wi = " ∷ message ∷ codes ".writer();" ∷ [])
show (set_member name) = text (codes "call.member(\"" ∷ name ∷ codes "\");" ∷ [])
show invoke_method = codes "::DBus::Message ret = invoke_method (call);"
show (declare t x) = text (codes (cpp_type t) ∷ codes " " ∷ x ∷ codes ";" ∷ [])
show (extract x) = text (codes "ri >> " ∷ x ∷ codes ";" ∷ [])
show (insert x) = text (codes "wi << " ∷ x ∷ codes ";" ∷ [])
show (call_with name ins outs) = text (name ∷ codes "(" ∷ join (ins ++ outs) ∷ codes ");" ∷ [])
show (assign_call t x name ins) = text (
    codes (cpp_type t)
    ∷ codes " "
    ∷ x
    ∷ codes " = "
    ∷ name
    ∷ codes "("
    ∷ join ins
    ∷ codes ");"
    ∷ [])
show (give_back x) = text (codes "return " ∷ x ∷ codes ";" ∷ [])
show give_reply = codes "return reply;"

-- The statements of a line
unfoldable pub show_line : List Statement → Bytes
unfolding show
show_line [] = []
show_line (s ∷ []) = show s
show_line (s ∷ t ∷ ss) = show s ++ (codes " " ++ show_line (t ∷ ss))

-- The lines of a function, each indented; a line of no statement is empty.
unfoldable pub show_lines : List (List Statement) → Bytes
unfolding show_line tab
show_lines [] = []
show_lines ([] ∷ ls) = codes "\n" ++ show_lines ls
show_lines ((s ∷ ss) ∷ ls) = text (tab ∷ tab ∷ show_line (s ∷ ss) ∷ codes "\n" ∷ show_lines ls ∷ [])
