-- ===== src/Generator/Programs/Scope.antt =====
-- When C++ takes the functions that tools/generate_adaptor.cpp and tools/generate_proxy.cpp write:
-- the parameters and the variables of a function share one block.
use dbus_cplusplus.Common.{
  ℕ, Bool, true, false, not, ◌&&◌, List, [], ◌∷◌, ◌++◌, Option, none, if◌then◌else◌, codes,
}
use dbus_cplusplus.Paths.{same}
use dbus_cplusplus.Xml.{Bytes}
use dbus_cplusplus.Marshal.{Libdbus}
use dbus_cplusplus.Generator.Programs.{
  Statement, new_call, new_reply, new_signal, emit_signal, get_reader, get_writer, set_member,
  invoke_method, declare, extract, insert, call_with, assign_call, give_back, give_reply,
}
use dbus_cplusplus.Generator.Programs.Meaning.{State, World, run_lines}

-- The variables that a statement declares
unfoldable pub declared : Statement → List Bytes
declared new_call = codes "call" ∷ []
declared new_reply = codes "reply" ∷ []
declared (new_signal name) = codes "sig" ∷ []
declared (get_reader message) = codes "ri" ∷ []
declared (get_writer message) = codes "wi" ∷ []
declared invoke_method = codes "ret" ∷ []
declared (declare t x) = x ∷ []
declared (assign_call t x name ins) = x ∷ []
declared emit_signal = []
declared (set_member name) = []
declared (extract x) = []
declared (insert x) = []
declared (call_with name ins outs) = []
declared (give_back x) = []
declared give_reply = []

-- The functions that a statement calls by their names alone
unfoldable pub functions : Statement → List Bytes
functions invoke_method = codes "invoke_method" ∷ []
functions emit_signal = codes "emit_signal" ∷ []
functions (call_with name ins outs) = name ∷ []
functions (assign_call t x name ins) = name ∷ []
functions new_call = []
functions new_reply = []
functions (new_signal name) = []
functions (get_reader message) = []
functions (get_writer message) = []
functions (set_member name) = []
functions (declare t x) = []
functions (extract x) = []
functions (insert x) = []
functions (give_back x) = []
functions give_reply = []

-- The names of all the statements of some lines
unfoldable pub gathered : (Statement → List Bytes) → List (List Statement) → List Bytes
gathered names [] = []
gathered names ([] ∷ ls) = gathered names ls
gathered names ((s ∷ ss) ∷ ls) = names s ++ gathered names (ss ∷ ls)

unfoldable pub is_in : Bytes → List Bytes → Bool
is_in x [] = false
is_in x (y ∷ ys) = let rest = is_in x ys in if same y x then true else rest

unfoldable pub all_differ : List Bytes → Bool
unfolding is_in
all_differ [] = true
all_differ (x ∷ xs) = not (is_in x xs) && all_differ xs

-- None of the first is one of the second.
unfoldable pub none_in : List Bytes → List Bytes → Bool
unfolding is_in
none_in [] ys = true
none_in (x ∷ xs) ys = not (is_in x ys) && none_in xs ys

unfoldable pub all_are : (Bytes → Bool) → List Bytes → Bool
all_are test [] = true
all_are test (x ∷ xs) = test x && all_are test xs

-- A function with these parameters and lines is well-formed: the names are identifiers and no
-- keywords, which is for C++ to say; no parameter or variable is declared twice, and none hides a
-- function that is called.
unfoldable pub compiles : (Bytes → Bool) → List Bytes → List (List Statement) → Bool
unfolding declared functions gathered all_differ none_in all_are
compiles is_identifier parameters ls =
    let scope = parameters ++ gathered declared ls in
    let called = gathered functions ls in
    all_are is_identifier (called ++ scope) && all_differ scope && none_in called scope

module _ (lib : Libdbus) (fuel : ℕ) (is_identifier : Bytes → Bool) (world : World lib) where
  -- A run of a function: one that is not well-formed has none.
  unfoldable pub run_function : List Bytes → List (List Statement) → State lib → Option (State lib)
  unfolding compiles run_lines
  run_function parameters ls s =
      if compiles is_identifier parameters ls then run_lines lib fuel world ls s else none
