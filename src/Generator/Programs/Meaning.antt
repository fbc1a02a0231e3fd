-- ===== src/Generator/Programs/Meaning.antt =====
-- What the statements that tools/generate_adaptor.cpp and tools/generate_proxy.cpp write do to the
-- variables and the messages. A declaration puts a variable before the others of its name; that no
-- name is declared twice in a function is for Generator/Programs/Scope.
use dbus_cplusplus.Common.{ℕ, List, [], ◌∷◌, ◌++◌, Option, none, some, drop, if◌then◌else◌}
use dbus_cplusplus.Paths.{same}
use dbus_cplusplus.Xml.{Bytes}
use dbus_cplusplus.Interface.{ok, err}
use dbus_cplusplus.Signature.Types.{Tree}
use dbus_cplusplus.Marshal.{Libdbus, current}
use dbus_cplusplus.Marshal.Types.{TypeOf}
use dbus_cplusplus.Marshal.Write.{write}
use dbus_cplusplus.Marshal.Read.{read}
use dbus_cplusplus.Generator.Programs.{
  Statement, new_call, new_reply, new_signal, emit_signal, get_reader, get_writer, set_member,
  invoke_method, declare, extract, insert, call_with, assign_call, give_back, give_reply,
}

module _ (lib : Libdbus) where
  abbrev pub Value : Type 0
  Value = (t : Tree) × TypeOf lib t

  -- A variable has a type, and a value where one has been assigned.
  abbrev pub Variable : Type 0
  Variable = (t : Tree) × Option (TypeOf lib t)

  abbrev pub full : Value → Variable
  full (t, v) = (t, some v)

  -- The newest first
  abbrev pub Variables : Type 0
  Variables = List (Bytes × Variable)

  unfoldable pub look_up : Bytes → Variables → Option Variable
  look_up x [] = none
  look_up x ((y, v) ∷ vars) = if same y x then some v else look_up x vars

  unfoldable pub value_of : Bytes → Variables → Option Value
  unfolding look_up
  value_of x vars = elim (look_up x vars) [
    | none ↦ none
    | some (t, none) ↦ none
    | some (t, some v) ↦ some (t, v)
  ]

  unfoldable pub values_of : List Bytes → Variables → Option (List Value)
  unfolding value_of
  values_of [] vars = some []
  values_of (x ∷ xs) vars = elim (value_of x vars) [
    | none ↦ none
    | some v ↦ elim (values_of xs vars) [ none ↦ none | some vs ↦ some (v ∷ vs) ]
  ]

  -- The variables after values have been assigned to them
  unfoldable pub filled {ℓ} :
      {V : Type ℓ} → List Bytes → List V → List (Bytes × V) → List (Bytes × V)
  filled [] vs vars = vars
  filled (x ∷ xs) [] vars = vars
  filled (x ∷ xs) (v ∷ vs) vars = filled xs vs ((x, v) ∷ vars)

  abbrev pub fulls : List Value → List Variable
  fulls [] = []
  fulls (v ∷ vs) = full v ∷ fulls vs

  -- The message that arrived, what is left of it for the reader, what has been written to the
  -- message that is made, the member that it names, the signals sent, the functions called with
  -- their arguments, and what the function gives back.
  pub record State : Type 0 where
    pub vars : Variables
    pub received : List lib.Item
    pub unread : List lib.Item
    pub written : List lib.Item
    pub called : Bytes
    pub sent : List (Bytes × List lib.Item)
    pub calls : List (Bytes × List Value)
    pub result : Option Value

  abbrev pub started : Variables → List lib.Item → State
  started vars received = record {
    vars = vars;
    received = received;
    unread = [];
    written = [];
    called = [];
    sent = [];
    calls = [];
    result = none;
  }

  -- What answers a call of a member, and what a method does: the values that it gives out.
  pub record World : Type 0 where
    pub answer : Bytes → List lib.Item → Option (List lib.Item)
    pub perform : Bytes → List Value → List Value

  module _ (fuel : ℕ) (world : World) where
    -- `none` is for an exception, a variable that is missing or has no value, or too little fuel.
    unfoldable pub step : Statement → State → Option State
    unfolding value_of values_of filled look_up
    step new_call s = some s
    step new_reply s = some s
    step (new_signal name) s = some (record s { called = name })
    step emit_signal s = some (record s { sent = s.sent ++ (s.called, s.written) ∷ [] })
    step (get_reader message) s = some (record s { unread = s.received })
    step (get_writer message) s = some (record s { written = [] })
    step (set_member name) s = some (record s { called = name })
    step invoke_method s = elim (world.answer s.called s.written) [
      | none ↦ none
      | some items ↦ some (record s { received = items })
    ]
    step (declare t x) s = some (record s { vars = (x, (t, none)) ∷ s.vars })
    step (extract x) s = elim (look_up x s.vars) [
      | none ↦ none
      | some (t, old) ↦ elim (read lib fuel t (current lib s.unread)) [
        | none ↦ none
        | some (err name message) ↦ none
        | some (ok v) ↦
            some (record s { vars = (x, (t, some v)) ∷ s.vars; unread = drop 1 s.unread })
      ]
    ]
    step (insert x) s = elim (value_of x s.vars) [
      | none ↦ none
      | some (t, v) ↦ elim (write lib fuel t v) [
        | none ↦ none
        | some item ↦ some (record s { written = s.written ++ item ∷ [] })
      ]
    ]
    step (call_with name ins outs) s = elim (values_of ins s.vars) [
      | none ↦ none
      | some vs ↦ some (record s {
        vars = filled outs (fulls (world.perform name vs)) s.vars;
        calls = s.calls ++ (name, vs) ∷ [];
      })
    ]
    step (assign_call t x name ins) s = elim (values_of ins s.vars) [
      | none ↦ none
      | some vs ↦ some (record s {
        vars = filled (x ∷ []) (fulls (world.perform name vs)) s.vars;
        calls = s.calls ++ (name, vs) ∷ [];
      })
    ]
    step give_reply s = some s
    step (give_back x) s = elim (value_of x s.vars) [
      | none ↦ none
      | some v ↦ some (record s { result = some v })
    ]

    unfoldable pub run : List Statement → State → Option State
    unfolding step
    run [] s = some s
    run (statement ∷ statements) s = elim (step statement s) [
      | none ↦ none
      | some after ↦ run statements after
    ]

    -- The lines of a function in order
    unfoldable pub run_lines : List (List Statement) → State → Option State
    unfolding run
    run_lines [] s = some s
    run_lines (l ∷ ls) s = elim (run l s) [ none ↦ none | some after ↦ run_lines ls after ]
