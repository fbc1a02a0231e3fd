-- ===== src/Generator/SignalExamples.antt =====
-- A signal between generated code (tools/generate_adaptor.cpp, tools/generate_proxy.cpp).
use dbus_cplusplus.Common.{◌≡◌, refl, true, false, List, [], ◌∷◌, none, some, codes}
use dbus_cplusplus.Signature.Types.{atom, int32, string}
use dbus_cplusplus.Signature.Names.{stub_name}
use dbus_cplusplus.Paths.{same}
use dbus_cplusplus.Xml.{Node, node, nil, cons, get, find, named, children_named, select}
use dbus_cplusplus.Marshal.Types.{TypeOf, sig}
use dbus_cplusplus.Marshal.Items.{lib}
use dbus_cplusplus.Generator.{Output, put, object_of, object_for}
use dbus_cplusplus.Generator.Text.{tab, text, digits, decimal}
use dbus_cplusplus.Generator.Programs.{show_lines}
use dbus_cplusplus.Generator.Programs.Meaning.{Variables, State, World, started, look_up, value_of}
use dbus_cplusplus.Generator.Programs.Scope.{
  compiles, run_function, declared, functions, gathered, all_differ, none_in, all_are, is_in,
}
use dbus_cplusplus.Generator.Programs.Runs.{inserts, types, Bound, Distinct}
use dbus_cplusplus.Generator.Proxy.Parameters.{name_or}
use dbus_cplusplus.Generator.Proxy.Signals.{put_signal_unmarshaler}
use dbus_cplusplus.Generator.Adaptor.Emitters.{emitter_body}
use dbus_cplusplus.Generator.Programs.Bodies.{AllPlain, names, numbered}
use dbus_cplusplus.Generator.Programs.Calls.{name_of}
use dbus_cplusplus.Generator.Programs.Emissions.{
  args_of, emitter_lines, appending, handler_lines, taking, reads_of,
}
use dbus_cplusplus.Generator.Delivery.{signal_delivered}
use dbus_cplusplus.Generator.CallExamples.{arg, ins, good_in, named_well}

abbrev signal : Node
signal =
    node (codes "signal") ((codes "name", codes "Putting") ∷ []) []
      (cons (arg (codes "a") (codes "i") []) (cons (arg [] (codes "s") []) nil))

sent : Variables lib
unfolding TypeOf
sent = (codes "arg1", (atom int32, some 5)) ∷ (codes "arg2", (atom string, some (codes "x"))) ∷ []

plain : AllPlain (types lib ins) (args_of signal)
unfolding ins children_named named get find same object_for object_of sig select
plain = ((refl, refl), ((refl, refl), tt))

in_variables : Bound lib (numbered (codes "arg") 0 (types lib ins)) ins sent
unfolding ins sent numbered value_of look_up same decimal digits TypeOf
in_variables = (refl, (refl, tt))

different : Distinct (names (codes "arg") 0 (args_of signal))
unfolding names name_or children_named named get find same decimal digits
different = ((refl, tt), (tt, tt))

abbrev idle : World lib
idle = record { answer = λ name is. none; perform = λ name vs. [] }

abbrev empty : Output
empty = record { body = []; includes = [] }

emitter_compiles :
    compiles named_well
      (numbered (codes "arg") 0 (types lib ins))
      (emitter_lines (name_of signal) (types lib ins))
    ≡ true
unfolding ins compiles emitter_lines appending inserts declared functions gathered all_differ
    none_in all_are is_in numbered decimal digits find get same TypeOf
emitter_compiles = refl

handler_compiles :
    compiles named_well
      (codes "sig" ∷ [])
      (handler_lines (name_of signal) (types lib ins) (names (codes "arg") 0 (args_of signal)))
    ≡ true
unfolding ins compiles handler_lines taking reads_of declared functions gathered all_differ none_in
    all_are is_in names name_or children_named named select decimal digits find get same TypeOf
handler_compiles = refl

-- An argument must not be called like the reader.
reader_clashes :
    compiles named_well
      (codes "sig" ∷ [])
      (handler_lines (name_of signal) (types lib ins) (codes "ri" ∷ codes "b" ∷ []))
    ≡ false
unfolding ins compiles handler_lines taking reads_of declared functions gathered all_differ none_in
    all_are is_in find get same TypeOf
reader_clashes = refl

signal_delivered_example :
    (emitter_body signal
      ≡ text (
          codes ")\n"
          ∷ tab
          ∷ codes "{\n"
          ∷ show_lines (emitter_lines (name_of signal) (types lib ins))
          ∷ tab
          ∷ codes "}\n"
          ∷ []))
    × (put_signal_unmarshaler signal empty
        ≡ put
            (text (
              tab
              ∷ codes "void "
              ∷ stub_name (name_of signal)
              ∷ codes "(const ::DBus::SignalMessage &sig)\n"
              ∷ tab
              ∷ codes "{\n"
              ∷ show_lines (
                  handler_lines
                    (name_of signal)
                    (types lib ins)
                    (names (codes "arg") 0 (args_of signal)))
              ∷ tab
              ∷ codes "}\n"
              ∷ []))
            empty)
    × (items : List lib.Item) × (emitted received : State lib) × (run_function lib 1 named_well idle
          (numbered (codes "arg") 0 (types lib ins))
          (emitter_lines (name_of signal) (types lib ins))
          (started lib sent [])
        ≡ some emitted)
    × (emitted.sent ≡ (name_of signal, items) ∷ [])
    × (run_function lib 1 named_well idle
          (codes "sig" ∷ [])
          (handler_lines (name_of signal) (types lib ins) (names (codes "arg") 0 (args_of signal)))
          (started lib [] items)
        ≡ some received)
    × (received.calls ≡ (name_of signal, ins) ∷ [])
signal_delivered_example =
    signal_delivered lib 1 idle named_well signal ins sent empty plain good_in in_variables
      emitter_compiles handler_compiles different
