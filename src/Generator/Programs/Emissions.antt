-- ===== src/Generator/Programs/Emissions.antt =====
-- The bodies of an adaptor's function that emits a signal (tools/generate_adaptor.cpp) and of a
-- proxy's function that receives it (tools/generate_proxy.cpp), as statements, where no argument
-- has an annotation for an object.
use dbus_cplusplus.Common.{
  ℕ, suc, ◌+◌, ◌≡◌, refl, sym, ap, ◌∙◌, not, List, [], ◌∷◌, ◌++◌, append-nil, append_assoc, length,
  ◌==◌, codes, arith,
}
use dbus_cplusplus.Xml.{Bytes, Node, children_named}
use dbus_cplusplus.Signature.Types.{Tree}
use dbus_cplusplus.Signature.Names.{stub_name}
use dbus_cplusplus.Generator.{Output, put}
use dbus_cplusplus.Generator.Text.{tab, text, each_from}
use dbus_cplusplus.Generator.Join.{comma_after, separated, separated-join}
use dbus_cplusplus.Generator.Programs.{
  Statement, new_signal, emit_signal, get_reader, get_writer, declare, extract, call_with, show,
  show_line, show_lines,
}
use dbus_cplusplus.Generator.Programs.Runs.{inserts}
use dbus_cplusplus.Generator.Adaptor.Emitters.{append_argument, append_arguments, emitter_body}
use dbus_cplusplus.Generator.Proxy.Signals.{
  read_argument, put_conversion, put_reads, passed, sig_reader, put_signal_unmarshaler,
}
use dbus_cplusplus.Generator.Programs.Bodies.{AllPlain, names, numbered, type_of-Plain}
use dbus_cplusplus.Generator.Programs.Calls.{name_of}

abbrev pub args_of : Node → List Node
args_of signal = children_named (codes "arg") signal

unfoldable pub appending : List Bytes → List (List Statement)
appending [] = []
appending (x ∷ xs) = (get_writer (codes "sig") ∷ []) ∷ inserts (x ∷ xs)

unfoldable pub emitter_lines : Bytes → List Tree → List (List Statement)
unfolding appending
emitter_lines name ts =
    (new_signal name ∷ []) ∷ (appending (numbered (codes "arg") 0 ts) ++ (emit_signal ∷ []) ∷ [])

-- Each variable is declared and extracted on lines of its own.
unfoldable pub reads_of : List Tree → List Bytes → List (List Statement)
reads_of [] xs = []
reads_of (t ∷ ts) [] = []
reads_of (t ∷ ts) (x ∷ xs) = (declare t x ∷ []) ∷ (extract x ∷ []) ∷ reads_of ts xs

unfoldable pub taking : List Tree → List Bytes → List (List Statement)
taking [] xs = []
taking (t ∷ ts) xs = (get_reader (codes "sig") ∷ []) ∷ [] ∷ reads_of (t ∷ ts) xs

unfoldable pub handler_lines : Bytes → List Tree → List Bytes → List (List Statement)
unfolding taking
handler_lines name ts xs = taking ts xs ++ (call_with name xs [] ∷ []) ∷ []

append_argument-shown :
    (i : ℕ) (ts : List Tree) (args : List Node) (ls : List (List Statement))
    → AllPlain ts args
    → each_from append_argument i args ++ show_lines ls
      ≡ show_lines (inserts (numbered (codes "arg") i ts) ++ ls)
unfolding append_argument numbered inserts show_lines show_line show
append_argument-shown i [] [] ls h = refl
append_argument-shown i [] (arg ∷ args) ls h = absurd h
append_argument-shown i (t ∷ ts) [] ls h = absurd h
append_argument-shown i (t ∷ ts) (arg ∷ args) ls ((o, e), h) =
    rw (append_argument, o, sym (append_argument-shown (suc i) ts args ls h))
      (simp (append_assoc, append-nil) refl)

append_arguments-shown :
    (ts : List Tree) (args : List Node) (ls : List (List Statement))
    → AllPlain ts args
    → append_arguments args ++ show_lines ls
      ≡ show_lines (appending (numbered (codes "arg") 0 ts) ++ ls)
unfolding append_arguments appending numbered show_lines show_line show
append_arguments-shown [] [] ls h = refl
append_arguments-shown [] (arg ∷ args) ls h = absurd h
append_arguments-shown (t ∷ ts) [] ls h = absurd h
append_arguments-shown (t ∷ ts) (arg ∷ args) ls h =
    rw (sym (append_argument-shown 0 (t ∷ ts) (arg ∷ args) ls h))
      (simp (append_assoc, append-nil) refl)

-- The body of the function that emits a signal is that of its statements.
pub emitter_body-shown :
    (signal : Node) (ts : List Tree)
    → AllPlain ts (args_of signal)
    → emitter_body signal
      ≡ text (
          codes ")\n"
          ∷ tab
          ∷ codes "{\n"
          ∷ show_lines (emitter_lines (name_of signal) ts)
          ∷ tab
          ∷ codes "}\n"
          ∷ [])
unfolding emitter_body emitter_lines show_lines show_line show
emitter_body-shown signal ts h =
    rw (emitter_body, sym (append_arguments-shown ts (args_of signal) ((emit_signal ∷ []) ∷ []) h))
      (simp (append_assoc, append-nil) refl)

read_argument-shown :
    (i : ℕ) (ts : List Tree) (args : List Node) (ls : List (List Statement))
    → AllPlain ts args
    → each_from read_argument i args ++ show_lines ls
      ≡ show_lines (reads_of ts (names (codes "arg") i args) ++ ls)
unfolding read_argument names reads_of show_lines show_line show
read_argument-shown i [] [] ls h = refl
read_argument-shown i [] (arg ∷ args) ls h = absurd h
read_argument-shown i (t ∷ ts) [] ls h = absurd h
read_argument-shown i (t ∷ ts) (arg ∷ args) ls (p, h) =
    rw (read_argument, type_of-Plain t arg p, sym (read_argument-shown (suc i) ts args ls h))
      (simp (append_assoc, append-nil) refl)

-- Nothing is converted, and nothing is stored for the includes.
put_reads-Plain :
    (i : ℕ) (ts : List Tree) (args : List Node) (out : Output)
    → AllPlain ts args
    → put_reads i args out ≡ put (each_from read_argument i args) out
unfolding put_reads put_conversion
put_reads-Plain i [] [] out h = ap (λ b. record out { body = b }) (sym (append-nil out.body))
put_reads-Plain i [] (arg ∷ args) out h = absurd h
put_reads-Plain i (t ∷ ts) [] out h = absurd h
put_reads-Plain i (t ∷ ts) (arg ∷ args) out ((o, e), h) =
    rw (put_reads, o, put_conversion)
      (put_reads-Plain (suc i) ts args (put (read_argument i arg) out) h
        ∙ ap (λ b. record out { body = b })
            (append_assoc out.body (read_argument i arg) (each_from read_argument (suc i) args)))

passed-separated :
    (size j : ℕ) (ts : List Tree) (args : List Node)
    → AllPlain ts args
    → each_from (passed size) j args
      ≡ separated (λ k. not (k + 1 == size)) j (names (codes "arg") j args)
unfolding passed names separated
passed-separated size j [] [] h = refl
passed-separated size j [] (arg ∷ args) h = absurd h
passed-separated size j (t ∷ ts) [] h = absurd h
passed-separated size j (t ∷ ts) (arg ∷ args) ((o, e), h) =
    rw (passed, o, passed-separated size (suc j) ts args h) (simp (append_assoc, append-nil) refl)

pub length-names :
    (default : Bytes) (i : ℕ) (args : List Node) → length (names default i args) ≡ length args
unfolding names
length-names default i [] = refl
length-names default i (arg ∷ args) = ap suc (length-names default (suc i) args)

taking-shown :
    (ts : List Tree) (args : List Node) (ls : List (List Statement))
    → AllPlain ts args
    → sig_reader args ++ (each_from read_argument 0 args ++ show_lines ls)
      ≡ show_lines (taking ts (names (codes "arg") 0 args) ++ ls)
unfolding sig_reader taking names show_lines show_line show
taking-shown [] [] ls h = refl
taking-shown [] (arg ∷ args) ls h = absurd h
taking-shown (t ∷ ts) [] ls h = absurd h
taking-shown (t ∷ ts) (arg ∷ args) ls h =
    rw (sym (read_argument-shown 0 (t ∷ ts) (arg ∷ args) ls h))
      (simp (append_assoc, append-nil) refl)

-- The function that receives a signal has the body of its statements, and adds no include.
pub put_signal_unmarshaler-shown :
    (signal : Node) (ts : List Tree) (out : Output)
    → AllPlain ts (args_of signal)
    → put_signal_unmarshaler signal out
      ≡ put
          (text (
            tab
            ∷ codes "void "
            ∷ stub_name (name_of signal)
            ∷ codes "(const ::DBus::SignalMessage &sig)\n"
            ∷ tab
            ∷ codes "{\n"
            ∷ show_lines
                (handler_lines (name_of signal) ts (names (codes "arg") 0 (args_of signal)))
            ∷ tab
            ∷ codes "}\n"
            ∷ []))
          out
unfolding put_signal_unmarshaler handler_lines show_lines show_line show
put_signal_unmarshaler-shown signal ts out h =
    let args = args_of signal in
    let xs = names (codes "arg") 0 args in
    let joined =
      passed-separated (length args) 0 ts args h
      ∙ separated-join (length args) 0 _ xs (λ k. comma_after k (length args))
          (omega (arith, length-names (codes "arg") 0 args)) in
    rw
      (
        put_signal_unmarshaler,
        put_reads-Plain 0 ts args _ h,
        joined,
        sym (taking-shown ts args ((call_with (name_of signal) xs [] ∷ []) ∷ []) h),
      )
      (ap (λ b. record out { body = b }) (simp (append_assoc, append-nil) refl))
