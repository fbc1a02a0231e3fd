-- ===== src/Generator/Programs/Stubs.antt =====
-- The body of an adaptor's unmarshaler, as statements (tools/generate_adaptor.cpp).
use dbus_cplusplus.Common.{
  ◌+◌, ◌≡◌, refl, sym, ap, ap₂, ◌∙◌, true, false, List, [], ◌∷◌, ◌++◌, append-nil, append_assoc,
  length, ltb, ◌==◌, codes, arith,
}
use dbus_cplusplus.Xml.{Bytes, Node}
use dbus_cplusplus.Signature.Types.{Tree}
use dbus_cplusplus.Signature.Names.{stub_name}
use dbus_cplusplus.Generator.Text.{tab, text, each_from, decimal}
use dbus_cplusplus.Generator.Join.{comma_after, join, separated-join, separated-more}
use dbus_cplusplus.Generator.Adaptor.Parameters.{in_of, out_of, or_false, or_true}
use dbus_cplusplus.Generator.Programs.{
  Statement, new_reply, call_with, give_reply, show, show_line, show_lines,
}
use dbus_cplusplus.Generator.Programs.Runs.{declares}
use dbus_cplusplus.Generator.Adaptor.Unmarshalers.{
  declare_out, declare_out_object, convert_in, read_ins, write_outs, call_in, call_out, call_method,
  unmarshaler,
}
use dbus_cplusplus.Generator.Programs.Bodies.{
  AllPlain, numbered, type_of-Plain, read_in-shown, declare_out-shown, write_out-shown,
  conversions_none, length-AllPlain, length-numbered, call_in-separated, call_out-separated,
}
use dbus_cplusplus.Generator.Programs.Calls.{name_of, reading, calling, replying, adaptor_lines}

call_in-join :
    (ts : List Tree) (args : List Node)
    → AllPlain ts args
    → each_from (call_in false (length args)) 0 args ≡ join (numbered (codes "argin") 0 ts)
call_in-join ts args h =
    call_in-separated false (length args) 0 ts args h
    ∙ separated-join (length args) 0 _ (numbered (codes "argin") 0 ts)
        (λ k. or_false _ ∙ comma_after k (length args))
        (omega (arith, length-AllPlain ts args h, length-numbered (codes "argin") 0 ts))

call_out-join :
    (ts : List Tree) (args : List Node)
    → AllPlain ts args
    → each_from (call_out (length args)) 0 args ≡ join (numbered (codes "argout") 0 ts)
call_out-join ts args h =
    call_out-separated (length args) 0 ts args h
    ∙ separated-join (length args) 0 _ (numbered (codes "argout") 0 ts)
        (λ k. comma_after k (length args))
        (omega (arith, length-AllPlain ts args h, length-numbered (codes "argout") 0 ts))

call_both-join :
    (ts us : List Tree) (u : Tree) (ins outs : List Node)
    → AllPlain ts ins
    → AllPlain (u ∷ us) outs
    → each_from (call_in true (length ins)) 0 ins ++ each_from (call_out (length outs)) 0 outs
      ≡ join (numbered (codes "argin") 0 ts ++ numbered (codes "argout") 0 (u ∷ us))
unfolding numbered
call_both-join ts us u ins outs h k =
    ap₂ ◌++◌ (call_in-separated true (length ins) 0 ts ins h) (call_out-join (u ∷ us) outs k)
    ∙ separated-more 0 _ (numbered (codes "argin") 0 ts) (numbered (codes "argout") 1 us)
        (codes "argout" ++ decimal (0 + 1)) (λ k. or_true _)

read_ins-shown :
    (ts : List Tree) (args : List Node) (ls : List (List Statement))
    → AllPlain ts args
    → read_ins args ++ show_lines ls ≡ show_lines (reading ts (numbered (codes "argin") 0 ts) ++ ls)
unfolding read_ins reading show_lines show_line show
read_ins-shown [] [] ls h = refl
read_ins-shown [] (arg ∷ args) ls h = absurd h
read_ins-shown (t ∷ ts) [] ls h = absurd h
read_ins-shown (t ∷ ts) (arg ∷ args) ls h =
    rw (sym (read_in-shown 0 (t ∷ ts) (arg ∷ args) ls h)) (simp (append_assoc, append-nil) refl)

write_outs-shown :
    (us : List Tree) (args : List Node) (ls : List (List Statement))
    → AllPlain us args
    → write_outs args ++ show_lines ls
      ≡ show_lines (replying (numbered (codes "argout") 0 us) ++ ls)
unfolding write_outs replying show_lines show_line show numbered
write_outs-shown [] [] ls h = refl
write_outs-shown [] (arg ∷ args) ls h = absurd h
write_outs-shown (u ∷ us) [] ls h = absurd h
write_outs-shown (u ∷ us) (arg ∷ args) ls h =
    rw
      (
        write_outs,
        sym (write_out-shown 0 (u ∷ us) (arg ∷ args) ls h),
        (conversions_none 0 (u ∷ us) (arg ∷ args) h).2,
      )
      (simp (append_assoc, append-nil) refl)

-- Several variables that go out and the call
several-shown :
    (name : Bytes) (ts us : List Tree) (u : Tree) (ins outs : List Node)
    (ls : List (List Statement))
    → AllPlain ts ins
    → AllPlain (u ∷ us) outs
    → ltb 1 (length outs) ≡ true
    → (length outs == 1) ≡ false
    → each_from (declare_out (length outs)) 0 outs ++ (call_method name ins outs ++ show_lines ls)
      ≡ show_lines (
          declares (u ∷ us) (numbered (codes "argout") 0 (u ∷ us))
          ++ (call_with name (numbered (codes "argin") 0 ts) (numbered (codes "argout") 0 (u ∷ us))
              ∷ [])
            ∷ ls)
unfolding call_method show_lines show_line show
several-shown name ts us u ins outs ls h k more one =
    ap (λ x. each_from (declare_out (length outs)) 0 outs ++ x)
      (rw (call_method, more, one, sym (call_both-join ts us u ins outs h k))
        (simp (append_assoc, append-nil) refl))
    ∙ declare_out-shown (length outs) 0 (u ∷ us) outs
        ((call_with name (numbered (codes "argin") 0 ts) (numbered (codes "argout") 0 (u ∷ us))
            ∷ [])
          ∷ ls)
        one k

-- The variables that go out and the call
call_method-shown :
    (name : Bytes) (ts us : List Tree) (ins outs : List Node) (ls : List (List Statement))
    → AllPlain ts ins
    → AllPlain us outs
    → each_from (declare_out (length outs)) 0 outs ++ (call_method name ins outs ++ show_lines ls)
      ≡ show_lines
          (calling name (numbered (codes "argin") 0 ts) us (numbered (codes "argout") 0 us) ++ ls)
unfolding call_method calling show_lines show_line show declare_out
call_method-shown name ts [] ins [] ls h k =
    rw (call_method, call_in-join ts ins h) (simp (append_assoc, append-nil) refl)
call_method-shown name ts [] ins (o ∷ outs) ls h k = absurd k
call_method-shown name ts (u ∷ us) ins [] ls h k = absurd k
call_method-shown name ts (u ∷ []) ins (o ∷ []) ls h (p, k) =
    rw (call_method, call_in-join ts ins h, declare_out, type_of-Plain u o p)
      (simp (append_assoc, append-nil) refl)
call_method-shown name ts (u ∷ []) ins (o ∷ p ∷ outs) ls h (q, k) = absurd k
call_method-shown name ts (u ∷ v ∷ us) ins (o ∷ []) ls h (q, k) = absurd k
call_method-shown name ts (u ∷ v ∷ us) ins (o ∷ p ∷ outs) ls h k =
    several-shown name ts (v ∷ us) u ins (o ∷ p ∷ outs) ls h k (ground arith) (ground arith)
    ∙ ap show_lines
        (sym (append_assoc (declares (u ∷ v ∷ us) (numbered (codes "argout") 0 (u ∷ v ∷ us))) _ ls))

body_shown :
    (name : Bytes) (ts us : List Tree) (ins outs : List Node)
    → AllPlain ts ins
    → AllPlain us outs
    → text (
        read_ins ins
        ∷ each_from convert_in 0 ins
        ∷ each_from (declare_out (length outs)) 0 outs
        ∷ each_from declare_out_object 0 outs
        ∷ call_method name ins outs
        ∷ tab
        ∷ tab
        ∷ codes "::DBus::ReturnMessage reply(call);\n"
        ∷ write_outs outs
        ∷ tab
        ∷ tab
        ∷ codes "return reply;\n"
        ∷ [])
      ≡ show_lines (adaptor_lines name ts us)
unfolding adaptor_lines show_lines show_line show
body_shown name ts us ins outs h k =
    let tail = (give_reply ∷ []) ∷ [] in
    let reply = (new_reply ∷ []) ∷ (replying (numbered (codes "argout") 0 us) ++ tail) in
    let call = calling name (numbered (codes "argin") 0 ts) us (numbered (codes "argout") 0 us) in
    rw
      (
        (conversions_none 0 ts ins h).0,
        (conversions_none 0 us outs k).1,
        sym (read_ins-shown ts ins (call ++ reply) h),
        sym (call_method-shown name ts us ins outs reply h k),
        sym (write_outs-shown us outs tail k),
      )
      (simp (append_assoc, append-nil) refl)

-- The unmarshaler of a method has the body of its statements.
pub unmarshaler-shown :
    (method : Node) (ts us : List Tree)
    → AllPlain ts (in_of method)
    → AllPlain us (out_of method)
    → unmarshaler method
      ≡ text (
          tab
          ∷ codes "::DBus::Message "
          ∷ stub_name (name_of method)
          ∷ codes "(const ::DBus::CallMessage &call)\n"
          ∷ tab
          ∷ codes "{\n"
          ∷ show_lines (adaptor_lines (name_of method) ts us)
          ∷ tab
          ∷ codes "}\n"
          ∷ [])
unfolding unmarshaler
unmarshaler-shown method ts us h k =
    rw (unmarshaler, sym (body_shown (name_of method) ts us (in_of method) (out_of method) h k))
      (simp (append_assoc, append-nil) refl)
