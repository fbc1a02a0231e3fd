-- ===== src/Generator/Programs/Calls.antt =====
-- The bodies of a proxy's method and of an adaptor's unmarshaler, as statements
-- (tools/generate_proxy.cpp, tools/generate_adaptor.cpp).
use dbus_cplusplus.Common.{
  ◌≡◌, refl, sym, ap, ◌∙◌, false, List, [], ◌∷◌, ◌++◌, append-nil, append_assoc, codes,
}
use dbus_cplusplus.Xml.{Bytes, Node, get, children_named}
use dbus_cplusplus.Signature.Types.{Tree}
use dbus_cplusplus.Generator.Text.{tab, text}
use dbus_cplusplus.Generator.Programs.{
  Statement, new_call, new_reply, get_reader, get_writer, set_member, invoke_method, declare,
  extract, call_with, assign_call, give_back, give_reply, show, show_line, show_lines,
}
use dbus_cplusplus.Generator.Programs.Runs.{inserts, extracts, declares, declare_extracts}
use dbus_cplusplus.Generator.Proxy.Parameters.{no_reply}
use dbus_cplusplus.Generator.Proxy.Bodies.{
  write_arguments, invoke, return_value, read_values, method_body,
}
use dbus_cplusplus.Generator.Programs.Bodies.{
  AllPlain, names, numbered, type_of-Plain, write_argument-shown, read_value-shown,
}

abbrev pub name_of : Node → Bytes
name_of method = get (codes "name") method

-- What a proxy's method does: the names are those of its arguments.
unfoldable pub writing : List Bytes → List (List Statement)
writing [] = []
writing (x ∷ xs) = (get_writer (codes "call") ∷ []) ∷ [] ∷ inserts (x ∷ xs)

unfoldable pub receiving : List Tree → List Bytes → List (List Statement)
receiving [] ys = []
receiving (t ∷ []) ys =
    (get_reader (codes "ret") ∷ [])
    ∷ []
    ∷ (declare t (codes "argout") ∷ [])
    ∷ (extract (codes "argout") ∷ [])
    ∷ (give_back (codes "argout") ∷ [])
    ∷ []
receiving (t ∷ u ∷ ts) ys = (get_reader (codes "ret") ∷ []) ∷ [] ∷ extracts ys

unfoldable pub proxy_lines : Bytes → List Bytes → List Tree → List Bytes → List (List Statement)
unfolding writing receiving
proxy_lines name xs us ys =
    (new_call ∷ [])
    ∷ (writing xs ++ (set_member name ∷ []) ∷ (invoke_method ∷ []) ∷ receiving us ys)

-- What an adaptor's function does.
unfoldable pub reading : List Tree → List Bytes → List (List Statement)
reading [] xs = []
reading (t ∷ ts) xs = (get_reader (codes "call") ∷ []) ∷ [] ∷ declare_extracts (t ∷ ts) xs

unfoldable pub calling : Bytes → List Bytes → List Tree → List Bytes → List (List Statement)
calling name xs [] ys = (call_with name xs [] ∷ []) ∷ []
calling name xs (u ∷ []) ys = (assign_call u (codes "argout1") name xs ∷ []) ∷ []
calling name xs (u ∷ v ∷ us) ys = declares (u ∷ v ∷ us) ys ++ (call_with name xs ys ∷ []) ∷ []

unfoldable pub replying : List Bytes → List (List Statement)
replying [] = []
replying (y ∷ ys) = (get_writer (codes "reply") ∷ []) ∷ inserts (y ∷ ys)

unfoldable pub adaptor_lines : Bytes → List Tree → List Tree → List (List Statement)
unfolding reading calling replying
adaptor_lines name ts us =
    let xs = numbered (codes "argin") 0 ts in
    let ys = numbered (codes "argout") 0 us in
    reading ts xs
    ++ (calling name xs us ys ++ (new_reply ∷ []) ∷ (replying ys ++ (give_reply ∷ []) ∷ []))

write_arguments-shown :
    (ts : List Tree) (args : List Node) (ls : List (List Statement))
    → AllPlain ts args
    → write_arguments args ++ show_lines ls
      ≡ show_lines (writing (names (codes "argin") 0 args) ++ ls)
unfolding write_arguments writing show_lines show_line show names
write_arguments-shown [] [] ls h = refl
write_arguments-shown [] (arg ∷ args) ls h = absurd h
write_arguments-shown (t ∷ ts) [] ls h = absurd h
write_arguments-shown (t ∷ ts) (arg ∷ args) ls h =
    rw (sym (write_argument-shown 0 (t ∷ ts) (arg ∷ args) ls h))
      (simp (append_assoc, append-nil) refl)

read_values-shown :
    (us : List Tree) (args : List Node)
    → AllPlain us args
    → read_values args ≡ show_lines (receiving us (names (codes "argout") 0 args))
unfolding read_values receiving show_lines show_line show return_value
read_values-shown [] [] h = refl
read_values-shown [] (arg ∷ args) h = absurd h
read_values-shown (u ∷ us) [] h = absurd h
read_values-shown (u ∷ v ∷ us) (arg ∷ []) (p, h) = absurd h
read_values-shown (u ∷ []) (arg ∷ other ∷ args) (p, h) = absurd h
read_values-shown (u ∷ []) (arg ∷ []) ((o, e), h) =
    rw (return_value, o, type_of-Plain u arg (o, e)) (simp (append_assoc, append-nil) refl)
read_values-shown (u ∷ v ∷ us) (arg ∷ other ∷ args) h =
    let rest =
      ap show_lines (sym (append-nil (extracts (names (codes "argout") 0 (arg ∷ other ∷ args)))))
      ∙ sym (read_value-shown 0 (u ∷ v ∷ us) (arg ∷ other ∷ args) [] h) in
    rw rest (simp (append_assoc, append-nil) refl)

-- The body that a proxy's method has is that of its statements, where a reply is wanted.
pub method_body-shown :
    (method : Node) (ts us : List Tree) (args_in args_out : List Node)
    → AllPlain ts args_in
    → AllPlain us args_out
    → no_reply (children_named (codes "annotation") method) ≡ false
    → method_body method args_in args_out
      ≡ text (
          tab
          ∷ codes "{\n"
          ∷ show_lines (
              proxy_lines
                (name_of method)
                (names (codes "argin") 0 args_in)
                us
                (names (codes "argout") 0 args_out))
          ∷ tab
          ∷ codes "}\n\n"
          ∷ [])
unfolding method_body proxy_lines show_lines show_line show invoke
method_body-shown method ts us args_in args_out h k wanted =
    let after =
      (set_member (name_of method) ∷ [])
      ∷ (invoke_method ∷ [])
      ∷ receiving us (names (codes "argout") 0 args_out) in
    rw
      (
        method_body,
        wanted,
        invoke,
        read_values-shown us args_out k,
        sym (write_arguments-shown ts args_in after h),
      )
      (simp (append_assoc, append-nil) refl)
