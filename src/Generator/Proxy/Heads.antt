-- ===== src/Generator/Proxy/Heads.antt =====
-- The heads of a proxy's functions (tools/generate_proxy.cpp): the parameters of its methods and of
-- the handlers of its signals.
use dbus_cplusplus.Common.{
  ℕ, suc, ◌+◌, ◌≡◌, refl, sym, ap, ap₂, ◌∙◌, Bool, true, false, not, ◌||◌, List, [], ◌∷◌, ◌++◌,
  append_assoc, append-nil, length, ltb, ◌==◌, if◌then◌else◌, codes, arith, lt→ltb,
}
use dbus_cplusplus.Xml.{Bytes, Node, get}
use dbus_cplusplus.Generator.{put, object_for, put_comma}
use dbus_cplusplus.Generator.Text.{tab, text}
use dbus_cplusplus.Generator.Join.{comma_after, join, separated, separated-join, separated-more}
use dbus_cplusplus.Generator.Adaptor.Parameters.{
  named_type, includes_of, included, output, put_type_lem, returned, in_of, out_of, or_false,
  or_true,
}
use dbus_cplusplus.Generator.Proxy.Parameters.{
  arg_name, put_in_parameter, put_in_parameters, reference, put_out_parameter, put_out_parameters,
  put_signature,
}

-- The texts of the parameters: in C++ a space after the & is the same as none.
unfoldable pub in_parameters : ℕ → List Node → List Bytes
in_parameters i [] = []
in_parameters i (arg ∷ args) =
    text (
      codes "const "
      ∷ named_type (object_for arg) arg
      ∷ codes "& "
      ∷ arg_name (codes "argin") i arg
      ∷ [])
    ∷ in_parameters (suc i) args

unfoldable pub out_parameters : ℕ → List Node → List Bytes
unfolding reference
out_parameters j [] = []
out_parameters j (arg ∷ args) =
    text (
      named_type (object_for arg) arg
      ∷ reference (object_for arg)
      ∷ codes " "
      ∷ arg_name (codes "argout") j arg
      ∷ [])
    ∷ out_parameters (suc j) args

put_comma_lem :
    (b : Bool) (body : Bytes) (includes : List Bytes)
    → put_comma b (output body includes) ≡ output (body ++ (if b then codes ", " else [])) includes
put_comma_lem true body includes = refl
put_comma_lem false body includes = ap (λ t. output t includes) (sym (append-nil body))

put_in_parameters-separated :
    (more : Bool) (size i : ℕ) (args : List Node) (body : Bytes) (includes : List Bytes)
    → put_in_parameters more size i args (output body includes)
      ≡ output
          (body ++ separated (λ k. not (k + 1 == size) || more) i (in_parameters i args))
          (includes ++ includes_of args)
unfolding put_in_parameters put_in_parameter in_parameters includes_of separated
put_in_parameters-separated more size i [] body includes =
    ap₂ output (sym (append-nil body)) (sym (append-nil includes))
put_in_parameters-separated more size i (arg ∷ args) body includes =
    let typed = put_type_lem (object_for arg) arg (body ++ codes "const ") includes in
    ap
      (λ out. put_in_parameters more size (suc i) args (
        put_comma (not (i + 1 == size) || more)
          (put (codes "& " ++ arg_name (codes "argin") i arg) out)))
      typed
    ∙ (ap (put_in_parameters more size (suc i) args)
          (put_comma_lem (not (i + 1 == size) || more) _ _)
        ∙ (put_in_parameters-separated more size (suc i) args _ _
            ∙ ap₂ output (simp (append_assoc, append-nil) refl) (append_assoc includes _ _)))

put_out_parameters-separated :
    (size j : ℕ) (args : List Node) (body : Bytes) (includes : List Bytes)
    → put_out_parameters size j args (output body includes)
      ≡ output
          (body ++ separated (λ k. not (k + 1 == size)) j (out_parameters j args))
          (includes ++ includes_of args)
unfolding put_out_parameters put_out_parameter out_parameters includes_of separated
put_out_parameters-separated size j [] body includes =
    ap₂ output (sym (append-nil body)) (sym (append-nil includes))
put_out_parameters-separated size j (arg ∷ args) body includes =
    let typed = put_type_lem (object_for arg) arg body includes in
    ap
      (λ out. put_out_parameters size (suc j) args (
        put_comma (not (j + 1 == size)) (
          put (text (reference (object_for arg) ∷ codes " " ∷ arg_name (codes "argout") j arg ∷ []))
            out)))
      typed
    ∙ (ap (put_out_parameters size (suc j) args) (put_comma_lem (not (j + 1 == size)) _ _)
        ∙ (put_out_parameters-separated size (suc j) args _ _
            ∙ ap₂ output (simp (append_assoc, append-nil) refl) (append_assoc includes _ _)))

length-in_parameters : (i : ℕ) (args : List Node) → length (in_parameters i args) ≡ length args
unfolding in_parameters
length-in_parameters i [] = refl
length-in_parameters i (arg ∷ args) = ap suc (length-in_parameters (suc i) args)

length-out_parameters : (j : ℕ) (args : List Node) → length (out_parameters j args) ≡ length args
unfolding out_parameters
length-out_parameters j [] = refl
length-out_parameters j (arg ∷ args) = ap suc (length-out_parameters (suc j) args)

-- The parameters: those that go in, and those that go out where they are several.
unfoldable pub proxy_parameters : List Node → List Node → List Bytes
unfolding in_parameters
proxy_parameters args_in [] = in_parameters 0 args_in
proxy_parameters args_in (out ∷ []) = in_parameters 0 args_in
proxy_parameters args_in (out ∷ other ∷ outs) =
    in_parameters 0 args_in ++ out_parameters 0 (out ∷ other ∷ outs)

pub put_in_parameters-join :
    (args : List Node) (body : Bytes) (includes : List Bytes)
    → put_in_parameters false (length args) 0 args (output body includes)
      ≡ output (body ++ join (in_parameters 0 args)) (includes ++ includes_of args)
put_in_parameters-join args body includes =
    put_in_parameters-separated false (length args) 0 args body includes
    ∙ ap (λ t. output (body ++ t) (includes ++ includes_of args))
        (separated-join (length args) 0 _ (in_parameters 0 args)
          (λ k. or_false (not (k + 1 == length args)) ∙ comma_after k (length args))
          (omega (arith, length-in_parameters 0 args)))

both_lists :
    (args_in args_out : List Node) (body : Bytes) (includes : List Bytes)
    → (let more = ltb 1 (length args_out) in
        let ins = put_in_parameters more (length args_in) 0 args_in (output body includes) in
        if more then put_out_parameters (length args_out) 0 args_out ins else ins)
      ≡ output
          (body ++ join (proxy_parameters args_in args_out))
          (includes ++ included args_in args_out)
unfolding proxy_parameters included out_parameters
both_lists args_in [] body includes = put_in_parameters-join args_in body includes
both_lists args_in (o ∷ []) body includes = put_in_parameters-join args_in body includes
both_lists args_in (o ∷ p ∷ outs) body includes =
    let args_out = o ∷ p ∷ outs in
    let size = length args_out in
    let several : ltb 1 size ≡ true = lt→ltb 1 size (omega arith) in
    let joined =
      separated-join size 0 _ (out_parameters 0 args_out) (λ k. comma_after k size)
        (omega (arith, length-out_parameters 0 args_out)) in
    rw several (
      ap (put_out_parameters size 0 args_out)
        (put_in_parameters-separated true (length args_in) 0 args_in body includes)
      ∙ (put_out_parameters-separated size 0 args_out _ _
          ∙ ap₂ output
              (append_assoc body _ _
                ∙ ap (λ t. body ++ t)
                    (ap
                        (λ t.
                          separated (λ k. not (k + 1 == length args_in) || true) 0
                            (in_parameters 0 args_in)
                          ++ t)
                        joined
                      ∙ separated-more 0 _ (in_parameters 0 args_in) (out_parameters 1 (p ∷ outs)) _
                          (λ k. or_true (not (k + 1 == length args_in)))))
              (append_assoc includes _ _)))

-- The function of a proxy for a method has the type that the adaptor's has, the method's name, and
-- its parameters with a comma and a space between each two and nowhere else, by their names or a
-- numbered default: those that go in, and then those that go out if they are several. The objects
-- among their types are stored for the includes, in that order, and they are those that the adaptor
-- stores.
pub put_signature-shown :
    (method : Node) (body : Bytes) (includes : List Bytes)
    → put_signature method
        (in_of method)
        (out_of method)
        (record { body = body; includes = includes })
      ≡ record {
        body =
            body
            ++ text (
                codes "    "
                ∷ returned method
                ∷ get (codes "name") method
                ∷ codes "("
                ∷ join (proxy_parameters (in_of method) (out_of method))
                ∷ codes ")\n"
                ∷ []);
        includes = includes ++ included (in_of method) (out_of method);
      }
unfolding put_signature tab
put_signature-shown method body includes =
    ap (put (codes ")\n")) (both_lists (in_of method) (out_of method) _ includes)
    ∙ ap (λ t. output t (includes ++ included (in_of method) (out_of method)))
        (simp (append_assoc, append-nil) refl)
