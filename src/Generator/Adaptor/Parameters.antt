-- ===== src/Generator/Adaptor/Parameters.antt =====
-- The parameter list of a method's declaration (tools/generate_adaptor.cpp).
use dbus_cplusplus.Common.{
  ℕ, suc, ◌≡◌, refl, sym, ap, ap₂, ◌∙◌, Bool, true, false, not, ◌||◌, List, [], ◌∷◌, ◌++◌,
  append_assoc, append-nil, length, ltb, ◌==◌, if◌then◌else◌, codes, arith, lt→ltb,
}
use dbus_cplusplus.Xml.{Bytes, Node, get, children_named, all_named, select}
use dbus_cplusplus.Generator.Join.{join, separated, separated-join, separated-more}
use dbus_cplusplus.Generator.{
  Output, put, type_of, object_of, object_for, put_type, put_parameter, put_comma, put_in, put_out,
  return_type, declare_method,
}

unfoldable pub named_type : Bytes → Node → Bytes
named_type [] arg = type_of (get (codes "type") arg)
named_type (c ∷ object) arg = c ∷ object

unfoldable pub parameter : Bytes → Node → Bytes
unfolding named_type object_for
parameter const arg =
    const ++ (named_type (object_for arg) arg ++ (codes "& " ++ get (codes "name") arg))

unfoldable pub parameters : Bytes → List Node → List Bytes
parameters const [] = []
parameters const (arg ∷ args) = parameter const arg ∷ parameters const args

unfoldable pub include_of : Bytes → List Bytes
include_of [] = []
include_of (c ∷ object) = (c ∷ object) ∷ []

unfoldable pub includes_of : List Node → List Bytes
unfolding include_of object_for
includes_of [] = []
includes_of (arg ∷ args) = include_of (object_for arg) ++ includes_of args

abbrev pub output : Bytes → List Bytes → Output
output body includes = record { body = body; includes = includes }

pub put_type_lem :
    (object : Bytes) (arg : Node) (body : Bytes) (includes : List Bytes)
    → put_type object arg (output body includes)
      ≡ output (body ++ named_type object arg) (includes ++ include_of object)
unfolding put_type named_type include_of
put_type_lem [] arg body includes = ap (output _) (sym (append-nil includes))
put_type_lem (c ∷ object) arg body includes = refl

put_parameter_lem :
    (const : Bytes) (arg : Node) (body : Bytes) (includes : List Bytes)
    → put_parameter const arg (output body includes)
      ≡ output (body ++ parameter const arg) (includes ++ include_of (object_for arg))
unfolding put_parameter parameter object_for
put_parameter_lem const arg body includes =
    ap (λ out. put (get (codes "name") arg) (put (codes "& ") out))
      (put_type_lem (object_for arg) arg (body ++ const) includes)
    ∙ ap (λ t. output t (includes ++ include_of (object_for arg))) (simp (append_assoc) refl)

step_lem :
    (b : Bool) (const : Bytes) (arg : Node) (body : Bytes) (includes : List Bytes)
    → put_comma b (put_parameter const arg (output body includes))
      ≡ output
          ((body ++ parameter const arg) ++ (if b then codes ", " else []))
          (includes ++ include_of (object_for arg))
step_lem true const arg body includes =
    ap (put (codes ", ")) (put_parameter_lem const arg body includes)
step_lem false const arg body includes =
    put_parameter_lem const arg body includes
    ∙ ap (λ t. output t (includes ++ include_of (object_for arg)))
        (sym (append-nil (body ++ parameter const arg)))

-- What both loops add.
put_in-separated :
    (more : Bool) (size i : ℕ) (args : List Node) (body : Bytes) (includes : List Bytes)
    → put_in more size i args (output body includes)
      ≡ output
          (body
            ++ separated (λ k. not (suc k == size) || more) i (parameters (codes "const ") args))
          (includes ++ includes_of args)
unfolding put_in parameters includes_of separated
put_in-separated more size i [] body includes =
    ap₂ output (sym (append-nil body)) (sym (append-nil includes))
put_in-separated more size i (arg ∷ args) body includes =
    ap (put_in more size (suc i) args)
      (step_lem (not (suc i == size) || more) (codes "const ") arg body includes)
    ∙ (put_in-separated more size (suc i) args _ _
        ∙ ap₂ output (simp (append_assoc) refl) (append_assoc includes _ _))

put_out-separated :
    (size i : ℕ) (args : List Node) (body : Bytes) (includes : List Bytes)
    → put_out size i args (output body includes)
      ≡ output
          (body ++ separated (λ k. not (suc k == size)) i (parameters [] args))
          (includes ++ includes_of args)
unfolding put_out parameters includes_of separated
put_out-separated size i [] body includes =
    ap₂ output (sym (append-nil body)) (sym (append-nil includes))
put_out-separated size i (arg ∷ args) body includes =
    ap (put_out size (suc i) args) (step_lem (not (suc i == size)) [] arg body includes)
    ∙ (put_out-separated size (suc i) args _ _
        ∙ ap₂ output (simp (append_assoc) refl) (append_assoc includes _ _))

-- The parameters: the arguments that go in, and those that go out where they are several.
unfoldable pub shown : List Node → List Node → List Bytes
unfolding parameters
shown args_in [] = parameters (codes "const ") args_in
shown args_in (out ∷ []) = parameters (codes "const ") args_in
shown args_in (out ∷ other ∷ outs) =
    parameters (codes "const ") args_in ++ parameters [] (out ∷ other ∷ outs)

unfoldable pub included : List Node → List Node → List Bytes
unfolding includes_of
included args_in [] = includes_of args_in
included args_in (out ∷ []) = includes_of args_in
included args_in (out ∷ other ∷ outs) = includes_of args_in ++ includes_of (out ∷ other ∷ outs)

length-parameters :
    (const : Bytes) (args : List Node) → length (parameters const args) ≡ length args
unfolding parameters
length-parameters const [] = refl
length-parameters const (arg ∷ args) = ap suc (length-parameters const args)

pub or_false : (b : Bool) → (b || false) ≡ b
or_false true = refl
or_false false = refl

pub or_true : (b : Bool) → (b || true) ≡ true
or_true true = refl
or_true false = refl

put_in-join :
    (args : List Node) (body : Bytes) (includes : List Bytes)
    → put_in false (length args) 0 args (output body includes)
      ≡ output (body ++ join (parameters (codes "const ") args)) (includes ++ includes_of args)
put_in-join args body includes =
    put_in-separated false (length args) 0 args body includes
    ∙ ap (λ t. output (body ++ t) (includes ++ includes_of args))
        (separated-join (length args) 0 _ (parameters (codes "const ") args)
          (λ k. or_false (not (suc k == length args)))
          (let same = length-parameters (codes "const ") args in omega arith))

both_lists :
    (args_in args_out : List Node) (body : Bytes) (includes : List Bytes)
    → (if ltb 1 (length args_out)
        then put_out
            (length args_out)
            0
            args_out
            (put_in (ltb 1 (length args_out)) (length args_in) 0 args_in (output body includes))
        else put_in (ltb 1 (length args_out)) (length args_in) 0 args_in (output body includes))
      ≡ output (body ++ join (shown args_in args_out)) (includes ++ included args_in args_out)
unfolding shown included parameters
both_lists args_in [] body includes = put_in-join args_in body includes
both_lists args_in (o ∷ []) body includes = put_in-join args_in body includes
both_lists args_in (o ∷ p ∷ outs) body includes =
    let size = length (o ∷ p ∷ outs) in
    let ins = parameters (codes "const ") args_in in
    let several : ltb 1 size ≡ true = lt→ltb 1 size (omega arith) in
    rw several (
      ap (put_out size 0 (o ∷ p ∷ outs))
        (put_in-separated true (length args_in) 0 args_in body includes)
      ∙ (put_out-separated size 0 (o ∷ p ∷ outs) _ _
          ∙ ap₂ output
              (append_assoc body _ _
                ∙ ap (λ t. body ++ t)
                    (ap (λ t. separated (λ k. not (suc k == length args_in) || true) 0 ins ++ t)
                        (separated-join size 0 _ (parameters [] (o ∷ p ∷ outs)) (λ k. refl)
                          (let same = length-parameters [] (o ∷ p ∷ outs) in omega arith))
                      ∙ separated-more 0 _ ins (parameters [] (p ∷ outs)) (parameter [] o)
                          (λ k. or_true (not (suc k == length args_in)))))
              (append_assoc includes _ _)))

abbrev pub in_of : Node → List Node
in_of method = select (codes "direction") (codes "in") (children_named (codes "arg") method)

abbrev pub out_of : Node → List Node
out_of method = select (codes "direction") (codes "out") (children_named (codes "arg") method)

abbrev pub returned : Node → Bytes
returned method =
    return_type (object_of (all_named (codes "annotation") (children_named (codes "arg") method)))
      (out_of method)

-- A method is declared with the type that it returns, its name, and its parameters with a comma and
-- a space between each two and nowhere else: those that go in, and then those that go out if they
-- are several. The objects among their types are stored for the includes, in that order.
pub declare_method-shown :
    (method : Node) (body : Bytes) (includes : List Bytes)
    → declare_method method (record { body = body; includes = includes }) ≡ record {
      body =
          body
          ++ (codes "    virtual "
              ++ (returned method
                  ++ (get (codes "name") method
                      ++ (codes "("
                          ++ (join (shown (in_of method) (out_of method)) ++ codes ") = 0;\n")))));
      includes = includes ++ included (in_of method) (out_of method);
    }
unfolding declare_method
declare_method-shown method body includes =
    ap (put (codes ") = 0;\n")) (both_lists (in_of method) (out_of method) _ includes)
    ∙ ap (λ t. output t (includes ++ included (in_of method) (out_of method)))
        (simp (append_assoc) refl)
