-- ===== src/Generator/Programs/Bodies.antt =====
-- The bodies of functions that tools/generate_proxy.cpp and tools/generate_adaptor.cpp write, as
-- statements, where no argument has an annotation for an object.
use dbus_cplusplus.Common.{
  ℕ, suc, ◌+◌, ◌≡◌, refl, sym, ap, Bool, false, not, ◌||◌, List, [], ◌∷◌, ◌++◌, append-nil,
  append_assoc, length, ◌==◌, codes,
}
use dbus_cplusplus.Xml.{Bytes, Node, get}
use dbus_cplusplus.Signature.Types.{Tree, cpp_type, cpp_types, last}
use dbus_cplusplus.Marshal.Types.{sig, sigs}
use dbus_cplusplus.Marshal.Signatures.{signature_to_type-sigs}
use dbus_cplusplus.Generator.{type_of, object_for}
use dbus_cplusplus.Generator.Text.{each_from, decimal}
use dbus_cplusplus.Generator.Join.{separated}
use dbus_cplusplus.Generator.Programs.{Statement, show, show_line, show_lines}
use dbus_cplusplus.Generator.Programs.Runs.{inserts, extracts, declares, declare_extracts}
use dbus_cplusplus.Generator.Proxy.Parameters.{arg_name}
use dbus_cplusplus.Generator.Proxy.Bodies.{write_argument, read_value}
use dbus_cplusplus.Generator.Adaptor.Unmarshalers.{
  read_in, convert_in, declare_out, declare_out_object, variable, call_in, call_out, convert_out,
  write_out,
}

-- An argument of a type, and no object
abbrev pub Plain : Tree → Node → Type 0
Plain t arg = (object_for arg ≡ []) × (get (codes "type") arg ≡ sig t)

abbrev pub AllPlain : List Tree → List Node → Type 0
AllPlain [] [] = Unit {0}
AllPlain [] (arg ∷ args) = ⊥
AllPlain (t ∷ ts) [] = ⊥
AllPlain (t ∷ ts) (arg ∷ args) = Plain t arg × AllPlain ts args

-- The names of a proxy's arguments, and those that an adaptor numbers
unfoldable pub names : Bytes → ℕ → List Node → List Bytes
names default i [] = []
names default i (arg ∷ args) = arg_name default i arg ∷ names default (suc i) args

unfoldable pub numbered : Bytes → ℕ → List Tree → List Bytes
numbered prefix i [] = []
numbered prefix i (t ∷ ts) = (prefix ++ decimal (i + 1)) ∷ numbered prefix (suc i) ts

pub type_of-Plain :
    (t : Tree) (arg : Node) → Plain t arg → type_of (get (codes "type") arg) ≡ codes (cpp_type t)
unfolding type_of sigs cpp_types
type_of-Plain t arg (o, e) = rw (type_of, e, signature_to_type-sigs (last t)) refl

pub write_argument-shown :
    (i : ℕ) (ts : List Tree) (args : List Node) (ls : List (List Statement))
    → AllPlain ts args
    → each_from write_argument i args ++ show_lines ls
      ≡ show_lines (inserts (names (codes "argin") i args) ++ ls)
unfolding write_argument names inserts show_lines show_line show
write_argument-shown i [] [] ls h = refl
write_argument-shown i [] (arg ∷ args) ls h = absurd h
write_argument-shown i (t ∷ ts) [] ls h = absurd h
write_argument-shown i (t ∷ ts) (arg ∷ args) ls ((o, e), h) =
    rw (write_argument, o, sym (write_argument-shown (suc i) ts args ls h))
      (simp (append_assoc, append-nil) refl)

pub read_in-shown :
    (i : ℕ) (ts : List Tree) (args : List Node) (ls : List (List Statement))
    → AllPlain ts args
    → each_from read_in i args ++ show_lines ls
      ≡ show_lines (declare_extracts ts (numbered (codes "argin") i ts) ++ ls)
unfolding read_in numbered declare_extracts show_lines show_line show
read_in-shown i [] [] ls h = refl
read_in-shown i [] (arg ∷ args) ls h = absurd h
read_in-shown i (t ∷ ts) [] ls h = absurd h
read_in-shown i (t ∷ ts) (arg ∷ args) ls (p, h) =
    rw (read_in, type_of-Plain t arg p, sym (read_in-shown (suc i) ts args ls h))
      (simp (append_assoc, append-nil) refl)

pub read_value-shown :
    (i : ℕ) (ts : List Tree) (args : List Node) (ls : List (List Statement))
    → AllPlain ts args
    → each_from read_value i args ++ show_lines ls
      ≡ show_lines (extracts (names (codes "argout") i args) ++ ls)
unfolding read_value names extracts show_lines show_line show
read_value-shown i [] [] ls h = refl
read_value-shown i [] (arg ∷ args) ls h = absurd h
read_value-shown i (t ∷ ts) [] ls h = absurd h
read_value-shown i (t ∷ ts) (arg ∷ args) ls ((o, e), h) =
    rw (read_value, o, sym (read_value-shown (suc i) ts args ls h))
      (simp (append_assoc, append-nil) refl)

-- Several variables are declared, each on a line of its own.
pub declare_out-shown :
    (size i : ℕ) (ts : List Tree) (args : List Node) (ls : List (List Statement))
    → (size == 1) ≡ false
    → AllPlain ts args
    → each_from (declare_out size) i args ++ show_lines ls
      ≡ show_lines (declares ts (numbered (codes "argout") i ts) ++ ls)
unfolding declare_out numbered declares show_lines show_line show
declare_out-shown size i [] [] ls several h = refl
declare_out-shown size i [] (arg ∷ args) ls several h = absurd h
declare_out-shown size i (t ∷ ts) [] ls several h = absurd h
declare_out-shown size i (t ∷ ts) (arg ∷ args) ls several (p, h) =
    rw
      (
        declare_out,
        type_of-Plain t arg p,
        several,
        sym (declare_out-shown size (suc i) ts args ls several h),
      )
      (simp (append_assoc, append-nil) refl)

pub write_out-shown :
    (i : ℕ) (ts : List Tree) (args : List Node) (ls : List (List Statement))
    → AllPlain ts args
    → each_from write_out i args ++ show_lines ls
      ≡ show_lines (inserts (numbered (codes "argout") i ts) ++ ls)
unfolding write_out numbered inserts show_lines show_line show
write_out-shown i [] [] ls h = refl
write_out-shown i [] (arg ∷ args) ls h = absurd h
write_out-shown i (t ∷ ts) [] ls h = absurd h
write_out-shown i (t ∷ ts) (arg ∷ args) ls (p, h) =
    rw (write_out, sym (write_out-shown (suc i) ts args ls h))
      (simp (append_assoc, append-nil) refl)

-- Nothing is converted.
pub conversions_none :
    (i : ℕ) (ts : List Tree) (args : List Node)
    → AllPlain ts args
    → (each_from convert_in i args ≡ [])
      × (each_from declare_out_object i args ≡ [])
      × (each_from convert_out i args ≡ [])
unfolding convert_in declare_out_object convert_out
conversions_none i [] [] h = (refl, refl, refl)
conversions_none i [] (arg ∷ args) h = absurd h
conversions_none i (t ∷ ts) [] h = absurd h
conversions_none i (t ∷ ts) (arg ∷ args) ((o, e), h) =
    let (ins, outs, replies) = conversions_none (suc i) ts args h in
    (
      rw (convert_in, o, ins) refl,
      rw (declare_out_object, o, outs) refl,
      rw (convert_out, o, replies) refl,
    )

pub length-AllPlain :
    (ts : List Tree) (args : List Node) → AllPlain ts args → length args ≡ length ts
length-AllPlain [] [] h = refl
length-AllPlain [] (arg ∷ args) h = absurd h
length-AllPlain (t ∷ ts) [] h = absurd h
length-AllPlain (t ∷ ts) (arg ∷ args) (p, h) = ap suc (length-AllPlain ts args h)

pub length-numbered :
    (prefix : Bytes) (i : ℕ) (ts : List Tree) → length (numbered prefix i ts) ≡ length ts
unfolding numbered
length-numbered prefix i [] = refl
length-numbered prefix i (t ∷ ts) = ap suc (length-numbered prefix (suc i) ts)

pub call_in-separated :
    (more : Bool) (size i : ℕ) (ts : List Tree) (args : List Node)
    → AllPlain ts args
    → each_from (call_in more size) i args
      ≡ separated (λ k. not (k + 1 == size) || more) i (numbered (codes "argin") i ts)
unfolding call_in variable numbered separated
call_in-separated more size i [] [] h = refl
call_in-separated more size i [] (arg ∷ args) h = absurd h
call_in-separated more size i (t ∷ ts) [] h = absurd h
call_in-separated more size i (t ∷ ts) (arg ∷ args) ((o, e), h) =
    rw (call_in, variable, o, call_in-separated more size (suc i) ts args h)
      (simp append_assoc refl)

pub call_out-separated :
    (size i : ℕ) (ts : List Tree) (args : List Node)
    → AllPlain ts args
    → each_from (call_out size) i args
      ≡ separated (λ k. not (k + 1 == size)) i (numbered (codes "argout") i ts)
unfolding call_out variable numbered separated
call_out-separated size i [] [] h = refl
call_out-separated size i [] (arg ∷ args) h = absurd h
call_out-separated size i (t ∷ ts) [] h = absurd h
call_out-separated size i (t ∷ ts) (arg ∷ args) ((o, e), h) =
    rw (call_out, variable, o, call_out-separated size (suc i) ts args h) (simp append_assoc refl)
