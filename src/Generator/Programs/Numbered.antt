-- ===== src/Generator/Programs/Numbered.antt =====
-- The names that tools/generate_adaptor.cpp numbers differ.
use dbus_cplusplus.Common.{
  ℕ, suc, ◌+◌, ◌<◌, ◌≡◌, refl, ap, inl, inr, List, [], ◌∷◌, ◌++◌, length, codes, arith, Bool-cases,
}
use dbus_cplusplus.Paths.{same}
use dbus_cplusplus.Paths.Order.{same_eq}
use dbus_cplusplus.Xml.{Bytes}
use dbus_cplusplus.Signature.Types.{Tree}
use dbus_cplusplus.Marshal.{Libdbus}
use dbus_cplusplus.Generator.Text.{decimal}
use dbus_cplusplus.Generator.Decimal.{numbered_differ}
use dbus_cplusplus.Generator.Programs.Meaning.{Value}
use dbus_cplusplus.Generator.Programs.Runs.{Absent, Distinct, types}
use dbus_cplusplus.Generator.Programs.Bodies.{numbered}

numbered-Absent :
    (prefix : Bytes) (i j : ℕ) (ts : List Tree)
    → i < j
    → Absent (prefix ++ decimal (i + 1)) (numbered prefix j ts)
unfolding numbered
numbered-Absent prefix i j [] h = tt
numbered-Absent prefix i j (t ∷ ts) h = (
  elim (Bool-cases (same (prefix ++ decimal (j + 1)) (prefix ++ decimal (i + 1)))) [
    | inl e ↦
        let eq = numbered_differ prefix (j + 1) (i + 1) (same_eq _ _ e) in
        absurd (omega (arith, eq, h))
    | inr e ↦ e
  ],
  numbered-Absent prefix i (suc j) ts (omega (arith, h)),
)

pub numbered-Distinct : (prefix : Bytes) (i : ℕ) (ts : List Tree) → Distinct (numbered prefix i ts)
unfolding numbered
numbered-Distinct prefix i [] = tt
numbered-Distinct prefix i (t ∷ ts) =
    (numbered-Absent prefix i (suc i) ts (omega arith), numbered-Distinct prefix (suc i) ts)

-- No variable that goes out is named as one that goes in.
pub argin-Absent :
    (n j : ℕ) (us : List Tree)
    → Absent (codes "argin" ++ decimal n) (numbered (codes "argout") j us)
unfolding numbered same
argin-Absent n j [] = tt
argin-Absent n j (u ∷ us) = (refl, argin-Absent n (suc j) us)

module _ (lib : Libdbus) where
  pub length-types : (vs : List (Value lib)) → length (types lib vs) ≡ length vs
  length-types [] = refl
  length-types (v ∷ vs) = ap suc (length-types vs)
