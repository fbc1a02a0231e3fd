-- ===== src/Generator/Programs/Runs.antt =====
-- The variables and the values of the arguments that tools/generate_adaptor.cpp and
-- tools/generate_proxy.cpp write statements for.
use dbus_cplusplus.Common.{
  ℕ, ◌≡◌, refl, ◌∙◌, false, List, [], ◌∷◌, Option, none, some, length, arith, inl, inr, Bool-cases,
}
use dbus_cplusplus.Paths.{same}
use dbus_cplusplus.Paths.Order.{same_eq, same_refl}
use dbus_cplusplus.Xml.{Bytes}
use dbus_cplusplus.Interface.{ok}
use dbus_cplusplus.Signature.Types.{Tree}
use dbus_cplusplus.Marshal.{Libdbus}
use dbus_cplusplus.Marshal.Types.{TypeOf}
use dbus_cplusplus.Marshal.Write.{write}
use dbus_cplusplus.Marshal.Read.{read}
use dbus_cplusplus.Marshal.Valid.{Within, Valid}
use dbus_cplusplus.Marshal.RoundTrip.{reads}
use dbus_cplusplus.Generator.Programs.{Statement, declare, extract, insert}
use dbus_cplusplus.Generator.Programs.Meaning.{
  Value, Variables, Variable, full, fulls, look_up, value_of, values_of, filled,
}

-- None of the names is `x`.
abbrev pub Absent : Bytes → List Bytes → Type 0
Absent x [] = Unit {0}
Absent x (y ∷ ys) = (same y x ≡ false) × Absent x ys

abbrev pub Distinct : List Bytes → Type 0
Distinct [] = Unit {0}
Distinct (x ∷ xs) = Absent x xs × Distinct xs

same_sym : (x y : Bytes) → same x y ≡ false → same y x ≡ false
same_sym x y h = elim (Bool-cases (same y x)) [
  | inl e ↦ let eq = same_eq y x e in let all = same_refl x in absurd cc
  | inr e ↦ e
]

-- The lines of the loops
unfoldable pub inserts : List Bytes → List (List Statement)
inserts [] = []
inserts (x ∷ xs) = (insert x ∷ []) ∷ inserts xs

unfoldable pub extracts : List Bytes → List (List Statement)
extracts [] = []
extracts (x ∷ xs) = (extract x ∷ []) ∷ extracts xs

unfoldable pub declares : List Tree → List Bytes → List (List Statement)
declares [] xs = []
declares (t ∷ ts) [] = []
declares (t ∷ ts) (x ∷ xs) = (declare t x ∷ []) ∷ declares ts xs

unfoldable pub declare_extracts : List Tree → List Bytes → List (List Statement)
declare_extracts [] xs = []
declare_extracts (t ∷ ts) [] = []
declare_extracts (t ∷ ts) (x ∷ xs) = (declare t x ∷ extract x ∷ []) ∷ declare_extracts ts xs

module _ (lib : Libdbus) where
  abbrev pub types : List (Value lib) → List Tree
  types [] = []
  types ((t, v) ∷ vs) = t ∷ types vs

  abbrev pub blanks : List Tree → List (Variable lib)
  blanks [] = []
  blanks (t ∷ ts) = (t, none) ∷ blanks ts

  -- Each variable has its value.
  abbrev pub Bound : List Bytes → List (Value lib) → Variables lib → Type 0
  Bound [] [] vars = Unit {0}
  Bound [] (v ∷ vs) vars = ⊥
  Bound (x ∷ xs) [] vars = ⊥
  Bound (x ∷ xs) (v ∷ vs) vars = (value_of lib x vars ≡ some v) × Bound xs vs vars

  -- Each variable has its type.
  abbrev pub Declared : List Bytes → List Tree → Variables lib → Type 0
  Declared [] [] vars = Unit {0}
  Declared [] (t ∷ ts) vars = ⊥
  Declared (x ∷ xs) [] vars = ⊥
  Declared (x ∷ xs) (t ∷ ts) vars =
      ((o : Option (TypeOf lib t)) × (look_up lib x vars ≡ some (t, o))) × Declared xs ts vars

  pub values_of-Bound :
      (xs : List Bytes) (vs : List (Value lib)) (vars : Variables lib)
      → Bound xs vs vars
      → values_of lib xs vars ≡ some vs
  unfolding values_of
  values_of-Bound [] [] vars h = refl
  values_of-Bound [] (v ∷ vs) vars h = absurd h
  values_of-Bound (x ∷ xs) [] vars h = absurd h
  values_of-Bound (x ∷ xs) (v ∷ vs) vars (h, hs) =
      rw (values_of, h, values_of-Bound xs vs vars hs) refl

  pub look_up-filled :
      (x : Bytes) (xs : List Bytes) (vs : List (Variable lib)) (vars : Variables lib)
      → Absent x xs
      → look_up lib x (filled lib xs vs vars) ≡ look_up lib x vars
  unfolding filled look_up
  look_up-filled x [] vs vars h = refl
  look_up-filled x (y ∷ ys) [] vars h = refl
  look_up-filled x (y ∷ ys) (v ∷ vs) vars (h, hs) =
      look_up-filled x ys vs ((y, v) ∷ vars) hs ∙ rw (look_up, h) refl

  pub filled-Bound :
      (xs : List Bytes) (vs : List (Value lib)) (vars : Variables lib)
      → Distinct xs
      → length xs ≡ length vs
      → Bound xs vs (filled lib xs (fulls lib vs) vars)
  unfolding filled value_of
  filled-Bound [] [] vars d e = tt
  filled-Bound [] (v ∷ vs) vars d e = absurd (omega (arith, e))
  filled-Bound (x ∷ xs) [] vars d e = absurd (omega (arith, e))
  filled-Bound (x ∷ xs) (v ∷ vs) vars (d, ds) e = (
    rw
        (
          value_of,
          look_up-filled x xs (fulls lib vs) ((x, full lib v) ∷ vars) d,
          look_up,
          same_refl x,
        )
        refl,
    filled-Bound xs vs ((x, full lib v) ∷ vars) ds (omega (arith, e)),
  )

  -- The variables after they have been declared and extracted
  unfoldable pub drawn : List Bytes → List (Value lib) → Variables lib → Variables lib
  drawn [] vs vars = vars
  drawn (x ∷ xs) [] vars = vars
  drawn (x ∷ xs) ((t, v) ∷ vs) vars = drawn xs vs ((x, (t, some v)) ∷ (x, (t, none)) ∷ vars)

  look_up-drawn :
      (x : Bytes) (xs : List Bytes) (vs : List (Value lib)) (vars : Variables lib)
      → Absent x xs
      → look_up lib x (drawn xs vs vars) ≡ look_up lib x vars
  unfolding drawn look_up
  look_up-drawn x [] vs vars h = refl
  look_up-drawn x (y ∷ ys) [] vars h = refl
  look_up-drawn x (y ∷ ys) ((t, v) ∷ vs) vars (h, hs) =
      look_up-drawn x ys vs _ hs ∙ rw (look_up, h) refl

  pub drawn-Bound :
      (xs : List Bytes) (vs : List (Value lib)) (vars : Variables lib)
      → Distinct xs
      → length xs ≡ length vs
      → Bound xs vs (drawn xs vs vars)
  unfolding drawn value_of
  drawn-Bound [] [] vars d e = tt
  drawn-Bound [] (v ∷ vs) vars d e = absurd (omega (arith, e))
  drawn-Bound (x ∷ xs) [] vars d e = absurd (omega (arith, e))
  drawn-Bound (x ∷ xs) ((t, v) ∷ vs) vars (d, ds) e = (
    rw
        (
          value_of,
          look_up-drawn x xs vs ((x, (t, some v)) ∷ (x, (t, none)) ∷ vars) d,
          look_up,
          same_refl x,
        )
        refl,
    drawn-Bound xs vs _ ds (omega (arith, e)),
  )

  pub still-Declared :
      (x : Bytes) (v : Variable lib) (xs : List Bytes) (ts : List Tree) (vars : Variables lib)
      → Absent x xs
      → Declared xs ts vars
      → Declared xs ts ((x, v) ∷ vars)
  unfolding look_up
  still-Declared x v [] [] vars d h = tt
  still-Declared x v [] (t ∷ ts) vars d h = absurd h
  still-Declared x v (y ∷ ys) [] vars d h = absurd h
  still-Declared x v (y ∷ ys) (t ∷ ts) vars (d, ds) ((o, h), hs) =
      ((o, rw (look_up, same_sym y x d) h), still-Declared x v ys ts vars ds hs)

  module _ (fuel : ℕ) where
    -- Each value is written as an item, and is read from it.
    abbrev pub Carries : List (Value lib) → List lib.Item → Type 0
    Carries [] [] = Unit {0}
    Carries [] (i ∷ is) = ⊥
    Carries (v ∷ vs) [] = ⊥
    Carries ((t, v) ∷ vs) (i ∷ is) =
        (write lib fuel t v ≡ some i) × (read lib fuel t i ≡ some (ok v)) × Carries vs is

    -- Each value can be carried by a message.
    abbrev pub AllGood : List (Value lib) → Type 0
    AllGood [] = Unit {0}
    AllGood ((t, v) ∷ vs) = Within fuel t × Valid lib fuel t v × AllGood vs

    pub AllGood-Carries :
        (vs : List (Value lib)) → AllGood vs → (is : List lib.Item) × Carries vs is
    AllGood-Carries [] h = ([], tt)
    AllGood-Carries ((t, v) ∷ vs) (within, h, hs) =
        let (i, w, r) = reads lib t fuel v h in
        let (is, c) = AllGood-Carries vs hs in (i ∷ is, (w, r, c))
