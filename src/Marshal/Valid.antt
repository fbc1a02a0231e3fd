-- ===== src/Marshal/Valid.antt =====
-- The values that a message can carry: numbers and texts that libdbus accepts, without the character
-- 0, vectors of bytes that are not empty, maps with distinct keys of a basic type, and variants of
-- one item that was appended, nested less deep than the fuel, with types nested as deep as the
-- protocol has them.
use dbus_cplusplus.Common.{ℕ, ◌+◌, ◌≤◌, max, ◌≡◌, true, false, ◌==◌, List, [], ◌∷◌, ◌++◌}
use dbus_cplusplus.Signature.Types.{
  Atom, byte, boolean, int16, uint16, int32, uint32, int64, uint64, double, string, path, signature,
  variant, Tree, atom, array, dict, struct, Trees, last, also, letter,
}
use dbus_cplusplus.Marshal.{Libdbus, Chars, is_basic_type}
use dbus_cplusplus.Marshal.Types.{AtomOf, TypeOf, TypesOf}
use dbus_cplusplus.Marshal.Write.{dbus_bool}
use dbus_cplusplus.Marshal.Read.{same_key}
use dbus_cplusplus.Marshal.Copy.{AllBuilt}

abbrev pub NoZero : Chars → Type 0
NoZero [] = Unit {0}
NoZero (c ∷ cs) = ((c == 0) ≡ false) × NoZero cs

abbrev pub Each {ℓ} : {A : Type ℓ} → (A → Type 0) → List A → Type 0
Each P [] = Unit {0}
Each P (x ∷ xs) = P x × Each P xs

abbrev pub Single {ℓ} : {A : Type ℓ} → List A → Type 0
Single [] = ⊥
Single (x ∷ []) = Unit {0}
Single (x ∷ y ∷ xs) = ⊥

-- A vector of bytes has a first element.
abbrev pub HasFront {ℓ} : {A : Type ℓ} → Tree → List A → Type 0
HasFront (atom byte) [] = ⊥
HasFront t vs = Unit {0}

-- How deep a type is nested, where an array, a struct, and an entry or a variant count for so much
unfoldable mutual
  pub nesting : ℕ → ℕ → ℕ → Tree → ℕ
  nesting a s e (atom variant) = e
  nesting a s e (atom k) = 0
  nesting a s e (array t) = a + nesting a s e t
  nesting a s e (dict k t) = a + e + nesting a s e t
  nesting a s e (struct ts) = s + all_nesting a s e ts

  pub all_nesting : ℕ → ℕ → ℕ → Trees → ℕ
  all_nesting a s e (last t) = nesting a s e t
  all_nesting a s e (also t ts) = max (nesting a s e t) (all_nesting a s e ts)

-- The protocol has up to 32 arrays in each other, up to 32 structs, and up to 64 containers, those
-- in variants included.
abbrev pub Within : ℕ → Tree → Type 0
Within fuel t =
    (nesting 1 0 0 t ≤ 32) × (nesting 0 1 0 t ≤ 32) × (nesting 1 1 1 t + fuel ≤ 64) × (fuel ≤ 32)

abbrev pub AllWithin : ℕ → Trees → Type 0
AllWithin fuel (last t) = Within fuel t
AllWithin fuel (also t ts) = Within fuel t × AllWithin fuel ts

abbrev pub Accepted : (lib : Libdbus) → Atom → lib.Value → Type 0
Accepted lib a v = lib.accepts (letter a) v ≡ true

module _ (lib : Libdbus) (fuel : ℕ) where
  abbrev pub ValidAtom : (a : Atom) → AtomOf lib a → Type 0
  ValidAtom string v = NoZero v × Accepted lib string (lib.of_chars v)
  ValidAtom path v = NoZero v × Accepted lib path (lib.of_chars v)
  ValidAtom signature v = NoZero v × Accepted lib signature (lib.of_chars v)
  ValidAtom variant v = Single v × AllBuilt lib fuel v
  ValidAtom byte v = Accepted lib byte (lib.of_number v)
  ValidAtom boolean v = Accepted lib boolean (lib.of_number (dbus_bool v))
  ValidAtom int16 v = Accepted lib int16 (lib.of_number v)
  ValidAtom uint16 v = Accepted lib uint16 (lib.of_number v)
  ValidAtom int32 v = Accepted lib int32 (lib.of_number v)
  ValidAtom uint32 v = Accepted lib uint32 (lib.of_number v)
  ValidAtom int64 v = Accepted lib int64 (lib.of_number v)
  ValidAtom uint64 v = Accepted lib uint64 (lib.of_number v)
  ValidAtom double v = Accepted lib double (lib.of_number v)

  module _ {V : Type 0} (k : Atom) where
    -- No key of the map is the same.
    abbrev pub Absent : AtomOf lib k → List (AtomOf lib k × V) → Type 0
    Absent key [] = Unit {0}
    Absent key ((j, w) ∷ m) = (same_key lib k j key ≡ false) × Absent key m

    -- Each key differs from those before it; the first list is what stands before the second.
    abbrev pub Distinct : List (AtomOf lib k × V) → List (AtomOf lib k × V) → Type 0
    Distinct before [] = Unit {0}
    Distinct before ((key, v) ∷ m) = Absent key before × Distinct (before ++ (key, v) ∷ []) m

  unfoldable mutual
    unfolding TypeOf

    pub Valid : (t : Tree) → TypeOf lib t → Type 0
    Valid (atom a) v = ValidAtom a v
    Valid (array t) v = HasFront t v × Each (Valid t) v
    Valid (dict k t) v =
        (is_basic_type (letter k) ≡ true)
        × Distinct k [] v
        × Each (λ e. ValidAtom k e.0 × Valid t e.1) v
    Valid (struct ts) v = AllValid ts v

    pub AllValid : (ts : Trees) → TypesOf lib ts → Type 0
    AllValid (last t) v = Valid t v
    AllValid (also t ts) (v, vs) = Valid t v × AllValid ts vs
