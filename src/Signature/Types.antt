-- ===== src/Signature/Types.antt =====
-- The types of D-Bus, the signatures that stand for them, and the C++ types of the binding. This
-- describes tools/generator_utils.cpp independently of its code.
use Prim.Native.String.{◌++◌}
use dbus_cplusplus.Common.{ℕ, String, ◌∷◌}
use dbus_cplusplus.Signature.{Chars}

pub data Atom : Type 0 where
  byte boolean int16 uint16 int32 uint32 int64 uint64 double string path signature variant : Atom

-- The types of D-Bus: a dictionary's key is a basic type.
mutual
  pub data Tree : Type 0 where
    atom : Atom → Tree
    array : Tree → Tree
    dict : Atom → Tree → Tree
    struct : Trees → Tree

  pub data Trees : Type 0 where
    last : Tree → Trees
    also : Tree → Trees → Trees

abbrev pub letter : Atom → ℕ
letter byte = b'y'
letter boolean = b'b'
letter int16 = b'n'
letter uint16 = b'q'
letter int32 = b'i'
letter uint32 = b'u'
letter int64 = b'x'
letter uint64 = b't'
letter double = b'd'
letter string = b's'
letter path = b'o'
letter signature = b'g'
letter variant = b'v'

abbrev pub atom_name : Atom → String
atom_name byte = "uint8_t"
atom_name boolean = "bool"
atom_name int16 = "int16_t"
atom_name uint16 = "uint16_t"
atom_name int32 = "int32_t"
atom_name uint32 = "uint32_t"
atom_name int64 = "int64_t"
atom_name uint64 = "uint64_t"
atom_name double = "double"
atom_name string = "std::string"
atom_name path = "::DBus::Path"
atom_name signature = "::DBus::Signature"
atom_name variant = "::DBus::Variant"

-- The first character of a signature.
abbrev pub lead : Tree → ℕ
lead (atom a) = letter a
lead (array t) = b'a'
lead (dict k t) = b'a'
lead (struct ts) = b'('

unfoldable mutual
  -- The signature after its first character, in front of other characters.
  pub spell : Tree → Chars → Chars
  spell (atom a) rest = rest
  spell (array t) rest = lead t ∷ spell t rest
  spell (dict k t) rest = b'{' ∷ letter k ∷ lead t ∷ spell t (b'}' ∷ rest)
  spell (struct ts) rest = spells ts (b')' ∷ rest)

  pub spells : Trees → Chars → Chars
  spells (last t) rest = lead t ∷ spell t rest
  spells (also t ts) rest = lead t ∷ spell t (spells ts rest)

unfoldable mutual
  -- The C++ type.
  pub cpp_type : Tree → String
  cpp_type (atom a) = atom_name a
  cpp_type (array t) = "std::vector< " ++ (cpp_type t ++ " >")
  cpp_type (dict k t) = "std::map< " ++ (atom_name k ++ (", " ++ (cpp_type t ++ " >")))
  cpp_type (struct ts) = "::DBus::Struct< " ++ (cpp_types ts ++ " >")

  pub cpp_types : Trees → String
  cpp_types (last t) = cpp_type t
  cpp_types (also t ts) = cpp_type t ++ (", " ++ cpp_types ts)
