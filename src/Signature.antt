-- ===== src/Signature.antt =====
-- tools/generator_utils.cpp: the C++ type that the code generators write for a D-Bus signature.
-- A signature is the list of its characters' codes; the position `i` is what is left of it, with
-- the character at `i` first. Reading signature[i] at the end gives the character 0.
pub mod Types
pub mod Translate
pub mod Total
pub mod Names
mod Examples
use Prim.Native.String.{◌++◌}
use dbus_cplusplus.Common.{
  ℕ, zero, suc, Bool, true, false, ◌||◌, ◌&&◌, not, String, List, [], ◌∷◌, Option, none, some,
  length, drop, ltb, leb, ◌==◌, if◌then◌else◌,
}

abbrev pub Chars : Type 0
Chars = List ℕ

-- signature[0] of what is left
abbrev pub char_at : Chars → ℕ
char_at [] = 0
char_at (c ∷ rest) = c

-- The rows of `atos`; the last one, which stands for every other character, is the empty name.
unfoldable pub atos : List (ℕ × String)
atos =
    (b'y', "uint8_t")
    ∷ (b'b', "bool")
    ∷ (b'n', "int16_t")
    ∷ (b'q', "uint16_t")
    ∷ (b'i', "int32_t")
    ∷ (b'u', "uint32_t")
    ∷ (b'x', "int64_t")
    ∷ (b't', "uint64_t")
    ∷ (b'd', "double")
    ∷ (b's', "std::string")
    ∷ (b'o', "::DBus::Path")
    ∷ (b'g', "::DBus::Signature")
    ∷ (b'v', "::DBus::Variant")
    ∷ []

unfoldable pub look_up : ℕ → List (ℕ × String) → String
look_up t [] = ""
look_up t ((type, name) ∷ rows) = if type == t then name else look_up t rows

unfoldable pub atomic_type_to_string : ℕ → String
unfolding look_up atos
atomic_type_to_string t = look_up t atos

-- case ')': case '}':
abbrev pub closes : ℕ → Bool
closes c = (c == b')') || (c == b'}')

-- i + 1 < signature.length() && signature[i + 1] != ')' && signature[i + 1] != '}'
abbrev pub continues : Chars → Bool
continues [] = false
continues (c ∷ rest) = not (closes c)

abbrev pub Parsed : Type 0
Parsed = Option (Chars × String)

abbrev pub append : Parsed → String → Parsed
append none more = none
append (some (rest, type)) more = some (rest, type ++ more)

-- The switch on signature[i], for a character that does not close: `parse` is the function's own
-- recursive call.
unfoldable pub switch : (Bool → Chars → String → Parsed) → ℕ → Chars → String → Parsed
unfolding atomic_type_to_string
switch parse c rest type = elim (c == b'a') [
  | true ↦ elim (char_at rest == b'{') [
    | true ↦ append (parse false (drop 1 rest) (type ++ "std::map< ")) " >"
    | false ↦ elim (char_at rest == b'(') [
      | true ↦ append (parse false (drop 1 rest) (type ++ "std::vector< ::DBus::Struct< ")) " > >"
      | false ↦ append (parse true rest (type ++ "std::vector< ")) " >"
    ]
  ]
  | false ↦ elim (c == b'(') [
    | true ↦ append (parse false rest (type ++ "::DBus::Struct< ")) " >"
    | false ↦ some (c ∷ rest, type ++ atomic_type_to_string c)
  ]
]

-- The rest of the loop's body and its `++i`, on what the switch left: `parse` is the next round.
unfoldable pub advance : (Chars → String → Parsed) → Bool → Parsed → Parsed
advance parse only_once none = none
advance parse true (some (rest, type)) = some (rest, type)
advance parse false (some (rest, type)) =
    parse (drop 1 rest) (if continues (drop 1 rest) then type ++ ", " else type)

-- _parse_signature, on fuel; `none` is for too little of it.
unfoldable pub parse_signature : ℕ → Bool → Chars → String → Parsed
unfolding switch advance
parse_signature zero only_once rest type = none
parse_signature (suc fuel) only_once [] type = some ([], type)
parse_signature (suc fuel) only_once (c ∷ rest) type = elim (closes c) [
  | true ↦ some (c ∷ rest, type)
  | false ↦
      advance (parse_signature fuel false) only_once (switch (parse_signature fuel) c rest type)
]

-- signature_to_type
unfoldable pub signature_to_type : Chars → Option String
signature_to_type signature = elim (parse_signature (suc (length signature)) false signature "") [
  | none ↦ none
  | some (rest, type) ↦ some type
]
