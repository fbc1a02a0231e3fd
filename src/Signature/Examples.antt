-- ===== src/Signature/Examples.antt =====
-- The signature a{sv}(ias), and texts that are no signature.
use dbus_cplusplus.Common.{◌≡◌, refl, String, [], ◌∷◌, some}
use dbus_cplusplus.Signature.{signature_to_type, parse_signature, switch, advance}
use dbus_cplusplus.Signature.Types.{
  string, variant, int32, Trees, atom, array, dict, struct, last, also, spells, cpp_types,
}
use dbus_cplusplus.Signature.Translate.{signature_to_type-spells}
use dbus_cplusplus.Signature.Total.{signature_to_type_total}

abbrev arguments : Trees
arguments =
    also (dict string (atom variant))
      (last (struct (also (atom int32) (last (array (atom string))))))

spelled :
    spells arguments [] ≡ b'a' ∷ b'{' ∷ b's' ∷ b'v' ∷ b'}' ∷ b'(' ∷ b'i' ∷ b'a' ∷ b's' ∷ b')' ∷ []
unfolding spells
spelled = refl

named :
    cpp_types arguments
    ≡ "std::map< std::string, ::DBus::Variant >, ::DBus::Struct< int32_t, std::vector< std::string > >"
unfolding cpp_types
named = refl

signature_to_type-spells_example :
    signature_to_type (spells arguments []) ≡ some (cpp_types arguments)
signature_to_type-spells_example = signature_to_type-spells arguments

-- A character that is no type, and an array of nothing, are translated all the same.
invalid_accepted : signature_to_type (b'i' ∷ b'?' ∷ b'a' ∷ []) ≡ some "int32_t, , std::vector<  >"
unfolding signature_to_type parse_signature switch advance
invalid_accepted = refl

signature_to_type_total_example :
    (type : String) × (signature_to_type (b'i' ∷ b'?' ∷ b'a' ∷ []) ≡ some type)
signature_to_type_total_example = signature_to_type_total (b'i' ∷ b'?' ∷ b'a' ∷ [])
