-- ===== src/Marshal/Examples.antt =====
-- A message with a map of variants.
use dbus_cplusplus.Common.{arith, ℕ, ◌≡◌, refl, List, [], ◌∷◌, some}
use dbus_cplusplus.Interface.{ok}
use dbus_cplusplus.Signature.Types.{
  string, variant, int32, byte, Trees, atom, array, dict, last, also,
}
use dbus_cplusplus.Marshal.{Chars, copy_data, is_basic_type}
use dbus_cplusplus.Marshal.Items.{lib, Item, number_item, a_number}
use dbus_cplusplus.Marshal.Types.{TypesOf}
use dbus_cplusplus.Marshal.Write.{write_all}
use dbus_cplusplus.Marshal.Read.{read, read_all, same_chars, same_key}
use dbus_cplusplus.Marshal.Valid.{AllValid, AllWithin, nesting}
use dbus_cplusplus.Marshal.Copy.{AllBuilt, none_built, next_built, built_basic, copy_data-Built}
use dbus_cplusplus.Marshal.RoundTrip.{read_all-write_all}
use dbus_cplusplus.Marshal.Mismatch.{type_of, is_struct, Throws, read-Throws}

-- A map from texts to variants, a vector of bytes, and a number.
abbrev types : Trees
types = also (dict string (atom variant)) (also (array (atom byte)) (last (atom int32)))

seven : AllBuilt lib 1 (number_item b'i' 7 ∷ [])
unfolding is_basic_type
seven =
    next_built 1 (number_item b'i' 7) [] (built_basic 0 b'i' (a_number 7) refl refl) (none_built 1)

abbrev Values : Type 0
Values = List (Chars × List Item) × (List ℕ × ℕ)

values : TypesOf lib types
unfolding TypesOf
values = (
  ((b'a' ∷ [], number_item b'i' 7 ∷ []) ∷ (b'b' ∷ [], number_item b'i' 7 ∷ []) ∷ []),
  (1 ∷ 2 ∷ [], 5),
)

values_valid : AllValid lib 1 types values
unfolding AllValid values same_key same_chars TypesOf is_basic_type
values_valid = (
  (
    refl,
    (tt, ((refl, tt), tt)),
    ((((refl, tt), refl), (tt, seven)), ((((refl, tt), refl), (tt, seven)), tt)),
  ),
  ((tt, (refl, (refl, tt))), refl),
)

types_within : AllWithin 1 types
unfolding nesting
types_within = (
  (omega arith, omega arith, omega arith, omega arith),
  (
    (omega arith, omega arith, omega arith, omega arith),
    (omega arith, omega arith, omega arith, omega arith),
  ),
)

read_all-write_all_example :
    (xs : List Item) × (write_all lib 1 types values ≡ some xs)
    × (read_all lib 1 types xs ≡ some (ok values))
read_all-write_all_example = read_all-write_all lib 1 types values types_within values_valid

copy_data-Built_example :
    copy_data lib 1 (number_item b'i' 7 ∷ []) [] ≡ some (number_item b'i' 7 ∷ [])
copy_data-Built_example = copy_data-Built lib 1 (number_item b'i' 7 ∷ []) [] seven

read-Throws_example : Throws (read lib 1 (array (atom int32)) (number_item b'i' 7))
unfolding is_struct type_of
read-Throws_example =
    read-Throws lib 1 (array (atom int32)) (number_item b'i' 7) refl (λ e. omega (arith, e))
