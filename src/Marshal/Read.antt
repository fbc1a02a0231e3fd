-- ===== src/Marshal/Read.antt =====
-- operator>> of include/dbus-c++/types.h and src/types.cpp: a value from the item at an iterator.
-- Each operator ends with `++iter`, so that the next one reads the next item. `none` is for too
-- little fuel; an exception is a value.
use dbus_cplusplus.Common.{
  ℕ, Bool, true, false, not, ◌&&◌, List, [], ◌∷◌, Option, none, some, drop, ◌==◌, if◌then◌else◌,
}
use dbus_cplusplus.Interface.{Result, ok, err}
use dbus_cplusplus.Signature.Types.{
  Atom, byte, boolean, int16, uint16, int32, uint32, int64, uint64, double, string, path, signature,
  variant, Tree, atom, array, dict, struct, Trees, last, also, letter,
}
use dbus_cplusplus.Marshal.{
  Libdbus, Chars, type_variant, copy_data, current, get_basic, is_array, is_dict, invalid_args,
}
use dbus_cplusplus.Marshal.Types.{AtomOf, TypeOf, TypesOf}

abbrev pub Reading {ℓ} : Type ℓ → Type ℓ
Reading A = Option (Result A)

module _ {ℓ κ} {A : Type ℓ} {B : Type κ} where
  infixl 5 ◌>>=◌
  abbrev pub ◌>>=◌ : Reading A → (A → Reading B) → Reading B
  none >>= f = none
  some (ok a) >>= f = f a
  some (err n m) >>= f = some (err n m)

-- while (!ait.at_end()) { ait >> elem; val.push_back(elem); }
unfoldable pub read_each {ℓ κ} :
    {A : Type ℓ} {B : Type κ} → (A → Reading B) → List A → Reading (List B)
read_each each [] = some (ok [])
read_each each (x ∷ xs) = each x >>= λ v. (read_each each xs >>= λ vs. some (ok (v ∷ vs)))

unfoldable pub same_chars : Chars → Chars → Bool
same_chars [] [] = true
same_chars [] (d ∷ ds) = false
same_chars (c ∷ cs) [] = false
same_chars (c ∷ cs) (d ∷ ds) = c == d && same_chars cs ds

abbrev pub same_bool : Bool → Bool → Bool
same_bool true b = b
same_bool false b = not b

module _ (lib : Libdbus) where
  open lib use {Value, Item, number, chars, arg_type, element_type, contents, get_fixed_array}

  abbrev pub get : Atom → Item → Reading Value
  get a x = some (get_basic lib (letter a) x)

  abbrev pub get_number : Atom → Item → Reading ℕ
  get_number a x = get a x >>= λ v. some (ok (number v))

  abbrev pub get_chars : Atom → Item → Reading Chars
  get_chars a x = get a x >>= λ v. some (ok (chars v))

  -- operator>> of a Variant
  unfoldable pub read_variant : ℕ → Item → Reading (List Item)
  read_variant fuel x =
      if not (arg_type x == type_variant)
      then some (err invalid_args "variant type expected")
      else elim (copy_data lib fuel (contents x) []) [ none ↦ none | some v ↦ some (ok v) ]

  -- MessageIter::get_byte to get_signature
  unfoldable pub read_atom : ℕ → (a : Atom) → Item → Reading (AtomOf lib a)
  unfolding read_variant
  read_atom fuel boolean x = get_number boolean x >>= λ n. some (ok (not (n == 0)))
  read_atom fuel string x = get_chars string x
  read_atom fuel path x = get_chars path x
  read_atom fuel signature x = get_chars signature x
  read_atom fuel variant x = read_variant fuel x
  read_atom fuel byte x = get_number byte x
  read_atom fuel int16 x = get_number int16 x
  read_atom fuel uint16 x = get_number uint16 x
  read_atom fuel int32 x = get_number int32 x
  read_atom fuel uint32 x = get_number uint32 x
  read_atom fuel int64 x = get_number int64 x
  read_atom fuel uint64 x = get_number uint64 x
  read_atom fuel double x = get_number double x

  -- operator>> of a std::vector, after its check that there is an array
  unfoldable pub read_elements :
      (t : Tree) → (Item → Reading (TypeOf lib t)) → Item → Reading (List (TypeOf lib t))
  unfolding read_each TypeOf
  read_elements (atom byte) each x =
      if not (element_type x == b'y')
      then some (err invalid_args "byte-array expected")
      else some (ok (get_fixed_array (contents x)))
  read_elements t each x = read_each each (contents x)

  -- == of a map's keys; a Variant has none.
  unfoldable pub same_key : (k : Atom) → AtomOf lib k → AtomOf lib k → Bool
  unfolding same_chars
  same_key boolean j k = same_bool j k
  same_key string j k = same_chars j k
  same_key path j k = same_chars j k
  same_key signature j k = same_chars j k
  same_key variant j k = false
  same_key byte j k = j == k
  same_key int16 j k = j == k
  same_key uint16 j k = j == k
  same_key int32 j k = j == k
  same_key uint32 j k = j == k
  same_key int64 j k = j == k
  same_key uint64 j k = j == k
  same_key double j k = j == k

  -- val[key] = value
  unfoldable pub assign {ℓ} :
      {V : Type ℓ} (k : Atom) → AtomOf lib k → V → List (AtomOf lib k × V) → List (AtomOf lib k × V)
  unfolding same_key
  assign k key value [] = (key, value) ∷ []
  assign k key value ((j, w) ∷ m) =
      if same_key k j key then (j, value) ∷ m else (j, w) ∷ assign k key value m

  -- The loop of operator>> of a std::map
  unfoldable pub read_entries {ℓ} :
      {V : Type ℓ} (k : Atom)
      → (Item → Reading (AtomOf lib k))
      → (Item → Reading V)
      → List Item
      → List (AtomOf lib k × V)
      → Reading (List (AtomOf lib k × V))
  unfolding assign
  read_entries k key value [] m = some (ok m)
  read_entries k key value (e ∷ es) m = key (current lib (contents e)) >>= λ j.
      (value (current lib (drop 1 (contents e))) >>= λ v.
      read_entries k key value es (assign k j v m))

  unfoldable mutual
    unfolding read_atom read_elements read_entries TypeOf

    pub read : ℕ → (t : Tree) → Item → Reading (TypeOf lib t)
    read fuel (atom a) x = read_atom fuel a x
    read fuel (array t) x =
        if not (is_array lib x)
        then some (err invalid_args "array expected")
        else read_elements t (read fuel t) x
    read fuel (dict k t) x =
        if not (is_dict lib x)
        then some (err invalid_args "dictionary value expected")
        else read_entries k (read_atom fuel k) (read fuel t) (contents x) []
    read fuel (struct ts) x = read_all fuel ts (contents x)

    -- ri >> v1 >> v2 ...
    pub read_all : ℕ → (ts : Trees) → List Item → Reading (TypesOf lib ts)
    read_all fuel (last t) xs = read fuel t (current lib xs)
    read_all fuel (also t ts) xs = read fuel t (current lib xs) >>= λ v.
        (read_all fuel ts (drop 1 xs) >>= λ vs. some (ok (v, vs)))
