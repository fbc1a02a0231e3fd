-- ===== src/Marshal/Mismatch.antt =====
-- Reading a value from an item of another type (include/dbus-c++/types.h, src/types.cpp).
use dbus_cplusplus.Common.{ℕ, ◌≡◌, ◌≢◌, refl, Bool, true, false, some, ◌==◌, ==_iff, arith, String}
use dbus_cplusplus.Interface.{err}
use dbus_cplusplus.Signature.Types.{
  Atom, byte, boolean, int16, uint16, int32, uint32, int64, uint64, double, string, path, signature,
  variant, letter, Tree, atom, array, dict, struct,
}
use dbus_cplusplus.Marshal.{
  Libdbus, type_array, type_variant, type_struct, get_basic, is_array, is_dict, invalid_args,
}
use dbus_cplusplus.Marshal.Read.{Reading, get, read_variant, read_atom, read}

-- The type of the items that a type is written as
unfoldable pub type_of : Tree → ℕ
type_of (atom a) = letter a
type_of (array t) = type_array
type_of (dict k t) = type_array
type_of (struct ts) = type_struct

unfoldable pub is_struct : Tree → Bool
is_struct (atom a) = false
is_struct (array t) = false
is_struct (dict k t) = false
is_struct (struct ts) = true

abbrev pub Throws {ℓ} : {A : Type ℓ} → Reading A → Type ℓ
Throws r = (message : String) × (r ≡ some (err invalid_args message))

module _ (lib : Libdbus) where
  open lib use {Item, arg_type}

  get_mismatch :
      (a : Atom) (x : Item)
      → arg_type x ≢ letter a
      → get lib a x ≡ some (err invalid_args "type mismatch")
  unfolding get_basic
  get_mismatch a x h =
      let other : (arg_type x == letter a) ≡ false =
        ground (arith, ==_iff (arg_type x) (letter a)) in
      rw (get_basic, other) refl

  atom-Throws :
      (fuel : ℕ) (a : Atom) (x : Item) → arg_type x ≢ letter a → Throws (read_atom lib fuel a x)
  unfolding read_atom read_variant
  atom-Throws fuel byte x h = ("type mismatch", rw (get_mismatch byte x h) refl)
  atom-Throws fuel boolean x h = ("type mismatch", rw (get_mismatch boolean x h) refl)
  atom-Throws fuel int16 x h = ("type mismatch", rw (get_mismatch int16 x h) refl)
  atom-Throws fuel uint16 x h = ("type mismatch", rw (get_mismatch uint16 x h) refl)
  atom-Throws fuel int32 x h = ("type mismatch", rw (get_mismatch int32 x h) refl)
  atom-Throws fuel uint32 x h = ("type mismatch", rw (get_mismatch uint32 x h) refl)
  atom-Throws fuel int64 x h = ("type mismatch", rw (get_mismatch int64 x h) refl)
  atom-Throws fuel uint64 x h = ("type mismatch", rw (get_mismatch uint64 x h) refl)
  atom-Throws fuel double x h = ("type mismatch", rw (get_mismatch double x h) refl)
  atom-Throws fuel string x h = ("type mismatch", rw (get_mismatch string x h) refl)
  atom-Throws fuel path x h = ("type mismatch", rw (get_mismatch path x h) refl)
  atom-Throws fuel signature x h = ("type mismatch", rw (get_mismatch signature x h) refl)
  atom-Throws fuel variant x h =
      let other : (arg_type x == type_variant) ≡ false =
        ground (arith, ==_iff (arg_type x) type_variant) in
      ("variant type expected", rw (read_variant, other) refl)

  no_array : (x : Item) → arg_type x ≢ type_array → is_array lib x ≡ false
  unfolding is_array
  no_array x h = ground (arith, ==_iff (arg_type x) type_array)

  no_dict : (x : Item) → arg_type x ≢ type_array → is_dict lib x ≡ false
  unfolding is_dict
  no_dict x h = rw (is_dict, no_array x h) refl

  -- A value of a type that is no struct is never read from an item of another type: InvalidArgs is
  -- thrown, before the contents of the item are looked at.
  pub read-Throws :
      (fuel : ℕ) (t : Tree) (x : Item)
      → is_struct t ≡ false
      → arg_type x ≢ type_of t
      → Throws (read lib fuel t x)
  unfolding read type_of is_struct
  read-Throws fuel (atom a) x s h = atom-Throws fuel a x h
  read-Throws fuel (array t) x s h = ("array expected", rw (no_array x h) refl)
  read-Throws fuel (dict k t) x s h = ("dictionary value expected", rw (no_dict x h) refl)
  read-Throws fuel (struct ts) x s h = absurd (cc)
