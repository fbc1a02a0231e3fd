-- ===== src/Marshal/Types.antt =====
-- The C++ types that include/dbus-c++/types.h marshals, by the D-Bus types that they stand for:
-- std::vector and std::map are lists, a Struct is the product of its members (Invalid, the type of
-- the members that are left out, has none), and a Variant is the items of its message.
use dbus_cplusplus.Common.{ℕ, Bool, List, [], ◌∷◌, ◌++◌}
use dbus_cplusplus.Signature.Types.{
  Atom, boolean, string, path, signature, variant, Tree, atom, array, dict, struct, Trees, last,
  also, letter,
}
use dbus_cplusplus.Marshal.{Libdbus, Chars}

module _ (lib : Libdbus) where
  -- The bits of a number, or the characters of a text.
  abbrev pub AtomOf : Atom → Type 0
  AtomOf boolean = Bool
  AtomOf string = Chars
  AtomOf path = Chars
  AtomOf signature = Chars
  AtomOf variant = List lib.Item
  AtomOf _ = ℕ

  unfoldable mutual
    pub TypeOf : Tree → Type 0
    TypeOf (atom a) = AtomOf a
    TypeOf (array t) = List (TypeOf t)
    TypeOf (dict k t) = List (AtomOf k × TypeOf t)
    TypeOf (struct ts) = TypesOf ts

    pub TypesOf : Trees → Type 0
    TypesOf (last t) = TypeOf t
    TypesOf (also t ts) = TypeOf t × TypesOf ts

-- type<T>::sig()
unfoldable mutual
  pub sig : Tree → Chars
  sig (atom a) = letter a ∷ []
  sig (array t) = b'a' ∷ sig t
  sig (dict k t) = b'a' ∷ b'{' ∷ letter k ∷ (sig t ++ b'}' ∷ [])
  sig (struct ts) = b'(' ∷ (sigs ts ++ b')' ∷ [])

  pub sigs : Trees → Chars
  sigs (last t) = sig t
  sigs (also t ts) = sig t ++ sigs ts
