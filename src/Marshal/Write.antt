-- ===== src/Marshal/Write.antt =====
-- operator<< of include/dbus-c++/types.h and src/types.cpp: the item that a value is appended as.
use dbus_cplusplus.Common.{
  ℕ, Bool, true, false, List, [], ◌∷◌, ◌++◌, Option, none, some, ◌==◌, if◌then◌else◌,
}
use dbus_cplusplus.Signature.Types.{
  Atom, byte, boolean, int16, uint16, int32, uint32, int64, uint64, double, string, path, signature,
  variant, Tree, atom, array, dict, struct, Trees, last, also, letter,
}
use dbus_cplusplus.Marshal.{
  Libdbus, Chars, type_array, type_variant, type_struct, type_dict_entry, copy_data,
}
use dbus_cplusplus.Marshal.Types.{AtomOf, TypeOf, TypesOf, sig}

-- The characters that a `const char *` stands for: those before the first 0.
unfoldable pub c_str : Chars → Chars
c_str [] = []
c_str (c ∷ cs) = if c == 0 then [] else c ∷ c_str cs

-- dbus_bool_t db = b;
abbrev pub dbus_bool : Bool → ℕ
dbus_bool true = 1
dbus_bool false = 0

-- A loop whose body may run out of fuel.
unfoldable pub traverse {ℓ κ} :
    {A : Type ℓ} {B : Type κ} → (A → Option B) → List A → Option (List B)
traverse f [] = some []
traverse f (x ∷ xs) = elim (f x) [
  | none ↦ none
  | some y ↦ elim (traverse f xs) [ none ↦ none | some ys ↦ some (y ∷ ys) ]
]

module _ (lib : Libdbus) where
  open lib use {Item, of_number, of_chars, basic, container, fixed_array, signature as signature_of}

  abbrev pub number_item : Atom → ℕ → Item
  number_item a n = basic (letter a) (of_number n)

  abbrev pub chars_item : Atom → Chars → Item
  chars_item a s = basic (letter a) (of_chars (c_str s))

  -- operator<< of a Variant: its value is copied to a new variant. `none` is for too little fuel.
  unfoldable pub write_variant : ℕ → List Item → Option Item
  write_variant fuel v = elim (copy_data lib fuel v []) [
    | none ↦ none
    | some inside ↦ some (container type_variant (signature_of v) inside)
  ]

  -- MessageIter::append_byte to append_signature
  unfoldable pub write_atom : ℕ → (a : Atom) → AtomOf lib a → Option Item
  unfolding c_str write_variant
  write_atom fuel boolean v = some (number_item boolean (dbus_bool v))
  write_atom fuel string v = some (chars_item string v)
  write_atom fuel path v = some (chars_item path v)
  write_atom fuel signature v = some (chars_item signature v)
  write_atom fuel variant v = write_variant fuel v
  write_atom fuel byte v = some (number_item byte v)
  write_atom fuel int16 v = some (number_item int16 v)
  write_atom fuel uint16 v = some (number_item uint16 v)
  write_atom fuel int32 v = some (number_item int32 v)
  write_atom fuel uint32 v = some (number_item uint32 v)
  write_atom fuel int64 v = some (number_item int64 v)
  write_atom fuel uint64 v = some (number_item uint64 v)
  write_atom fuel double v = some (number_item double v)

  -- What goes into the array of a vector; a vector of bytes is appended as one block, from where its
  -- first element is. `none` is for too little fuel, and for an empty vector of bytes, whose front is
  -- undefined.
  unfoldable pub elements :
      (t : Tree) → (TypeOf lib t → Option Item) → List (TypeOf lib t) → Option (List Item)
  unfolding traverse TypeOf
  elements (atom byte) each [] = none
  elements (atom byte) each (v ∷ vs) = some (fixed_array b'y' (v ∷ vs))
  elements t each vs = traverse each vs

  abbrev pub contain : ℕ → Chars → Option (List Item) → Option Item
  contain c s none = none
  contain c s (some inside) = some (container c s inside)

  -- operator<< of a map's entry
  unfoldable pub write_entry :
      (k : Atom) (t : Tree)
      → (AtomOf lib k → Option Item)
      → (TypeOf lib t → Option Item)
      → AtomOf lib k × TypeOf lib t
      → Option Item
  write_entry k t key value (j, v) = elim (key j) [
    | none ↦ none
    | some x ↦ elim (value v) [
      | none ↦ none
      | some y ↦ some (container type_dict_entry [] (x ∷ y ∷ []))
    ]
  ]

  abbrev pub alone : Option Item → Option (List Item)
  alone none = none
  alone (some x) = some (x ∷ [])

  abbrev pub before : Option Item → Option (List Item) → Option (List Item)
  before none xs = none
  before (some x) none = none
  before (some x) (some xs) = some (x ∷ xs)

  -- operator<<: each value is appended as one item.
  unfoldable mutual
    unfolding write_atom elements write_entry TypeOf traverse

    pub write : ℕ → (t : Tree) → TypeOf lib t → Option Item
    write fuel (atom a) v = write_atom fuel a v
    write fuel (array t) v = contain type_array (sig t) (elements t (write fuel t) v)
    write fuel (dict k t) v =
        contain type_array (b'{' ∷ letter k ∷ (sig t ++ b'}' ∷ []))
          (traverse (write_entry k t (write_atom fuel k) (write fuel t)) v)
    write fuel (struct ts) v = contain type_struct [] (write_all fuel ts v)

    -- wi << v1 << v2 ...
    pub write_all : ℕ → (ts : Trees) → TypesOf lib ts → Option (List Item)
    write_all fuel (last t) v = alone (write fuel t v)
    write_all fuel (also t ts) (v, vs) = before (write fuel t v) (write_all fuel ts vs)
