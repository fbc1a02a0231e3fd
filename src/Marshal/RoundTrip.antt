-- ===== src/Marshal/RoundTrip.antt =====
-- What operator<< writes, operator>> reads (include/dbus-c++/types.h, src/types.cpp).
use dbus_cplusplus.Common.{
  ℕ, ◌≡◌, refl, ap, ap₂, ◌∙◌, List, [], ◌∷◌, ◌++◌, append-nil, append_assoc, Option, some,
}
use dbus_cplusplus.Interface.{ok}
use dbus_cplusplus.Signature.Types.{
  Atom, byte, Tree, atom, array, dict, struct, Trees, last, also, letter,
}
use dbus_cplusplus.Marshal.{
  Libdbus, Chars, type_array, type_struct, type_dict_entry, is_array, is_dict,
}
use dbus_cplusplus.Marshal.Types.{AtomOf, TypeOf, TypesOf, sig}
use dbus_cplusplus.Marshal.Write.{
  traverse, write_atom, elements, alone, before, write_entry, write, write_all,
}
use dbus_cplusplus.Marshal.Read.{
  Reading, read_each, read_atom, read_elements, assign, read_entries, read, read_all,
}
use dbus_cplusplus.Marshal.Valid.{
  HasFront, AllWithin, Each, ValidAtom, Absent, Distinct, Valid, AllValid,
}
use dbus_cplusplus.Marshal.Atoms.{Reads, atom-Reads}

module _ (lib : Libdbus) where
  open lib use {
    Item, number, of_number, chars, of_chars, basic, container, arg_type, element_type, contents,
    number-of_number, chars-of_chars, arg_type-basic, arg_type-container, basic_value-basic,
    contents-container, contents-variant, element_type-bytes, element_type-entries,
    get_fixed_array-fixed_array,
  }

  -- A list of things that are written and read.
  traverse-read_each :
      {A : Type 0} (P : A → Type 0) (writes : A → Option Item) (reader : Item → Reading A)
      → ((v : A) → P v → Reads lib (writes v) reader v)
      → (vs : List A) → Each P vs
      → (xs : List Item) × (traverse writes vs ≡ some xs) × (read_each reader xs ≡ some (ok vs))
  unfolding traverse read_each
  traverse-read_each P writes reader reads [] h = ([], refl, refl)
  traverse-read_each P writes reader reads (v ∷ vs) (h, hs) =
      let (x, w, r) = reads v h in
      let (xs, ws, rs) = traverse-read_each P writes reader reads vs hs in
      (x ∷ xs, rw (traverse, w, ws) refl, rw (read_each, r, rs) refl)

  Elements : ℕ → (t : Tree) → List (TypeOf lib t) → Type 0
  Elements fuel t vs =
      (xs : List Item) × (elements lib t (write lib fuel t) vs ≡ some xs)
      × (read_elements lib t (read lib fuel t) (container type_array (sig t) xs) ≡ some (ok vs))

  Elements-Each :
      (fuel : ℕ) (t : Tree) (vs : List (TypeOf lib t))
      → ((v : TypeOf lib t)
          → Valid lib fuel t v
          → Reads lib (write lib fuel t v) (read lib fuel t) v)
      → HasFront t vs
      → Each (Valid lib fuel t) vs
      → Elements fuel t vs
  unfolding Elements elements read_elements TypeOf sig
  Elements-Each fuel (atom byte) [] reads front h = absurd front
  Elements-Each fuel (atom byte) (v ∷ vs) reads front h = (
    lib.fixed_array b'y' (v ∷ vs),
    refl,
    rw
        (
          element_type-bytes [] (lib.fixed_array b'y' (v ∷ vs)),
          contents-container type_array (b'y' ∷ []) (lib.fixed_array b'y' (v ∷ vs)) refl,
          get_fixed_array-fixed_array (v ∷ vs),
        )
        refl,
  )
  Elements-Each fuel t vs reads front h =
      let (xs, w, r) =
        traverse-read_each (Valid lib fuel t) (write lib fuel t) (read lib fuel t) reads vs h in
      (xs, w, rw (contents-container type_array (sig t) xs refl) r)

  assign-Absent :
      {V : Type 0} (fuel : ℕ) (k : Atom) (key : AtomOf lib k) (v : V) (m : List (AtomOf lib k × V))
      → Absent lib fuel k key m
      → assign lib k key v m ≡ m ++ (key, v) ∷ []
  unfolding assign
  assign-Absent fuel k key v [] h = refl
  assign-Absent fuel k key v ((j, w) ∷ m) (differs, h) =
      rw (assign, differs) (ap (◌∷◌ (j, w)) (assign-Absent fuel k key v m h))

  entries-Reads :
      (fuel : ℕ) (k : Atom) (t : Tree) (m vs : List (AtomOf lib k × TypeOf lib t))
      → ((v : TypeOf lib t)
          → Valid lib fuel t v
          → Reads lib (write lib fuel t v) (read lib fuel t) v)
      → Distinct lib fuel k m vs
      → Each (λ e. ValidAtom lib fuel k e.0 × Valid lib fuel t e.1) vs
      → (xs : List Item) × (traverse
            (write_entry lib k t (write_atom lib fuel k) (write lib fuel t))
            vs
          ≡ some xs)
        × (read_entries lib k (read_atom lib fuel k) (read lib fuel t) xs m ≡ some (ok (m ++ vs)))
  unfolding traverse write_entry read_entries
  entries-Reads fuel k t m [] reads distinct h = ([], refl, simp append-nil)
  entries-Reads fuel k t m ((j, v) ∷ vs) reads (absent, distinct) ((hj, hv), h) =
      let (x, wx, rx) = atom-Reads lib fuel k j hj in
      let (y, wy, ry) = reads v hv in
      let (xs, ws, rs) = entries-Reads fuel k t (m ++ (j, v) ∷ []) vs reads distinct h in
      (
        container type_dict_entry [] (x ∷ y ∷ []) ∷ xs,
        rw (traverse, write_entry, wx, wy, ws) refl,
        rw
            (
              read_entries,
              contents-container type_dict_entry [] (x ∷ y ∷ []) refl,
              rx,
              ry,
              assign-Absent fuel k j v m absent,
            )
            (rs ∙ simp append_assoc),
      )

  mutual
    unfolding write read TypeOf Valid Elements is_array is_dict

    pub reads :
        (t : Tree) (fuel : ℕ) (v : TypeOf lib t)
        → Valid lib fuel t v
        → Reads lib (write lib fuel t v) (read lib fuel t) v
    reads (atom a) fuel v h = atom-Reads lib fuel a v h
    reads (array t) fuel v (front, h) =
        let (xs, w, r) = Elements-Each fuel t v (λ u k. reads t fuel u k) front h in
        (
          container type_array (sig t) xs,
          rw w refl,
          rw (arg_type-container type_array (sig t) xs) r,
        )
    reads (dict k t) fuel v (basic_key, distinct, h) =
        let (xs, w, r) = entries-Reads fuel k t [] v (λ u m. reads t fuel u m) distinct h in
        let s : Chars = letter k ∷ (sig t ++ b'}' ∷ []) in
        (
          container type_array (b'{' ∷ s) xs,
          rw w refl,
          rw
              (
                arg_type-container type_array (b'{' ∷ s) xs,
                element_type-entries s xs,
                contents-container type_array (b'{' ∷ s) xs refl,
              )
              r,
        )
    reads (struct ts) fuel v h =
        let (xs, w, r) = reads_all ts fuel v h in
        (container type_struct [] xs, rw w refl, rw (contents-container type_struct [] xs refl) r)

    reads_all :
        (ts : Trees) (fuel : ℕ) (v : TypesOf lib ts)
        → AllValid lib fuel ts v
        → (xs : List Item) × (write_all lib fuel ts v ≡ some xs)
          × (read_all lib fuel ts xs ≡ some (ok v))
    reads_all (last t) fuel v h = let (x, w, r) = reads t fuel v h in (x ∷ [], ap (alone lib) w, r)
    reads_all (also t ts) fuel (v, vs) (h, hs) =
        let (x, w, r) = reads t fuel v h in
        let (xs, ws, rs) = reads_all ts fuel vs hs in
        (x ∷ xs, ap₂ (before lib) w ws, rw (r, rs) refl)

  -- Values that a message can carry are written to it, each as one item, and are read back from it
  -- as they were: vectors, maps, structs and variants, in types that are nested as deep as the
  -- protocol has them. Texts are accepted by libdbus, a vector of bytes is not empty, and a variant
  -- has one item.
  pub read_all-write_all :
      (fuel : ℕ) (ts : Trees) (v : TypesOf lib ts)
      → AllWithin fuel ts
      → AllValid lib fuel ts v
      → (xs : List Item) × (write_all lib fuel ts v ≡ some xs)
        × (read_all lib fuel ts xs ≡ some (ok v))
  read_all-write_all fuel ts v within h = reads_all ts fuel v h
