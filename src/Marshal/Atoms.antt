-- ===== src/Marshal/Atoms.antt =====
-- Basic values and variants: what operator<< writes, operator>> reads (include/dbus-c++/types.h,
-- src/types.cpp).
use dbus_cplusplus.Common.{ℕ, ◌≡◌, refl, ap, ◌∙◌, true, false, List, [], ◌∷◌, Option, some, ==_iff}
use dbus_cplusplus.Interface.{ok}
use dbus_cplusplus.Signature.Types.{
  Atom, byte, boolean, int16, uint16, int32, uint32, int64, uint64, double, string, path, signature,
  variant, letter,
}
use dbus_cplusplus.Marshal.{Libdbus, Chars, type_variant, get_basic}
use dbus_cplusplus.Marshal.Types.{AtomOf}
use dbus_cplusplus.Marshal.Write.{c_str, number_item, chars_item, write_variant, write_atom}
use dbus_cplusplus.Marshal.Read.{Reading, get_number, get_chars, read_variant, read_atom}
use dbus_cplusplus.Marshal.Valid.{NoZero, Single, Accepted, ValidAtom}
use dbus_cplusplus.Marshal.Copy.{AllBuilt, copy_data-Built}

c_str-NoZero : (s : Chars) → NoZero s → c_str s ≡ s
unfolding c_str
c_str-NoZero [] h = refl
c_str-NoZero (c ∷ s) (nonzero, h) = rw nonzero (ap (◌∷◌ c) (c_str-NoZero s h))

module _ (lib : Libdbus) where
  open lib use {
    Item, number, of_number, chars, of_chars, basic, container, arg_type, element_type, contents,
    number-of_number, chars-of_chars, arg_type-basic, arg_type-container, basic_value-basic,
    contents-container, contents-variant, element_type-bytes, element_type-entries,
    get_fixed_array-fixed_array,
  }

  get_number-number_item :
      (a : Atom) (n : ℕ)
      → Accepted lib a (of_number n)
      → get_number lib a (number_item lib a n) ≡ some (ok n)
  unfolding get_basic
  get_number-number_item a n k =
      rw
        (
          arg_type-basic (letter a) (of_number n),
          (==_iff (letter a) (letter a)).1 refl,
          basic_value-basic (letter a) (of_number n) k,
          number-of_number n,
        )
        refl

  get_chars-chars_item :
      (a : Atom) (s : Chars)
      → NoZero s
      → Accepted lib a (of_chars s)
      → get_chars lib a (chars_item lib a s) ≡ some (ok s)
  unfolding get_basic
  get_chars-chars_item a s h k =
      ap (λ cs. get_chars lib a (basic (letter a) (of_chars cs))) (c_str-NoZero s h)
      ∙ rw
          (
            arg_type-basic (letter a) (of_chars s),
            (==_iff (letter a) (letter a)).1 refl,
            basic_value-basic (letter a) (of_chars s) k,
            chars-of_chars s,
          )
          refl

  -- Something is written, and is read as `v`.
  abbrev pub Reads {ℓ} : {A : Type ℓ} → Option Item → (Item → Reading A) → A → Type ℓ
  Reads written reader v = (x : Item) × (written ≡ some x) × (reader x ≡ some (ok v))

  variant-Reads :
      (fuel : ℕ) (v : List Item)
      → Single v
      → AllBuilt lib fuel v
      → Reads (write_variant lib fuel v) (read_variant lib fuel) v
  unfolding write_variant read_variant
  variant-Reads fuel [] one h = absurd one
  variant-Reads fuel (x ∷ y ∷ v) one h = absurd one
  variant-Reads fuel (x ∷ []) one h = (
    container type_variant (lib.signature (x ∷ [])) (x ∷ []),
    rw (write_variant, copy_data-Built lib fuel (x ∷ []) [] h) refl,
    rw
        (
          read_variant,
          arg_type-container type_variant (lib.signature (x ∷ [])) (x ∷ []),
          contents-variant (lib.signature (x ∷ [])) x,
          copy_data-Built lib fuel (x ∷ []) [] h,
        )
        refl,
  )

  pub atom-Reads :
      (fuel : ℕ) (a : Atom) (v : AtomOf lib a)
      → ValidAtom lib fuel a v
      → Reads (write_atom lib fuel a v) (read_atom lib fuel a) v
  unfolding write_atom read_atom
  atom-Reads fuel boolean true h =
      (number_item lib boolean 1, refl, rw (get_number-number_item boolean 1 h) refl)
  atom-Reads fuel boolean false h =
      (number_item lib boolean 0, refl, rw (get_number-number_item boolean 0 h) refl)
  atom-Reads fuel string v (h, k) =
      (chars_item lib string v, refl, get_chars-chars_item string v h k)
  atom-Reads fuel path v (h, k) = (chars_item lib path v, refl, get_chars-chars_item path v h k)
  atom-Reads fuel signature v (h, k) =
      (chars_item lib signature v, refl, get_chars-chars_item signature v h k)
  atom-Reads fuel variant v (one, h) = variant-Reads fuel v one h
  atom-Reads fuel byte v h = (number_item lib byte v, refl, get_number-number_item byte v h)
  atom-Reads fuel int16 v h = (number_item lib int16 v, refl, get_number-number_item int16 v h)
  atom-Reads fuel uint16 v h = (number_item lib uint16 v, refl, get_number-number_item uint16 v h)
  atom-Reads fuel int32 v h = (number_item lib int32 v, refl, get_number-number_item int32 v h)
  atom-Reads fuel uint32 v h = (number_item lib uint32 v, refl, get_number-number_item uint32 v h)
  atom-Reads fuel int64 v h = (number_item lib int64 v, refl, get_number-number_item int64 v h)
  atom-Reads fuel uint64 v h = (number_item lib uint64 v, refl, get_number-number_item uint64 v h)
  atom-Reads fuel double v h = (number_item lib double v, refl, get_number-number_item double v h)
