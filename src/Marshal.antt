-- ===== src/Marshal.antt =====
-- MessageIter of src/message.cpp over libdbus, whose messages are a parameter. An iterator that
-- appends is the list of the items appended so far; one that reads is the list of the items from
-- its position on. A container is opened, filled and closed as one item.
pub mod Types
pub mod Write
pub mod Read
pub mod Valid
pub mod Copy
pub mod Atoms
pub mod RoundTrip
pub mod Signatures
pub mod Mismatch
pub mod Items
mod Examples
use dbus_cplusplus.Common.{
  ℕ, zero, suc, ◌≡◌, ◌≤◌, ◌<◌, Bool, true, false, ◌&&◌, ◌||◌, String, List, [], ◌∷◌, ◌++◌, map,
  Option, none, some, ◌==◌, if◌then◌else◌, max,
}
use dbus_cplusplus.Interface.{Result, ok, err}

abbrev pub Chars : Type 0
Chars = List ℕ

-- DBUS_TYPE_INVALID, and the containers of dbus-protocol.h
abbrev pub type_invalid : ℕ
type_invalid = 0

abbrev pub type_array : ℕ
type_array = b'a'

abbrev pub type_variant : ℕ
type_variant = b'v'

abbrev pub type_struct : ℕ
type_struct = b'r'

abbrev pub type_dict_entry : ℕ
type_dict_entry = b'e'

-- is_basic_type
unfoldable pub is_basic_type : ℕ → Bool
is_basic_type c =
    c == b'y'
    || c == b'b'
    || c == b'n'
    || c == b'q'
    || c == b'i'
    || c == b'u'
    || c == b'x'
    || c == b't'
    || c == b'd'
    || c == b's'
    || c == b'o'
    || c == b'g'

-- What the code relies on of libdbus: an item of a message gives back what it was made of, if it is
-- one that the protocol has. `Value` is the memory of one basic value, a number or a pointer to
-- characters. Memory, and the sizes of arrays and messages, are taken to suffice.
pub record Libdbus : Type 1 where
  pub Value : Type 0
  pub of_number : ℕ → Value
  pub number : Value → ℕ
  pub of_chars : Chars → Value
  pub chars : Value → Chars
  pub number-of_number : (n : ℕ) → number (of_number n) ≡ n
  pub chars-of_chars : (s : Chars) → chars (of_chars s) ≡ s
  -- Whether a value may be appended as one of a type: a number that the type has, text in UTF-8, a
  -- valid object path, a valid signature.
  pub accepts : ℕ → Value → Bool
  pub Item : Type 0
  -- dbus_message_iter_append_basic, and open_container to close_container with a signature (empty
  -- for NULL); append_fixed_array
  pub basic : ℕ → Value → Item
  pub container : ℕ → Chars → List Item → Item
  pub fixed_array : ℕ → List ℕ → List Item
  -- dbus_message_iter_get_arg_type, get_element_type, get_basic, recurse and get_fixed_array. At
  -- the end of a list the iterator is at `invalid`.
  pub invalid : Item
  pub arg_type : Item → ℕ
  pub element_type : Item → ℕ
  pub basic_value : Item → Value
  pub contents : Item → List Item
  pub get_fixed_array : List Item → List ℕ
  -- dbus_message_iter_get_signature of a list, and of the list inside a container
  pub signature : List Item → Chars
  pub inner_signature : Item → Chars
  pub arg_type-invalid : arg_type invalid ≡ type_invalid
  pub arg_type-basic : (c : ℕ) (v : Value) → arg_type (basic c v) ≡ c
  pub arg_type-container : (c : ℕ) (s : Chars) (xs : List Item) → arg_type (container c s xs) ≡ c
  pub element_type-bytes :
      (s : Chars) (xs : List Item) → element_type (container type_array (b'y' ∷ s) xs) ≡ b'y'
  pub element_type-entries :
      (s : Chars) (xs : List Item)
      → element_type (container type_array (b'{' ∷ s) xs) ≡ type_dict_entry
  pub basic_value-basic : (c : ℕ) (v : Value) → accepts c v ≡ true → basic_value (basic c v) ≡ v
  -- A variant has one item, the other containers have any number.
  pub contents-container :
      (c : ℕ) (s : Chars) (xs : List Item)
      → (c == type_variant) ≡ false
      → contents (container c s xs) ≡ xs
  pub contents-variant :
      (s : Chars) (x : Item) → contents (container type_variant s (x ∷ [])) ≡ x ∷ []
  pub inner_signature-array :
      (s : Chars) (xs : List Item) → inner_signature (container type_array s xs) ≡ s
  pub inner_signature-variant :
      (s : Chars) (xs : List Item) → inner_signature (container type_variant s xs) ≡ s
  pub get_fixed_array-fixed_array : (ns : List ℕ) → get_fixed_array (fixed_array b'y' ns) ≡ ns

abbrev pub invalid_args : String
invalid_args = "org.freedesktop.DBus.Error.InvalidArgs"

module _ (lib : Libdbus) where
  open lib use {
    Value, Item, basic, container, invalid, arg_type, element_type, basic_value, contents,
    inner_signature,
  }

  -- Where a reading iterator stands.
  abbrev pub current : List Item → Item
  current [] = invalid
  current (x ∷ xs) = x

  -- MessageIter::get_basic
  unfoldable pub get_basic : ℕ → Item → Result Value
  get_basic type_id x =
      if arg_type x == type_id then ok (basic_value x) else err invalid_args "type mismatch"

  -- MessageIter::is_array
  unfoldable pub is_array : Item → Bool
  is_array x = arg_type x == type_array

  -- MessageIter::is_dict
  unfoldable pub is_dict : Item → Bool
  unfolding is_array
  is_dict x = is_array x && element_type x == type_dict_entry

  -- The signature that copy_data opens a container with.
  abbrev pub opened_with : Item → Chars
  opened_with x =
      if arg_type x == type_variant || arg_type x == type_array then inner_signature x else []

  -- The loop of MessageIter::copy_data, with the body as an argument: what is left of `from`, and
  -- what has been appended.
  unfoldable pub copy_loop : (Item → Option Item) → List Item → List Item → Option (List Item)
  copy_loop copy [] to = some to
  copy_loop copy (x ∷ from) to = elim (copy x) [
    | none ↦ none
    | some y ↦ copy_loop copy from (to ++ y ∷ [])
  ]

  -- The body, on fuel for the depth of containers: `none` is for too little of it.
  unfoldable pub copy_item : ℕ → Item → Option Item
  unfolding copy_loop
  copy_item zero x = none
  copy_item (suc fuel) x =
      if is_basic_type (arg_type x)
      then some (basic (arg_type x) (basic_value x))
      else elim (copy_loop (copy_item fuel) (contents x) []) [
        | none ↦ none
        | some inside ↦ some (container (arg_type x) (opened_with x) inside)
      ]

  -- MessageIter::copy_data
  unfoldable pub copy_data : ℕ → List Item → List Item → Option (List Item)
  unfolding copy_item copy_loop
  copy_data fuel from to = copy_loop (copy_item fuel) from to
