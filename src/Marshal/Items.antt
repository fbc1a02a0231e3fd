-- ===== src/Marshal/Items.antt =====
-- A libdbus whose items are trees.
use dbus_cplusplus.Common.{
  ℕ, ltb, ◌&&◌, Bool, true, ◌≡◌, refl, ap, ◌==◌, List, [], ◌∷◌, if◌then◌else◌,
}
use dbus_cplusplus.Marshal.{Libdbus, Chars, type_invalid, type_dict_entry}

mutual
  pub data Item : Type 0 where
    number_item : ℕ → ℕ → Item
    chars_item : ℕ → Chars → Item
    container_item : ℕ → Chars → Items → Item

  pub data Items : Type 0 where
    nil : Items
    cons : Item → Items → Items

pub data Value : Type 0 where
  a_number : ℕ → Value
  a_text : Chars → Value

abbrev pub to_items : List Item → Items
to_items [] = nil
to_items (x ∷ xs) = cons x (to_items xs)

abbrev pub of_items : Items → List Item
of_items nil = []
of_items (cons x xs) = x ∷ of_items xs

pub of_items-to_items : (xs : List Item) → of_items (to_items xs) ≡ xs
of_items-to_items [] = refl
of_items-to_items (x ∷ xs) = ap (◌∷◌ x) (of_items-to_items xs)

abbrev pub basic : ℕ → Value → Item
basic c (a_number n) = number_item c n
basic c (a_text s) = chars_item c s

abbrev pub arg_type : Item → ℕ
arg_type (number_item c n) = c
arg_type (chars_item c s) = c
arg_type (container_item c s xs) = c

abbrev pub basic_value : Item → Value
basic_value (number_item c n) = a_number n
basic_value (chars_item c s) = a_text s
basic_value (container_item c s xs) = a_number 0

abbrev pub contents : Item → List Item
contents (container_item c s xs) = of_items xs
contents (number_item c n) = []
contents (chars_item c s) = []

abbrev pub inner_signature : Item → Chars
inner_signature (container_item c s xs) = s
inner_signature (number_item c n) = []
inner_signature (chars_item c s) = []

abbrev pub first_code : Chars → ℕ
first_code [] = type_invalid
first_code (c ∷ s) = if c == b'{' then type_dict_entry else c

abbrev pub element_type : Item → ℕ
element_type x = first_code (inner_signature x)

abbrev pub number : Value → ℕ
number (a_number n) = n
number (a_text s) = 0

abbrev pub chars : Value → Chars
chars (a_text s) = s
chars (a_number n) = []

abbrev pub numbers : List Item → List ℕ
numbers [] = []
numbers (x ∷ xs) = number (basic_value x) ∷ numbers xs

abbrev pub byte_items : List ℕ → List Item
byte_items [] = []
byte_items (n ∷ ns) = number_item b'y' n ∷ byte_items ns

pub numbers-byte_items : (ns : List ℕ) → numbers (byte_items ns) ≡ ns
numbers-byte_items [] = refl
numbers-byte_items (n ∷ ns) = ap (◌∷◌ n) (numbers-byte_items ns)

abbrev pub signature_of : List Item → Chars
signature_of [] = []
signature_of (x ∷ xs) = arg_type x ∷ []

-- These texts are of ASCII characters.
abbrev pub ascii : Chars → Bool
ascii [] = true
ascii (c ∷ s) = ltb c 128 && ascii s

abbrev pub accepts : ℕ → Value → Bool
accepts c (a_number n) = true
accepts c (a_text s) = ascii s

pub arg_type-basic : (c : ℕ) (v : Value) → arg_type (basic c v) ≡ c
arg_type-basic c (a_number n) = refl
arg_type-basic c (a_text s) = refl

pub basic_value-basic : (c : ℕ) (v : Value) → basic_value (basic c v) ≡ v
basic_value-basic c (a_number n) = refl
basic_value-basic c (a_text s) = refl

abbrev pub lib : Libdbus
lib = record {
  Value = Value;
  of_number = a_number;
  number = number;
  of_chars = a_text;
  chars = chars;
  number-of_number = λ n. refl;
  chars-of_chars = λ s. refl;
  Item = Item;
  basic = basic;
  container = λ c s xs. container_item c s (to_items xs);
  fixed_array = λ c ns. byte_items ns;
  invalid = number_item type_invalid 0;
  arg_type = arg_type;
  element_type = element_type;
  basic_value = basic_value;
  contents = contents;
  get_fixed_array = numbers;
  signature = signature_of;
  inner_signature = inner_signature;
  arg_type-invalid = refl;
  arg_type-basic = arg_type-basic;
  arg_type-container = λ c s xs. refl;
  element_type-bytes = λ s xs. refl;
  element_type-entries = λ s xs. refl;
  accepts = accepts;
  basic_value-basic = λ c v h. basic_value-basic c v;
  contents-container = λ c s xs h. of_items-to_items xs;
  contents-variant = λ s x. refl;
  inner_signature-array = λ s xs. refl;
  inner_signature-variant = λ s xs. refl;
  get_fixed_array-fixed_array = numbers-byte_items;
}
