-- ===== src/Signature/Translate.antt =====
-- signature_to_type (tools/generator_utils.cpp) against the types that signatures stand for.
use Prim.Native.String.{◌++◌}
use package.text.Mathlib.TextLemmas.{append_assoc, nil-append}
use dbus_cplusplus.Common.{
  ℕ, zero, suc, ◌<◌, ◌≤◌, ◌≡◌, refl, ap, true, false, String, [], ◌∷◌, some, arith, length, ◌==◌,
}
use dbus_cplusplus.Signature.{
  Chars, atomic_type_to_string, closes, continues, switch, advance, parse_signature,
  signature_to_type, atos, look_up,
}
use dbus_cplusplus.Signature.Types.{
  Atom, byte, boolean, int16, uint16, int32, uint32, int64, uint64, double, string, path, signature,
  variant, Tree, atom, array, dict, struct, Trees, last, also, letter, atom_name, lead, spell,
  spells, cpp_type, cpp_types,
}

-- The letter of a basic type is none of the characters that the parser treats apart.
letter_plain :
    (a : Atom)
    → (closes (letter a) ≡ false)
      × ((letter a == b'a') ≡ false)
      × ((letter a == b'(') ≡ false)
      × ((letter a == b'{') ≡ false)
      × (atomic_type_to_string (letter a) ≡ atom_name a)
unfolding atomic_type_to_string look_up atos
letter_plain byte = (refl, refl, refl, refl, refl)
letter_plain boolean = (refl, refl, refl, refl, refl)
letter_plain int16 = (refl, refl, refl, refl, refl)
letter_plain uint16 = (refl, refl, refl, refl, refl)
letter_plain int32 = (refl, refl, refl, refl, refl)
letter_plain uint32 = (refl, refl, refl, refl, refl)
letter_plain int64 = (refl, refl, refl, refl, refl)
letter_plain uint64 = (refl, refl, refl, refl, refl)
letter_plain double = (refl, refl, refl, refl, refl)
letter_plain string = (refl, refl, refl, refl, refl)
letter_plain path = (refl, refl, refl, refl, refl)
letter_plain signature = (refl, refl, refl, refl, refl)
letter_plain variant = (refl, refl, refl, refl, refl)

lead_opens : (t : Tree) → closes (lead t) ≡ false
lead_opens (atom a) = (letter_plain a).0
lead_opens (array t) = refl
lead_opens (dict k t) = refl
lead_opens (struct ts) = refl

lead_no_brace : (t : Tree) → (lead t == b'{') ≡ false
lead_no_brace (atom a) = (letter_plain a).3
lead_no_brace (array t) = refl
lead_no_brace (dict k t) = refl
lead_no_brace (struct ts) = refl

mutual
  unfolding spell spells

  length-spell : (t : Tree) (rest : Chars) → length rest ≤ length (spell t rest)
  length-spell (atom a) rest = omega arith
  length-spell (array t) rest = omega (arith, length-spell t rest)
  length-spell (dict k t) rest = omega (arith, length-spell t (b'}' ∷ rest))
  length-spell (struct ts) rest = omega (arith, length-spells ts (b')' ∷ rest))

  length-spells : (ts : Trees) (rest : Chars) → length rest ≤ length (spells ts rest)
  length-spells (last t) rest = omega (arith, length-spell t rest)
  length-spells (also t ts) rest =
      omega (arith, length-spell t (spells ts rest), length-spells ts rest)

continues-spells : (ts : Trees) (rest : Chars) → continues (spells ts rest) ≡ true
unfolding spells
continues-spells (last t) rest = rw (lead_opens t) refl
continues-spells (also t ts) rest = rw (lead_opens t) refl

-- The parser stops where the list ends.
parse_end :
    (n : ℕ) (rest : Chars) (type : String)
    → 0 < n
    → continues rest ≡ false
    → parse_signature n false rest type ≡ some (rest, type)
unfolding parse_signature
parse_end zero rest type h e = absurd (omega arith)
parse_end (suc n) [] type h e = refl
parse_end (suc n) (c ∷ rest) type h e = ground arith

-- What the switch does at the first character of a type.
Switched : ℕ → Tree → Chars → String → Type 0
Switched n t rest type =
    (l : ℕ) × (switch (parse_signature n) (lead t) (spell t rest) type
      ≡ some (l ∷ rest, type ++ cpp_type t))

atom-Switched : (n : ℕ) (a : Atom) (rest : Chars) (type : String) → Switched n (atom a) rest type
unfolding Switched switch spell cpp_type
atom-Switched n a rest type =
    let (_, no_array, no_struct, _, named) = letter_plain a in
    (letter a, rw (switch, no_array, no_struct, named) refl)

-- The list that a bracket or a brace closes.
Listed : ℕ → Trees → Chars → String → Type 0
Listed n ts rest type =
    parse_signature n false (spells ts rest) type ≡ some (rest, type ++ cpp_types ts)

struct-Switched :
    (n : ℕ) (ts : Trees) (rest : Chars) (type : String)
    → Listed n ts (b')' ∷ rest) (type ++ "::DBus::Struct< ")
    → Switched n (struct ts) rest type
unfolding Switched switch Listed spell cpp_type
struct-Switched n ts rest type inner = (b')', rw (inner, append_assoc, append_assoc) refl)

regroup :
    (t a b x c d : String) → ((t ++ (a ++ b)) ++ x) ++ (c ++ d) ≡ t ++ (a ++ ((b ++ (x ++ c)) ++ d))
regroup t a b x c d = simp append_assoc

array_of_struct :
    (n : ℕ) (ts : Trees) (rest : Chars) (type : String)
    → Listed n ts (b')' ∷ rest) (type ++ "std::vector< ::DBus::Struct< ")
    → Switched n (array (struct ts)) rest type
unfolding Switched switch Listed spell cpp_type
array_of_struct n ts rest type inner = (
  b')',
  rw inner (
      ap (λ x. some (b')' ∷ rest, x))
        (regroup type "std::vector< " "::DBus::Struct< " (cpp_types ts) " >" " >")),
)

-- An array of anything but a struct.
array-Switched :
    (n : ℕ) (t : Tree) (rest : Chars) (type : String)
    → (lead t == b'(') ≡ false
    → Switched n t rest (type ++ "std::vector< ")
    → Switched (suc n) (array t) rest type
unfolding Switched switch spell cpp_type parse_signature advance
array-Switched n t rest type no_struct (l, inner) = (
  l,
  rw
      (
        switch,
        lead_no_brace t,
        no_struct,
        parse_signature,
        lead_opens t,
        inner,
        append_assoc,
        append_assoc,
      )
      refl,
)

last-Listed :
    (n : ℕ) (t : Tree) (rest : Chars) (type : String)
    → 0 < n
    → continues rest ≡ false
    → Switched n t rest type
    → Listed (suc n) (last t) rest type
unfolding Switched Listed spells cpp_types parse_signature advance
last-Listed n t rest type h closed (l, inner) =
    rw (parse_signature, lead_opens t, inner, closed)
      (parse_end n rest (type ++ cpp_type t) h closed)

also-Listed :
    (n : ℕ) (t : Tree) (ts : Trees) (rest : Chars) (type : String)
    → Switched n t (spells ts rest) type
    → Listed n ts rest ((type ++ cpp_type t) ++ ", ")
    → Listed (suc n) (also t ts) rest type
unfolding Switched Listed spells cpp_types parse_signature advance
also-Listed n t ts rest type (l, inner) others =
    rw
      (
        parse_signature,
        lead_opens t,
        inner,
        continues-spells ts rest,
        others,
        append_assoc,
        append_assoc,
      )
      refl

dict-Switched :
    (n : ℕ) (k : Atom) (t : Tree) (rest : Chars) (type : String)
    → Listed n (also (atom k) (last t)) (b'}' ∷ rest) (type ++ "std::map< ")
    → Switched n (dict k t) rest type
unfolding Switched Listed switch spell spells cpp_type cpp_types
dict-Switched n k t rest type inner =
    (b'}', rw (inner, append_assoc, append_assoc, append_assoc, append_assoc) refl)

mutual
  unfolding spell spells

  item :
      (t : Tree) (n : ℕ) (rest : Chars) (type : String)
      → length (spell t rest) < n
      → Switched n t rest type
  item (atom a) n rest type h = atom-Switched n a rest type
  item (struct ts) n rest type h = struct-Switched n ts rest type (items ts n _ _ refl h)
  item (dict k t) zero rest type h = absurd (omega arith)
  item (dict k t) (suc zero) rest type h = absurd (omega arith)
  item (dict k t) (suc (suc n)) rest type h = dict-Switched (suc (suc n)) k t rest type (
      also-Listed (suc n) (atom k) (last t) _ _ (atom-Switched (suc n) k _ _)
        (last-Listed n t _ _ (omega arith) refl (item t n _ _ (omega arith))))
  item (array t) zero rest type h = absurd (omega arith)
  item (array (struct ts)) (suc n) rest type h =
      array_of_struct (suc n) ts rest type (items ts (suc n) _ _ refl (omega arith))
  item (array (atom a)) (suc n) rest type h =
      array-Switched n (atom a) rest type ((letter_plain a).2) (atom-Switched n a rest _)
  item (array (array t)) (suc n) rest type h =
      array-Switched n (array t) rest type refl (item (array t) n rest _ (omega arith))
  item (array (dict k t)) (suc n) rest type h =
      array-Switched n (dict k t) rest type refl (item (dict k t) n rest _ (omega arith))

  items :
      (ts : Trees) (n : ℕ) (rest : Chars) (type : String)
      → continues rest ≡ false
      → length (spells ts rest) < n
      → Listed n ts rest type
  items ts zero rest type closed h = absurd (omega arith)
  items (last t) (suc n) rest type closed h =
      last-Listed n t rest type (omega arith) closed (item t n rest type (omega arith))
  items (also t ts) (suc n) rest type closed h =
      also-Listed n t ts rest type (item t n (spells ts rest) type (omega arith))
        (items ts n rest _ closed (omega (arith, length-spell t (spells ts rest))))

-- The translation of a signature that is the spelling of one or more types is the C++ types of
-- these, with a comma between any two, at every depth of nesting.
pub signature_to_type-spells : (ts : Trees) → signature_to_type (spells ts []) ≡ some (cpp_types ts)
unfolding signature_to_type Listed
signature_to_type-spells ts =
    rw
      (
        signature_to_type,
        items ts (suc (length (spells ts []))) [] "" refl (omega arith),
        nil-append,
      )
      refl
