-- ===== src/Signature/Total.antt =====
-- The loops of _parse_signature (tools/generator_utils.cpp) end on every text, a signature or not.
use Prim.Native.String.{◌++◌}
use dbus_cplusplus.Common.{
  ℕ, zero, suc, ◌<◌, ◌≤◌, ◌≡◌, refl, Bool, true, false, String, [], ◌∷◌, some, arith, length, drop,
  length-drop, ◌==◌, if◌then◌else◌, Bool-cases, inl, inr,
}
use dbus_cplusplus.Signature.{
  Chars, char_at, atomic_type_to_string, closes, continues, Parsed, append, switch, advance,
  parse_signature, signature_to_type,
}

-- A result that leaves at most so many characters.
IsEnded : Parsed → ℕ → Type 0
IsEnded parsed bound =
    (rest : Chars) × (type : String) × (parsed ≡ some (rest, type)) × (length rest ≤ bound)

append-IsEnded :
    (parsed : Parsed) (more : String) (b d : ℕ)
    → b ≤ d
    → IsEnded parsed b
    → IsEnded (append parsed more) d
unfolding IsEnded
append-IsEnded parsed more b d h (rest, type, e, k) =
    (rest, type ++ more, rw e refl, omega (arith, h, k))

Ends : ℕ → Type 0
Ends n =
    (only_once : Bool) (rest : Chars) (type : String)
    → length rest < n
    → IsEnded (parse_signature n only_once rest type) (length rest)

switch-IsEnded :
    (n c : ℕ) (rest : Chars) (type : String)
    → Ends n
    → length rest < n
    → IsEnded (switch (parse_signature n) c rest type) (suc (length rest))
unfolding switch Ends IsEnded
switch-IsEnded n c rest type ends h = elim (Bool-cases (c == b'a')) [
  | inl array ↦ elim (Bool-cases (char_at rest == b'{')) [
    | inl brace ↦ rw (switch, array, brace) (inside " >" _)
    | inr no_brace ↦ elim (Bool-cases (char_at rest == b'(')) [
      | inl bracket ↦ rw (switch, array, no_brace, bracket) (inside " > >" _)
      | inr atom ↦
          rw (switch, array, no_brace, atom)
            (append-IsEnded _ " >" (length rest) _ (omega arith) (ends true rest _ h))
    ]
  ]
  | inr no_array ↦ elim (Bool-cases (c == b'(')) [
    | inl bracket ↦
        rw (switch, no_array, bracket)
          (append-IsEnded _ " >" (length rest) _ (omega arith) (ends false rest _ h))
    | inr atom ↦ rw (switch, no_array, atom) (at_once (type ++ atomic_type_to_string c))
  ]
]
  where
    inside :
        (more text : String)
        → IsEnded (append (parse_signature n false (drop 1 rest) text) more) (suc (length rest))
    inside more text =
        append-IsEnded _ more (length (drop 1 rest)) _ (omega (arith, length-drop 1 rest))
          (ends false (drop 1 rest) text (omega (arith, length-drop 1 rest)))

    at_once : (t : String) → IsEnded (some (c ∷ rest, t)) (suc (length rest))
    at_once t = (c ∷ rest, t, refl, omega arith)

advance-IsEnded :
    (n b : ℕ) (only_once : Bool) (parsed : Parsed)
    → Ends n
    → b < n
    → IsEnded parsed (suc b)
    → IsEnded (advance (parse_signature n false) only_once parsed) (suc b)
unfolding advance IsEnded Ends
advance-IsEnded n b true parsed ends h (rest, type, e, k) = (rest, type, rw e refl, k)
advance-IsEnded n b false parsed ends h (rest, type, e, k) =
    let (rest', type', e', k') =
      ends false (drop 1 rest) (if continues (drop 1 rest) then type ++ ", " else type)
        (omega (arith, length-drop 1 rest)) in
    (rest', type', rw e e', omega (arith, length-drop 1 rest))

parse_signature-IsEnded : (n : ℕ) → Ends n
unfolding Ends parse_signature IsEnded
parse_signature-IsEnded zero only_once rest type h = absurd (omega arith)
parse_signature-IsEnded (suc n) only_once [] type h = at_end
  where
    at_end : IsEnded (some ([], type)) 0
    at_end = ([], type, refl, omega arith)
parse_signature-IsEnded (suc n) only_once (c ∷ rest) type h = elim (Bool-cases (closes c)) [
  | inl k ↦ rw (parse_signature, k) here
  | inr k ↦
      rw (parse_signature, k)
        (advance-IsEnded n (length rest) only_once _ (parse_signature-IsEnded n) (omega arith)
          (switch-IsEnded n c rest type (parse_signature-IsEnded n) (omega arith)))
]
  where
    here : IsEnded (some (c ∷ rest, type)) (suc (length rest))
    here = (c ∷ rest, type, refl, omega arith)

-- signature_to_type gives a type for every text: the fuel, one more than the length of the text, is
-- always enough. (So the text need not be a signature: nothing is refused as invalid.)
pub signature_to_type_total :
    (text : Chars) → (type : String) × (signature_to_type text ≡ some type)
unfolding signature_to_type Ends IsEnded
signature_to_type_total text =
    let (rest, type, e, k) =
      parse_signature-IsEnded (suc (length text)) false text "" (omega arith) in
    (type, rw (signature_to_type, e) refl)
