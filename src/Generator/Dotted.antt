-- ===== src/Generator/Dotted.antt =====
-- The namespaces of a class against the name of its interface (tools/generate_adaptor.cpp and
-- tools/generate_proxy.cpp).
use dbus_cplusplus.Common.{
  ℕ, zero, suc, ◌+◌, ◌≤◌, ◌<◌, ◌≡◌, refl, sym, ap, ap₂, ◌∙◌, inl, inr, List, [], ◌∷◌, ◌++◌,
  append-nil, append_assoc, none, some, length, ◌==◌, codes, arith, ==_iff, Bool-cases,
  Option-cases,
}
use dbus_cplusplus.Xml.{Bytes}
use dbus_cplusplus.Generator.Text.{text}
use dbus_cplusplus.Generator.Namespaces.{
  line, after, Scope, open_namespaces, namespaces_of, class_of, close_namespaces,
}

abbrev pub NoDot : Bytes → Type 0
NoDot part = after b'.' part ≡ none

abbrev pub NoDots : List Bytes → Type 0
NoDots [] = Unit {0}
NoDots (part ∷ parts) = NoDot part × NoDots parts

-- The parts and the rest with a dot after each part
unfoldable pub dotted : List Bytes → Bytes → Bytes
dotted [] rest = rest
dotted (part ∷ parts) rest = part ++ b'.' ∷ dotted parts rest

abbrev opening : Bytes → Bytes
opening part = text (codes "namespace " ∷ part ∷ codes " {\n" ∷ [])

-- The lines that open the namespaces
unfoldable pub openings : List Bytes → Bytes
openings [] = []
openings (part ∷ parts) = opening part ++ openings parts

-- A delimiter that is found splits the text.
line-after :
    (ss rest : Bytes)
    → after b'.' ss ≡ some rest
    → (ss ≡ line b'.' ss ++ b'.' ∷ rest) × NoDot (line b'.' ss) × (length rest < length ss)
unfolding line after
line-after [] rest h = absurd (cc)
line-after (c ∷ ss) rest h = elim (Bool-cases (c == b'.')) [
  | inl e ↦
      let same_rest : some ss ≡ some rest = simp e at h in
      let found : ss ≡ rest = cc in
      rw (line, e, found)
        ((ap (λ x. x ∷ rest) ((==_iff c b'.').0 e), refl, omega (arith, ap length found)))
  | inr e ↦
      let below : after b'.' ss ≡ some rest = simp e at h in
      let (split, no_dot, less) = line-after ss rest below in
      rw (line, e) (ap (◌∷◌ c) split, rw (after, e) no_dot, omega (arith, less))
]

scope_eq :
    {o p ss : Bytes} {m n : ℕ}
    → o ≡ p
    → m ≡ n
    → Path Scope
        (record { opened = o; nspaces = m; ss = ss })
        (record { opened = p; nspaces = n; ss = ss })
scope_eq {o} {p} {ss} e f = ap₂ (λ t k. record { opened = t; nspaces = k; ss = ss }) e f

run-dotted :
    (fuel n : ℕ) (opened ss : Bytes)
    → length ss ≤ fuel
    → (parts : List Bytes) × (rest : Bytes) × (dotted parts rest ≡ ss)
      × NoDots parts
      × NoDot rest
      × (open_namespaces fuel (record { opened = opened; nspaces = n; ss = ss })
          ≡ record { opened = opened ++ openings parts; nspaces = n + length parts; ss = rest })
unfolding dotted openings open_namespaces
run-dotted zero n opened [] h =
    ([], [], refl, tt, refl, scope_eq (sym (append-nil opened)) (omega arith))
run-dotted zero n opened (c ∷ ss) h = absurd (omega (arith, h))
run-dotted (suc fuel) n opened ss h = elim (Option-cases (after b'.' ss)) [
  | inl e ↦ (
    [],
    ss,
    refl,
    tt,
    e,
    rw (open_namespaces, e) (scope_eq (sym (append-nil opened)) (omega arith)),
  )
  | inr (rest, e) ↦
      let (split, no_dot, less) = line-after ss rest e in
      let (parts, final, whole, none_has, final_not, eq) =
        run-dotted fuel (suc n) (opened ++ opening (line b'.' ss)) rest (omega (arith, less)) in
      (
        line b'.' ss ∷ parts,
        final,
        ap (λ x. line b'.' ss ++ b'.' ∷ x) whole ∙ sym split,
        (no_dot, none_has),
        final_not,
        rw (open_namespaces, e)
            (eq
              ∙ scope_eq (append_assoc opened (opening (line b'.' ss)) (openings parts))
                  (omega arith)),
      )
]

-- A closing brace for each of the namespaces
unfoldable pub closings : List Bytes → Bytes
closings [] = []
closings (part ∷ parts) = b'}' ∷ b' ' ∷ closings parts

close_namespaces-closings : (parts : List Bytes) → close_namespaces (length parts) ≡ closings parts
unfolding close_namespaces closings
close_namespaces-closings [] = refl
close_namespaces-closings (part ∷ parts) =
    ap (λ rest. b'}' ∷ b' ' ∷ rest) (close_namespaces-closings parts)

-- The namespaces that are opened for an interface and the class in them are its name: with a dot
-- after each they make the name again, in which none of them has a dot; as many braces are closed
-- at the end of the class as namespaces were opened; and the class is called what follows the last
-- dot, up to a line's end, with the suffix.
pub namespaces_of-dotted :
    (suffix name : Bytes)
    → (parts : List Bytes) × (rest : Bytes) × (dotted parts rest ≡ name)
      × NoDots parts
      × NoDot rest
      × ((namespaces_of name).opened ≡ openings parts)
      × (close_namespaces (namespaces_of name).nspaces ≡ closings parts)
      × (class_of suffix name ≡ line b'\n' rest ++ suffix)
unfolding namespaces_of class_of
namespaces_of-dotted suffix name =
    let (parts, rest, whole, none_has, not_rest, e) =
      run-dotted (length name) 0 [] name (omega arith) in
    (
      parts,
      rest,
      whole,
      none_has,
      not_rest,
      ap (λ s. s.opened) e,
      ap (λ s. close_namespaces s.nspaces) (e ∙ scope_eq refl (omega arith))
          ∙ close_namespaces-closings parts,
      ap (λ s. line b'\n' s.ss ++ suffix) e,
    )
