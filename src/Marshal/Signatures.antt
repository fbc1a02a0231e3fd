-- ===== src/Marshal/Signatures.antt =====
-- type<T>::sig() of include/dbus-c++/types.h against the signatures of the code generators.
use dbus_cplusplus.Common.{◌≡◌, refl, sym, ap, ◌∙◌, [], ◌∷◌, ◌++◌, append-nil, append_assoc, some}
use dbus_cplusplus.Signature.{Chars, signature_to_type}
use dbus_cplusplus.Signature.Types.{
  Tree, atom, array, dict, struct, Trees, last, also, letter, lead, spell, spells, cpp_types,
}
use dbus_cplusplus.Signature.Translate.{signature_to_type-spells}
use dbus_cplusplus.Marshal.Types.{sig, sigs}

mutual
  unfolding sig spell

  sig-spell : (t : Tree) (rest : Chars) → sig t ++ rest ≡ lead t ∷ spell t rest
  sig-spell (atom a) rest = refl
  sig-spell (array t) rest = ap (◌∷◌ b'a') (sig-spell t rest)
  sig-spell (dict k t) rest =
      ap (λ x. b'a' ∷ b'{' ∷ letter k ∷ x)
        (append_assoc (sig t) (b'}' ∷ []) rest ∙ sig-spell t (b'}' ∷ rest))
  sig-spell (struct ts) rest =
      ap (◌∷◌ b'(') (append_assoc (sigs ts) (b')' ∷ []) rest ∙ sigs-spells ts (b')' ∷ rest))

  sigs-spells : (ts : Trees) (rest : Chars) → sigs ts ++ rest ≡ spells ts rest
  sigs-spells (last t) rest = sig-spell t rest
  sigs-spells (also t ts) rest =
      append_assoc (sig t) (sigs ts) rest
      ∙ (sig-spell t (sigs ts ++ rest) ∙ ap (λ x. lead t ∷ spell t x) (sigs-spells ts rest))

-- The signature that the marshalling code gives to some types is one that the code generators
-- translate back to these types.
pub signature_to_type-sigs : (ts : Trees) → signature_to_type (sigs ts) ≡ some (cpp_types ts)
signature_to_type-sigs ts =
    ap signature_to_type (sym (append-nil (sigs ts)) ∙ sigs-spells ts [])
    ∙ signature_to_type-spells ts
