-- ===== src/Signature/Names.antt =====
-- stub_name and underscorize (tools/generator_utils.cpp): names that C++ accepts.
use dbus_cplusplus.Common.{
  ℕ, ◌+◌, ◌≡◌, refl, Bool, true, not, ◌||◌, ◌&&◌, [], ◌∷◌, ◌++◌, arith, length, leb, ◌==◌,
  if◌then◌else◌, length-append,
}
use dbus_cplusplus.Signature.{Chars}

-- isalpha and isdigit of the C locale
abbrev pub is_alpha : ℕ → Bool
is_alpha c = (leb b'A' c && leb c b'Z') || (leb b'a' c && leb c b'z')

abbrev pub is_digit : ℕ → Bool
is_digit c = leb b'0' c && leb c b'9'

unfoldable pub underscorize : Chars → Chars
underscorize [] = []
underscorize (c ∷ str) =
    (if not (is_alpha c) && not (is_digit c) then b'_' else c) ∷ underscorize str

unfoldable pub stub_name : Chars → Chars
unfolding underscorize
stub_name name = b'_' ∷ (underscorize name ++ b'_' ∷ b's' ∷ b't' ∷ b'u' ∷ b'b' ∷ [])

abbrev pub is_name_char : ℕ → Bool
is_name_char c = is_alpha c || is_digit c || c == b'_'

abbrev pub AllNameChars : Chars → Type 0
AllNameChars [] = Unit {0}
AllNameChars (c ∷ cs) = (is_name_char c ≡ true) × AllNameChars cs

-- A name in C++: letters, digits and underscores, and a letter or an underscore first.
abbrev pub IsName : Chars → Type 0
IsName [] = ⊥
IsName (c ∷ cs) = ((is_alpha c || c == b'_') ≡ true) × AllNameChars cs

underscorize-append :
    (str more : Chars) → AllNameChars more → AllNameChars (underscorize str ++ more)
unfolding underscorize
underscorize-append [] more h = h
underscorize-append (c ∷ str) more h = (ground arith, underscorize-append str more h)

length-underscorize : (str : Chars) → length (underscorize str) ≡ length str
unfolding underscorize
length-underscorize [] = refl
length-underscorize (c ∷ str) = omega (arith, length-underscorize str)

-- The stub of any method is a name that C++ accepts, six characters longer than the method's.
pub stub_name-IsName :
    (name : Chars) → IsName (stub_name name) × (length (stub_name name) ≡ length name + 6)
unfolding stub_name
stub_name-IsName name = (
  (
    refl,
    underscorize-append name (b'_' ∷ b's' ∷ b't' ∷ b'u' ∷ b'b' ∷ [])
        (refl, (refl, (refl, (refl, (refl, tt))))),
  ),
  omega (
    arith,
    length-append (underscorize name) (b'_' ∷ b's' ∷ b't' ∷ b'u' ∷ b'b' ∷ []),
    length-underscorize name,
  ),
)
