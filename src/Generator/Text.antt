-- ===== src/Generator/Text.antt =====
-- The texts of tools/generator_utils.cpp, and what tools/generate_adaptor.cpp and
-- tools/generate_proxy.cpp use of the standard streams and strings.
use dbus_cplusplus.Common.{
  ℕ, zero, suc, ◌+◌, ◌/◌, ◌%◌, Bool, true, false, ◌&&◌, ◌||◌, List, [], ◌∷◌, ◌++◌, ltb, ◌==◌,
  if◌then◌else◌, codes,
}
use dbus_cplusplus.Xml.{Bytes, Node}

unfoldable pub tab : Bytes
tab = codes "    "

unfoldable pub header : Bytes
header =
    codes "\n/*\n *\tThis file was automatically generated by dbusxx-xml2cpp; DO NOT EDIT!\n */\n\n"

unfoldable pub dbus_includes : Bytes
dbus_includes = codes "\n#include <dbus-c++/dbus.h>\n#include <cassert>\n"

-- The texts of one chain of <<, one after the other.
abbrev pub text : List Bytes → Bytes
text [] = []
text (t ∷ ts) = t ++ text ts

-- What a loop writes, whose body writes a text for each node.
abbrev pub each : (Node → Bytes) → List Node → Bytes
each write [] = []
each write (n ∷ ns) = write n ++ each write ns

-- The same with a counter.
abbrev pub each_from : (ℕ → Node → Bytes) → ℕ → List Node → Bytes
each_from write i [] = []
each_from write i (n ∷ ns) = write i n ++ each_from write (suc i) ns

-- A number in decimal, on fuel for its digits; a number has fewer of them than it counts.
unfoldable pub digits : ℕ → ℕ → Bytes
digits zero n = []
digits (suc fuel) n =
    let higher = digits fuel (n / 10) in
    if ltb n 10 then (b'0' + n) ∷ [] else higher ++ ((b'0' + n % 10) ∷ [])

unfoldable pub decimal : ℕ → Bytes
unfolding digits
decimal n = digits (suc n) n

unfoldable pub starts_with : Bytes → Bytes → Bool
starts_with [] str = true
starts_with (p ∷ part) [] = false
starts_with (p ∷ part) (c ∷ str) = p == c && starts_with part str

-- str.find(part) != string::npos
unfoldable pub contains : Bytes → Bytes → Bool
unfolding starts_with
contains part [] = starts_with part []
contains part (c ∷ str) = starts_with part (c ∷ str) || contains part str

-- "true" or "false"
abbrev pub boolean : Bool → Bytes
boolean true = codes "true"
boolean false = codes "false"
