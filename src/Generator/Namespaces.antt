-- ===== src/Generator/Namespaces.antt =====
-- The namespaces and the class for the name of an interface (tools/generate_adaptor.cpp and
-- tools/generate_proxy.cpp, which do the same). The stream `ss` is what is left to read of it.
use dbus_cplusplus.Common.{
  ℕ, zero, suc, [], ◌∷◌, ◌++◌, Option, none, some, length, ◌==◌, if◌then◌else◌, codes,
}
use dbus_cplusplus.Xml.{Bytes}
use dbus_cplusplus.Generator.Text.{text}

-- getline: what stands before the first delimiter, or all there is.
unfoldable pub line : ℕ → Bytes → Bytes
line delim [] = []
line delim (c ∷ ss) = if c == delim then [] else c ∷ line delim ss

-- ss.str().find('.', ss.tellg()): none, or what getline leaves behind the first one.
unfoldable pub after : ℕ → Bytes → Option Bytes
after delim [] = none
after delim (c ∷ ss) = if c == delim then some ss else after delim ss

-- The text so far, nspaces, and what is left of the stream.
pub record Scope : Type 0 where
  pub opened : Bytes
  pub nspaces : ℕ
  pub ss : Bytes

-- The loop over the namespaces, on fuel; each round reads at least one character.
unfoldable pub open_namespaces : ℕ → Scope → Scope
unfolding line after
open_namespaces zero s = s
open_namespaces (suc fuel) s = elim (after b'.' s.ss) [
  | none ↦ s
  | some rest ↦ open_namespaces fuel (record {
    opened = s.opened ++ text (codes "namespace " ∷ line b'.' s.ss ∷ codes " {\n" ∷ []);
    nspaces = suc s.nspaces;
    ss = rest;
  })
]

-- The loop for a name.
unfoldable pub namespaces_of : Bytes → Scope
unfolding open_namespaces
namespaces_of name = open_namespaces (length name) (record { opened = []; nspaces = 0; ss = name })

-- getline(ss, ifaceclass); ifaceclass += suffix;
unfoldable pub class_of : Bytes → Bytes → Bytes
unfolding line namespaces_of
class_of suffix name = line b'\n' ((namespaces_of name).ss) ++ suffix

-- The closing braces
unfoldable pub close_namespaces : ℕ → Bytes
close_namespaces zero = []
close_namespaces (suc nspaces) = codes "} " ++ close_namespaces nspaces
