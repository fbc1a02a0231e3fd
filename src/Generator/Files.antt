-- ===== src/Generator/Files.antt =====
-- What tools/generate_adaptor.cpp and tools/generate_proxy.cpp write around the classes: the guard
-- and the includes.
use dbus_cplusplus.Common.{Bool, ◌||◌, List, [], ◌∷◌, codes}
use dbus_cplusplus.Paths.{same, unique}
use dbus_cplusplus.Xml.{Bytes}
use dbus_cplusplus.Signature.Names.{underscorize}
use dbus_cplusplus.Generator.{Output}
use dbus_cplusplus.Generator.Text.{text, header, dbus_includes}

-- cond_comp; the suffix is that of the generator.
unfoldable pub cond_comp : Bytes → Bytes → Bytes
unfolding underscorize
cond_comp suffix filename = text (codes "__dbusxx__" ∷ underscorize filename ∷ suffix ∷ [])

-- These interface names are skipped.
unfoldable pub skipped : Bytes → Bool
skipped ifacename =
    same ifacename (codes "org.freedesktop.DBus.Introspectable")
    || same ifacename (codes "org.freedesktop.DBus.Properties")

-- The loop over the includes
unfoldable pub include_lines : List Bytes → Bytes
include_lines [] = []
include_lines (include ∷ includes) =
    text (codes "#include \"" ∷ include ∷ codes ".h\"\n" ∷ include_lines includes ∷ [])

-- What is written to the file: the head and the body
unfoldable pub file_of : Bytes → Output → Bytes
unfolding header dbus_includes unique include_lines
file_of guard out = text (
    header
    ∷ codes "#ifndef "
    ∷ guard
    ∷ codes "\n#define "
    ∷ guard
    ∷ codes "\n"
    ∷ dbus_includes
    ∷ include_lines (unique out.includes)
    ∷ codes "\n"
    ∷ out.body
    ∷ codes "#endif //"
    ∷ guard
    ∷ codes "\n"
    ∷ [])
