-- ===== src/Paths/Examples.antt =====
-- The child nodes of /a among /a/b/c, /a/b and /a, and those of the root.
use mathlib.Core.List.{Mem}
use dbus_cplusplus.Common.{◌≡◌, refl, List, [], ◌∷◌, ◌↔◌}
use dbus_cplusplus.Paths.{
  Bytes, child_nodes_from_prefix, parts_below, without_prefix, first_part, sort, insert, at_most,
  unique, unique_from, same,
}
use dbus_cplusplus.Paths.Order.{Ascending}
use dbus_cplusplus.Paths.Children.{Child, child_nodes_from_prefix_lem}

abbrev paths : List Bytes
paths =
    (b'/' ∷ b'a' ∷ b'/' ∷ b'c' ∷ [])
    ∷ (b'/' ∷ b'a' ∷ b'/' ∷ b'b' ∷ b'/' ∷ b'd' ∷ [])
    ∷ (b'/' ∷ b'a' ∷ b'/' ∷ b'b' ∷ [])
    ∷ (b'/' ∷ b'a' ∷ [])
    ∷ []

abbrev below_a : Bytes
below_a = b'/' ∷ b'a' ∷ b'/' ∷ []

children_of_a : child_nodes_from_prefix below_a paths ≡ (b'b' ∷ []) ∷ (b'c' ∷ []) ∷ []
unfolding child_nodes_from_prefix parts_below without_prefix first_part sort insert at_most unique
    unique_from same
children_of_a = refl

-- The prefix that introspection makes of the root's path has two slashes, and finds nothing.
children_of_root : child_nodes_from_prefix (b'/' ∷ b'/' ∷ []) paths ≡ []
unfolding child_nodes_from_prefix parts_below without_prefix sort unique
children_of_root = refl

child_nodes_from_prefix_lem_example :
    Ascending (child_nodes_from_prefix below_a paths)
    × ((name : Bytes)
        → Mem name (child_nodes_from_prefix below_a paths) ↔ ∥ Child below_a paths name ∥₁)
child_nodes_from_prefix_lem_example = child_nodes_from_prefix_lem below_a paths
