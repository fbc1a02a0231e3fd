-- ===== src/Paths.antt =====
-- src/object.cpp: the table of local objects by path, and the nodes below a path. A text is the list
-- of its bytes; the table is the list of the paths that are registered, in any order.
pub mod Order
pub mod Children
mod Examples
use dbus_cplusplus.Common.{
  ℕ, Bool, true, false, List, [], ◌∷◌, ◌++◌, Option, none, some, ltb, ◌==◌, if◌then◌else◌,
}

abbrev pub Bytes : Type 0
Bytes = List ℕ

-- a == b, for std::string
unfoldable pub same : Bytes → Bytes → Bool
same [] [] = true
same [] (y ∷ ys) = false
same (x ∷ xs) [] = false
same (x ∷ xs) (y ∷ ys) = if x == y then same xs ys else false

-- !(b < a), for std::string
unfoldable pub at_most : Bytes → Bytes → Bool
at_most [] ys = true
at_most (x ∷ xs) [] = false
at_most (x ∷ xs) (y ∷ ys) = if ltb x y then true else if x == y then at_most xs ys else false

-- !strncmp(path, prefix, plen), and then path.substr(plen)
unfoldable pub without_prefix : Bytes → Bytes → Option Bytes
without_prefix [] path = some path
without_prefix (c ∷ prefix) [] = none
without_prefix (c ∷ prefix) (d ∷ path) = if d == c then without_prefix prefix path else none

-- p.substr(0, p.find('/'))
unfoldable pub first_part : Bytes → Bytes
first_part [] = []
first_part (c ∷ p) = if c == b'/' then [] else c ∷ first_part p

-- ObjectAdaptor::from_path_prefix
unfoldable pub from_path_prefix : Bytes → List Bytes → List Bytes
unfolding without_prefix
from_path_prefix prefix [] = []
from_path_prefix prefix (path ∷ paths) = elim (without_prefix prefix path) [
  | none ↦ from_path_prefix prefix paths
  | some p ↦ path ∷ from_path_prefix prefix paths
]

-- The loop of child_nodes_from_prefix
unfoldable pub parts_below : Bytes → List Bytes → List Bytes
unfolding without_prefix first_part
parts_below prefix [] = []
parts_below prefix (path ∷ paths) = elim (without_prefix prefix path) [
  | none ↦ parts_below prefix paths
  | some p ↦ first_part p ∷ parts_below prefix paths
]

-- ali.sort()
unfoldable pub insert : Bytes → List Bytes → List Bytes
unfolding at_most
insert x [] = x ∷ []
insert x (y ∷ ys) = if at_most x y then x ∷ y ∷ ys else y ∷ insert x ys

unfoldable pub sort : List Bytes → List Bytes
unfolding insert
sort [] = []
sort (x ∷ xs) = insert x (sort xs)

-- ali.unique(): of equal neighbours the first stays.
unfoldable pub unique_from : Bytes → List Bytes → List Bytes
unfolding same
unique_from x [] = x ∷ []
unique_from x (y ∷ ys) = if same x y then unique_from x ys else x ∷ unique_from y ys

unfoldable pub unique : List Bytes → List Bytes
unfolding unique_from
unique [] = []
unique (x ∷ xs) = unique_from x xs

-- ObjectAdaptor::child_nodes_from_prefix
unfoldable pub child_nodes_from_prefix : Bytes → List Bytes → List Bytes
unfolding parts_below sort unique
child_nodes_from_prefix prefix paths = unique (sort (parts_below prefix paths))
