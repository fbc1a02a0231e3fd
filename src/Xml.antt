-- ===== src/Xml.antt =====
-- tools/xml.cpp: the XML document that the code generators read. A text is the list of its bytes.
-- Expat is not modelled: the handlers are run on the events that it reports.
pub mod Attributes
pub mod Document
pub mod Build
pub mod Print
mod Examples
use dbus_cplusplus.Common.{
  ℕ, zero, suc, ◌+◌, Bool, true, false, ◌&&◌, not, List, [], ◌∷◌, ◌++◌, Option, none, some, ◌==◌,
  if◌then◌else◌,
}
use dbus_cplusplus.Paths.{same, at_most}

abbrev pub Bytes : Type 0
Bytes = List ℕ

-- Node::Attributes, in the order of its keys
abbrev pub Attributes : Type 0
Attributes = List (Bytes × Bytes)

-- _attrs[key] = value
unfoldable pub assign : Bytes → Bytes → Attributes → Attributes
assign key value [] = (key, value) ∷ []
assign key value ((k, v) ∷ attrs) =
    if same k key
    then (k, value) ∷ attrs
    else if at_most key k
    then (key, value) ∷ (k, v) ∷ attrs
    else (k, v) ∷ assign key value attrs

unfoldable pub find : Bytes → Attributes → Option Bytes
find key [] = none
find key ((k, v) ∷ attrs) = if same k key then some v else find key attrs

-- _attrs.erase(key)
unfoldable pub erase : Bytes → Attributes → Attributes
erase key [] = []
erase key ((k, v) ∷ attrs) = if same k key then attrs else (k, v) ∷ erase key attrs

-- The name, the attributes, the character data and the children.
mutual
  pub data Node : Type 0 where
    node : Bytes → Attributes → Bytes → Nodes → Node

  pub data Nodes : Type 0 where
    nil : Nodes
    cons : Node → Nodes → Nodes

unfoldable pub assign_all : List (Bytes × Bytes) → Attributes → Attributes
unfolding assign
assign_all [] attrs = attrs
assign_all ((k, v) ∷ a) attrs = assign_all a (assign k v attrs)

-- Node::Node: the attributes come in pairs.
unfoldable pub new_node : Bytes → List (Bytes × Bytes) → Node
unfolding assign_all
new_node name atts = node name (assign_all atts []) [] nil

abbrev pub name_of : Node → Bytes
name_of (node name attrs cdata children) = name

abbrev pub children_of : Node → Nodes
children_of (node name attrs cdata children) = children

-- children.push_back(child)
unfoldable pub push_back : Nodes → Node → Nodes
push_back nil child = cons child nil
push_back (cons x xs) child = cons x (push_back xs child)

-- Node::add
unfoldable pub add : Node → Node → Node
unfolding push_back
add child (node name attrs cdata children) = node name attrs cdata (push_back children child)

-- Node::get
unfoldable pub get : Bytes → Node → Bytes
unfolding find
get attribute (node name attrs cdata children) = elim (find attribute attrs) [
  | some value ↦ value
  | none ↦ []
]

-- Node::set
unfoldable pub set : Bytes → Bytes → Node → Node
unfolding assign erase
set attribute [] (node name attrs cdata children) = node name (erase [] attrs) cdata children
set attribute (c ∷ value) (node name attrs cdata children) =
    node name (assign attribute (c ∷ value) attrs) cdata children

-- Node::operator[]
unfoldable pub named : Bytes → Nodes → List Node
named key nil = []
named key (cons x xs) = if same (name_of x) key then x ∷ named key xs else named key xs

unfoldable pub children_named : Bytes → Node → List Node
unfolding named
children_named [] n = []
children_named (c ∷ key) n = named (c ∷ key) (children_of n)

-- Nodes::operator[] and Nodes::select
unfoldable pub all_named : Bytes → List Node → List Node
unfolding children_named
all_named key [] = []
all_named key (n ∷ ns) = children_named key n ++ all_named key ns

unfoldable pub select : Bytes → Bytes → List Node → List Node
unfolding get
select attr value [] = []
select attr value (n ∷ ns) =
    if same (get attr n) value then n ∷ select attr value ns else select attr value ns
