-- ===== src/Introspection/Show.antt =====
-- The document of src/introspection.cpp as a tree, and its text.
use dbus_cplusplus.Common.{
  ◌≡◌, refl, ap, ◌∙◌, List, [], ◌∷◌, ◌++◌, append_assoc, Option, none, some, if◌then◌else◌, codes,
}
use dbus_cplusplus.Paths.{Bytes, child_nodes_from_prefix}
use dbus_cplusplus.Introspection.{
  IntrospectedArgument, IntrospectedMethod, IntrospectedProperty, IntrospectedInterface, each,
  access_of, write_property, write_name, write_argument, write_method, write_signal_argument,
  write_signal, write_interface, write_node, introspect,
}

-- An element that is empty, or has something in it: texts and elements.
mutual
  pub data Tree : Type 0 where
    leaf : Bytes → List (Bytes × Bytes) → Tree
    tag : Bytes → List (Bytes × Bytes) → Forest → Tree

  pub data Forest : Type 0 where
    nil : Forest
    chars : Bytes → Forest → Forest
    inner : Tree → Forest → Forest

unfoldable pub attributes : List (Bytes × Bytes) → Bytes
attributes [] = []
attributes ((key, value) ∷ attrs) = b' ' ∷ key ++ (b'=' ∷ b'"' ∷ value ++ (b'"' ∷ attributes attrs))

-- The text of a tree in XML.
unfoldable mutual
  unfolding attributes

  pub show : Tree → Bytes
  show (leaf name attrs) = b'<' ∷ name ++ (attributes attrs ++ (b'/' ∷ b'>' ∷ []))
  show (tag name attrs ts) =
      b'<' ∷ name
      ++ (attributes attrs ++ (b'>' ∷ show_all ts ++ (b'<' ∷ b'/' ∷ name ++ (b'>' ∷ []))))

  pub show_all : Forest → Bytes
  show_all nil = []
  show_all (chars t ts) = t ++ show_all ts
  show_all (inner t ts) = show t ++ show_all ts

-- An attribute that may be missing.
abbrev optional : Bytes → Option Bytes → List (Bytes × Bytes)
optional key none = []
optional key (some value) = (key, value) ∷ []

-- A list of trees, each after the same text, in front of others.
unfoldable pub forest {ℓ} : {A : Type ℓ} → Bytes → (A → Tree) → List A → Forest → Forest
forest before tree [] rest = rest
forest before tree (x ∷ xs) rest = chars before (inner (tree x) (forest before tree xs rest))

-- What is written for each of a list is the text of these trees.
show_all-forest {ℓ} :
    {A : Type ℓ} (before : Bytes) (tree : A → Tree) (write : A → Bytes)
    → ((x : A) → write x ≡ before ++ show (tree x))
    → (xs : List A) (rest : Forest)
    → show_all (forest before tree xs rest) ≡ each write xs ++ show_all rest
unfolding forest each show_all
show_all-forest before tree write h [] rest = refl
show_all-forest before tree write h (x ∷ xs) rest =
    rw (show_all-forest before tree write h xs rest, h x) (simp (append_assoc) refl)

abbrev property_tree : IntrospectedProperty → Tree
property_tree p =
    leaf (codes "property")
      ((codes "name", p.name) ∷ (codes "type", p.type) ∷ (codes "access", access_of p) ∷ [])

abbrev argument_tree : IntrospectedArgument → Tree
argument_tree a = leaf (codes "arg") (
    (codes "direction", if a.is_in then codes "in" else codes "out")
    ∷ (codes "type", a.type)
    ∷ optional (codes "name") a.name)

abbrev signal_argument_tree : IntrospectedArgument → Tree
signal_argument_tree a =
    leaf (codes "arg") ((codes "type", a.type) ∷ optional (codes "name") a.name)

show-property :
    (p : IntrospectedProperty) → write_property p ≡ codes "\n\t\t" ++ show (property_tree p)
unfolding write_property show attributes
show-property p = simp (append_assoc) refl

write_name-attributes :
    (name : Option Bytes) → write_name name ≡ attributes (optional (codes "name") name)
unfolding write_name attributes
write_name-attributes none = refl
write_name-attributes (some name) = refl

show-argument :
    (a : IntrospectedArgument) → write_argument a ≡ codes "\n\t\t\t" ++ show (argument_tree a)
unfolding write_argument show attributes
show-argument a = simp (append_assoc, write_name-attributes a.name) refl

show-signal_argument :
    (a : IntrospectedArgument) → write_signal_argument a ≡ [] ++ show (signal_argument_tree a)
unfolding write_signal_argument show attributes
show-signal_argument a = simp (append_assoc, write_name-attributes a.name) refl

abbrev method_tree : IntrospectedMethod → Tree
method_tree m =
    tag (codes "method") ((codes "name", m.name) ∷ [])
      (forest (codes "\n\t\t\t") argument_tree m.args (chars (codes "\n\t\t") nil))

abbrev signal_tree : IntrospectedMethod → Tree
signal_tree m =
    tag (codes "signal") ((codes "name", m.name) ∷ [])
      (forest [] signal_argument_tree m.args (chars (codes "\n\t\t") nil))

show-method : (m : IntrospectedMethod) → write_method m ≡ codes "\n\t\t" ++ show (method_tree m)
unfolding write_method show show_all attributes
show-method m =
    let args =
      show_all-forest (codes "\n\t\t\t") argument_tree write_argument show-argument m.args
        (chars (codes "\n\t\t") nil) in
    simp (append_assoc, args) refl

show-signal : (m : IntrospectedMethod) → write_signal m ≡ codes "\n\t\t" ++ show (signal_tree m)
unfolding write_signal show show_all attributes
show-signal m =
    let args =
      show_all-forest [] signal_argument_tree write_signal_argument show-signal_argument m.args
        (chars (codes "\n\t\t") nil) in
    simp (append_assoc, args) refl

abbrev interface_tree : IntrospectedInterface → Tree
interface_tree i = tag (codes "interface") ((codes "name", i.name) ∷ []) (
    forest (codes "\n\t\t") property_tree i.properties (
      forest (codes "\n\t\t") method_tree i.methods
        (forest (codes "\n\t\t") signal_tree i.signals (chars (codes "\n\t") nil))))

show-interface :
    (i : IntrospectedInterface) → write_interface (some i) ≡ codes "\n\t" ++ show (interface_tree i)
unfolding write_interface show show_all attributes
show-interface i =
    let last : Forest = chars (codes "\n\t") nil in
    let signals =
      show_all-forest (codes "\n\t\t") signal_tree write_signal show-signal i.signals last in
    let methods =
      show_all-forest (codes "\n\t\t") method_tree write_method show-method i.methods
        (forest (codes "\n\t\t") signal_tree i.signals last) in
    let properties =
      show_all-forest (codes "\n\t\t") property_tree write_property show-property i.properties (
        forest (codes "\n\t\t") method_tree i.methods
          (forest (codes "\n\t\t") signal_tree i.signals last)) in
    simp (append_assoc, properties, methods, signals) refl

-- The interfaces that can be introspected, in front of others.
unfoldable pub interfaces_forest : List (Option IntrospectedInterface) → Forest → Forest
interfaces_forest [] rest = rest
interfaces_forest (none ∷ is) rest = interfaces_forest is rest
interfaces_forest (some i ∷ is) rest =
    chars (codes "\n\t") (inner (interface_tree i) (interfaces_forest is rest))

each-null :
    (is : List (Option IntrospectedInterface))
    → each write_interface is ≡ each write_interface (none ∷ is)
unfolding each write_interface
each-null is = refl

show-interfaces :
    (is : List (Option IntrospectedInterface)) (rest : Forest)
    → show_all (interfaces_forest is rest) ≡ each write_interface is ++ show_all rest
unfolding interfaces_forest each show_all
show-interfaces [] rest = refl
show-interfaces (none ∷ is) rest =
    show-interfaces is rest ∙ ap (λ t. t ++ show_all rest) (each-null is)
show-interfaces (some i ∷ is) rest =
    rw (show-interfaces is rest, show-interface i) (simp (append_assoc) refl)

abbrev node_tree : Bytes → Tree
node_tree name = leaf (codes "node") ((codes "name", name) ∷ [])

show-node : (name : Bytes) → write_node name ≡ codes "\n\t" ++ show (node_tree name)
unfolding write_node show attributes
show-node name = simp (append_assoc) refl

-- The tree of the document: the node of the object, in it its interfaces, and a node for each part
-- that follows its path and a slash in the path of a registered object.
unfoldable pub document : Bytes → List (Option IntrospectedInterface) → List Bytes → Tree
unfolding forest interfaces_forest
document path interfaces paths = tag (codes "node") ((codes "name", path) ∷ []) (
    interfaces_forest interfaces (
      forest (codes "\n\t") node_tree (child_nodes_from_prefix (path ++ codes "/") paths)
        (chars (codes "\n") nil)))

-- What Introspect writes is the text of one tree in XML, in which every element is closed: the node
-- of the object, with its interfaces, their properties, methods and signals, and its child nodes.
pub introspect-show :
    (path : Bytes) (interfaces : List (Option IntrospectedInterface)) (paths : List Bytes)
    → introspect path interfaces paths ≡ show (document path interfaces paths)
unfolding introspect document show show_all attributes
introspect-show path interfaces paths =
    let below = child_nodes_from_prefix (path ++ codes "/") paths in
    let last : Forest = chars (codes "\n") nil in
    let nodes = show_all-forest (codes "\n\t") node_tree write_node show-node below last in
    let inside = show-interfaces interfaces (forest (codes "\n\t") node_tree below last) in
    simp (append_assoc, inside, nodes) refl
