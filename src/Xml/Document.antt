-- ===== src/Xml/Document.antt =====
-- Document and its expat handlers (tools/xml.cpp).
use dbus_cplusplus.Common.{
  ℕ, zero, suc, Bool, ◌&&◌, ◌||◌, List, [], ◌∷◌, Option, none, some, ◌==◌, if◌then◌else◌, take,
  drop, leb,
}
use dbus_cplusplus.Xml.{Bytes, Node, node, Nodes, nil, cons, new_node, add}

pub record Document : Type 0 where
  pub root : Option Node
  pub depth : ℕ

-- What expat reports. With character data come the bytes from `chars` to the next 0 in memory,
-- which go beyond the data, and the data's length.
pub data Event : Type 0 where
  start_element : Bytes → List (Bytes × Bytes) → Event
  character_data : Bytes → ℕ → Event
  end_element : Event

abbrev pub one_less : ℕ → ℕ
one_less zero = 0
one_less (suc n) = n

abbrev pub map_option {ℓ κ} : {A : Type ℓ} {B : Type κ} → (A → B) → Option A → Option B
map_option f none = none
map_option f (some a) = some (f a)

-- children.back(): `none` is for no children.
unfoldable pub on_back : (Node → Option Node) → Nodes → Option Nodes
on_back f nil = none
on_back f (cons x nil) = map_option (λ y. cons y nil) (f x)
on_back f (cons x (cons y ys)) = map_option (cons x) (on_back f (cons y ys))

unfoldable pub last_child : (Node → Option Node) → Node → Option Node
unfolding on_back
last_child f (node name attrs cdata children) =
    map_option (node name attrs cdata) (on_back f children)

-- for (int i = 1; i < doc->_depth; ++i) nod = &(nod->children.back());
unfoldable pub descend : ℕ → (Node → Option Node) → Node → Option Node
unfolding last_child
descend zero f n = f n
descend (suc steps) f n = last_child (descend steps f) n

abbrev pub set_cdata : Bytes → Node → Node
set_cdata text (node name attrs cdata children) = node name attrs text children

-- isspace of the C locale
abbrev pub isspace : ℕ → Bool
isspace c = c == 32 || (leb 9 c && leb c 13)

abbrev pub at : ℕ → Bytes → ℕ
at i [] = 0
at zero (c ∷ cs) = c
at (suc i) (c ∷ cs) = at i cs

-- while (isspace(chars[y]) && y > 0) --y;
unfoldable pub back_over : Bytes → ℕ → ℕ
back_over chars zero = 0
back_over chars (suc y) =
    let rest = back_over chars y in if isspace (at (suc y) chars) then rest else suc y

-- while (isspace(chars[x]) && x < y) ++x; with `left` steps to y
unfoldable pub on_over : Bytes → ℕ → ℕ → ℕ
on_over chars x zero = x
on_over chars x (suc left) =
    let rest = on_over chars (suc x) left in if isspace (at x chars) then rest else x

-- The character data that the handler stores: y + 1 bytes from x on.
unfoldable pub stored : Bytes → ℕ → Bytes
unfolding back_over on_over
stored chars len =
    let y = back_over chars (one_less len) in
    let x = on_over chars 0 y in take (suc y) (drop x chars)

-- The handlers: `none` is for the null pointer, or for the back of an empty vector.
unfoldable pub handle : Event → Document → Option Document
unfolding descend stored
handle (start_element name atts) doc = elim doc.root [
  | none ↦ some (record { root = some (new_node name atts); depth = suc doc.depth })
  | some root ↦
      map_option (λ r. record { root = some r; depth = suc doc.depth })
        (descend (one_less doc.depth) (λ n. some (add (new_node name atts) n)) root)
]
handle (character_data chars len) doc = elim doc.root [
  | none ↦ none
  | some root ↦
      map_option (λ r. record { root = some r; depth = doc.depth })
        (descend (one_less doc.depth) (λ n. some (set_cdata (stored chars len) n)) root)
]
handle end_element doc = some (record doc { depth = one_less doc.depth })

unfoldable pub handle_all : List Event → Document → Option Document
unfolding handle
handle_all [] doc = some doc
handle_all (e ∷ es) doc = elim (handle e doc) [ none ↦ none | some doc' ↦ handle_all es doc' ]

-- Document::from_xml, up to the parser: the old tree is deleted first.
unfoldable pub from_events : List Event → Document → Option Document
unfolding handle_all
from_events events doc = handle_all events (record { root = none; depth = 0 })
