-- ===== src/Xml/Print.antt =====
-- Node::_raw_xml and Node::to_xml (tools/xml.cpp).
use dbus_cplusplus.Common.{
  ℕ, zero, suc, ◌≡◌, refl, sym, ap, ◌∙◌, [], ◌∷◌, ◌++◌, append-nil, append_assoc,
}
use dbus_cplusplus.Xml.{Bytes, Attributes, Node, node, Nodes, nil, cons}
use dbus_cplusplus.Xml.Document.{one_less}

-- What _raw_xml changes: the text, and the depth, which is passed by reference.
pub record Output : Type 0 where
  pub xml : Bytes
  pub depth : ℕ

-- xml.append(depth * 2, ' ')
unfoldable pub spaces : ℕ → Bytes
spaces zero = []
spaces (suc depth) = 32 ∷ 32 ∷ spaces depth

abbrev pub append : Bytes → Output → Output
append chars out = record out { xml = out.xml ++ chars }

-- A blank, the key, an equals sign and the value in quotes: the value is written as it is.
abbrev pub attribute_text : Bytes → Bytes → Bytes
attribute_text key value = (32 ∷ []) ++ key ++ (61 ∷ 34 ∷ []) ++ value ++ (34 ∷ [])

unfoldable pub append_attributes : Attributes → Output → Output
append_attributes [] out = out
append_attributes ((key, value) ∷ attrs) out =
    append_attributes attrs (append (attribute_text key value) out)

abbrev pub end_tag : Bytes → Bytes
end_tag name = (60 ∷ 47 ∷ []) ++ name ++ (62 ∷ 10 ∷ [])

abbrev pub append_indent : Output → Output
append_indent out = append (spaces out.depth) out

unfoldable pub append_start : Bytes → Attributes → Output → Output
unfolding append_attributes
append_start name attrs out =
    append_attributes attrs (append ((60 ∷ []) ++ name) (append_indent out))

-- What stands after the children: the depth goes back first.
abbrev pub after_children : Output → Output
after_children out = append_indent (record out { depth = one_less out.depth })

-- xml.append("\n"); depth++;
abbrev deeper : Output → Output
deeper out = record { xml = out.xml ++ (10 ∷ []); depth = suc out.depth }

-- The branches on the character data and the children: the text is `start` after the start tag,
-- `middle` after the character data, and `inside` after the children.
unfoldable close : Bytes → Bytes → Nodes → Output → Output → Output → Output
close name [] nil start middle inside = append (47 ∷ 62 ∷ 10 ∷ []) start
close name (c ∷ cdata) nil start middle inside = append (end_tag name) middle
close name cdata (cons x xs) start middle inside = append (end_tag name) (after_children inside)

unfoldable mutual
  unfolding close append_start

  pub raw_xml : Node → Output → Output
  raw_xml (node name attrs cdata children) out =
      let start = append_start name attrs out in
      let middle = append cdata (append (62 ∷ []) start) in
      close name cdata children start middle (raw_xml_children children (deeper middle))

  pub raw_xml_children : Nodes → Output → Output
  raw_xml_children nil out = out
  raw_xml_children (cons x xs) out = raw_xml_children xs (raw_xml x out)

unfoldable pub to_xml : Node → Bytes
unfolding raw_xml
to_xml n = (raw_xml n (record { xml = []; depth = 0 })).xml

-- A node's text at a depth, written on its own.
unfoldable pub attributes_text : Attributes → Bytes
attributes_text [] = []
attributes_text ((key, value) ∷ attrs) = attribute_text key value ++ attributes_text attrs

unfoldable pub start_text : ℕ → Bytes → Attributes → Bytes
unfolding attributes_text spaces
start_text depth name attrs = spaces depth ++ (((60 ∷ []) ++ name) ++ attributes_text attrs)

-- What follows the start tag: `inside` is the text of the children, one level deeper.
unfoldable pub rest_text : ℕ → Bytes → Bytes → Nodes → Bytes → Bytes
unfolding spaces
rest_text depth name [] nil inside = 47 ∷ 62 ∷ 10 ∷ []
rest_text depth name (c ∷ cdata) nil inside = 62 ∷ (c ∷ cdata) ++ end_tag name
rest_text depth name cdata (cons x xs) inside =
    62 ∷ cdata ++ (10 ∷ inside ++ (spaces depth ++ end_tag name))

unfoldable mutual
  unfolding start_text rest_text

  pub render : ℕ → Node → Bytes
  render depth (node name attrs cdata children) =
      start_text depth name attrs
      ++ rest_text depth name cdata children (render_children (suc depth) children)

  pub render_children : ℕ → Nodes → Bytes
  render_children depth nil = []
  render_children depth (cons x xs) = render depth x ++ render_children depth xs

append_attributes_lem :
    (attrs : Attributes) (xml : Bytes) (depth : ℕ)
    → append_attributes attrs (record { xml = xml; depth = depth })
      ≡ record { xml = xml ++ attributes_text attrs; depth = depth }
unfolding append_attributes attributes_text
append_attributes_lem [] xml depth =
    ap (λ t. record { xml = t; depth = depth }) (sym (append-nil xml))
append_attributes_lem ((key, value) ∷ attrs) xml depth =
    append_attributes_lem attrs (xml ++ attribute_text key value) depth
    ∙ ap (λ t. record { xml = t; depth = depth })
        (append_assoc xml (attribute_text key value) (attributes_text attrs))

append_start_lem :
    (name : Bytes) (attrs : Attributes) (xml : Bytes) (depth : ℕ)
    → append_start name attrs (record { xml = xml; depth = depth })
      ≡ record { xml = xml ++ start_text depth name attrs; depth = depth }
unfolding append_start start_text
append_start_lem name attrs xml depth =
    append_attributes_lem attrs ((xml ++ spaces depth) ++ ((60 ∷ []) ++ name)) depth
    ∙ ap (λ t. record { xml = t; depth = depth })
        (append_assoc (xml ++ spaces depth) ((60 ∷ []) ++ name) (attributes_text attrs)
          ∙ append_assoc xml (spaces depth) (((60 ∷ []) ++ name) ++ attributes_text attrs))

abbrev pub written : Bytes → ℕ → Output
written xml depth = record { xml = xml; depth = depth }

close_lem :
    (name cdata : Bytes) (children : Nodes) (xml inside : Bytes) (depth : ℕ)
    → close name cdata children
        (written xml depth)
        (written ((xml ++ (62 ∷ [])) ++ cdata) depth)
        (written ((((xml ++ (62 ∷ [])) ++ cdata) ++ (10 ∷ [])) ++ inside) (suc depth))
      ≡ written (xml ++ rest_text depth name cdata children inside) depth
unfolding close rest_text
close_lem name [] nil xml inside depth = refl
close_lem name (c ∷ cdata) nil xml inside depth =
    ap (λ t. written t depth) (simp (append_assoc) refl)
close_lem name cdata (cons x xs) xml inside depth =
    ap (λ t. written t depth) (simp (append_assoc) refl)

mutual
  unfolding raw_xml render

  raw_xml_node :
      (n : Node) (xml : Bytes) (depth : ℕ)
      → raw_xml n (written xml depth) ≡ written (xml ++ render depth n) depth
  raw_xml_node (node name attrs cdata children) xml depth =
      let before = xml ++ start_text depth name attrs in
      let middle = (before ++ (62 ∷ [])) ++ cdata in
      let inside = render_children (suc depth) children in
      ap
        (λ out.
          let shown = append cdata (append (62 ∷ []) out) in
          close name cdata children out shown (raw_xml_children children (deeper shown)))
        (append_start_lem name attrs xml depth)
      ∙ (ap (close name cdata children (written before depth) (written middle depth))
            (raw_xml_each children (middle ++ (10 ∷ [])) (suc depth))
          ∙ (close_lem name cdata children before inside depth
              ∙ ap (λ t. written t depth)
                  (append_assoc xml (start_text depth name attrs)
                    (rest_text depth name cdata children inside))))

  raw_xml_each :
      (xs : Nodes) (xml : Bytes) (depth : ℕ)
      → raw_xml_children xs (written xml depth) ≡ written (xml ++ render_children depth xs) depth
  raw_xml_each nil xml depth = ap (λ t. written t depth) (sym (append-nil xml))
  raw_xml_each (cons x xs) xml depth =
      ap (raw_xml_children xs) (raw_xml_node x xml depth)
      ∙ (raw_xml_each xs (xml ++ render depth x) depth
          ∙ ap (λ t. written t depth)
              (append_assoc xml (render depth x) (render_children depth xs)))

-- _raw_xml appends the text of the node at the depth that it finds, and leaves the depth as it was.
pub raw_xml-render :
    (n : Node) (xml : Bytes) (depth : ℕ)
    → raw_xml n (written xml depth) ≡ written (xml ++ render depth n) depth
raw_xml-render n xml depth = raw_xml_node n xml depth
