-- ===== src/Xml/Attributes.antt =====
-- Node::get and Node::set (tools/xml.cpp).
use dbus_cplusplus.Common.{◌≡◌, ◌≢◌, refl, false, [], ◌∷◌, some, arith, if◌then◌else◌}
use dbus_cplusplus.Paths.{same}
use dbus_cplusplus.Paths.Order.{same_iff}
use dbus_cplusplus.Xml.{Bytes, Attributes, Node, node, assign, find, erase, get, set}

find-assign :
    (key other value : Bytes) (attrs : Attributes)
    → find other (assign key value attrs)
      ≡ (if same key other then some value else find other attrs)
unfolding find assign
find-assign key other value [] = refl
find-assign key other value ((k, v) ∷ attrs) =
    ground (
      arith,
      same_iff k key,
      same_iff key other,
      same_iff k other,
      find-assign key other value attrs,
    )

find-erase :
    (key other : Bytes) (attrs : Attributes)
    → same key other ≡ false
    → find other (erase key attrs) ≡ find other attrs
unfolding find erase
find-erase key other [] h = refl
find-erase key other ((k, v) ∷ attrs) h =
    ground
      (arith, same_iff k key, same_iff key other, same_iff k other, find-erase key other attrs h)

-- After a set to a value that is not empty, get gives that value for the attribute, and what it
-- gave before for any other.
pub get-set :
    (attribute other value : Bytes) (n : Node)
    → value ≢ []
    → get other (set attribute value n) ≡ (if same attribute other then value else get other n)
unfolding get set
get-set attribute other [] n h = absurd (h refl)
get-set attribute other (c ∷ value) (node name attrs cdata children) h =
    ground (arith, find-assign attribute other (c ∷ value) attrs)

-- A set to the empty value leaves every attribute with a name as it was, the one that it is to
-- remove included.
pub set_empty :
    (attribute other : Bytes) (n : Node) → other ≢ [] → get other (set attribute [] n) ≡ get other n
unfolding get set same
set_empty attribute [] n h = absurd (h refl)
set_empty attribute (c ∷ other) (node name attrs cdata children) h =
    rw (get, find-erase [] (c ∷ other) attrs refl) refl
