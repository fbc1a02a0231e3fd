-- ===== src/Xml/Build.antt =====
-- The handlers of tools/xml.cpp build the tree of the document that expat reads.
use mathlib.Core.Path.{fun_ext}
use dbus_cplusplus.Common.{ℕ, zero, suc, ◌≡◌, refl, sym, ap, ◌∙◌, List, [], ◌∷◌, Option, none, some}
use dbus_cplusplus.Xml.{Bytes, Node, node, Nodes, nil, cons, new_node, add, push_back}
use dbus_cplusplus.Xml.Document.{
  Document, Event, start_element, character_data, end_element, map_option, on_back, last_child,
  descend, set_cdata, stored, handle, handle_all, from_events,
}

-- A document as it is written: an element's content is chunks of text and elements.
mutual
  pub data Element : Type 0 where
    element : Bytes → List (Bytes × Bytes) → Content → Element

  pub data Content : Type 0 where
    done : Content
    text : Bytes → ℕ → Content → Content
    inner : Element → Content → Content

-- The events that expat reports for it, in front of others.
unfoldable mutual
  pub events : Element → List Event → List Event
  events (element name atts content) rest =
      start_element name atts ∷ content_events content (end_element ∷ rest)

  pub content_events : Content → List Event → List Event
  content_events done rest = rest
  content_events (text chars len content) rest =
      character_data chars len ∷ content_events content rest
  content_events (inner e content) rest = events e (content_events content rest)

-- The node that it stands for: each chunk of text takes the place of the one before it, and the
-- elements inside are the children, in their order.
unfoldable mutual
  pub to_node : Element → Node
  to_node (element name atts content) = fill content (new_node name atts)

  pub fill : Content → Node → Node
  fill done n = n
  fill (text chars len content) n = fill content (set_cdata (stored chars len) n)
  fill (inner e content) n = fill content (add (to_node e) n)

map_option_id {ℓ} : {A : Type ℓ} (o : Option A) → map_option (λ a. a) o ≡ o
map_option_id none = refl
map_option_id (some a) = refl

map_option-map_option {ℓ κ μ} :
    {A : Type ℓ} {B : Type κ} {C : Type μ} (g : B → C) (f : A → B) (o : Option A)
    → map_option g (map_option f o) ≡ map_option (λ a. g (f a)) o
map_option-map_option g f none = refl
map_option-map_option g f (some a) = refl

on_back-push_back :
    (f : Node → Option Node) (xs : Nodes) (x : Node)
    → on_back f (push_back xs x) ≡ map_option (push_back xs) (f x)
unfolding on_back push_back
on_back-push_back f nil x = refl
on_back-push_back f (cons y nil) x = map_option-map_option (cons y) (λ z. cons z nil) (f x)
on_back-push_back f (cons y (cons z zs)) x =
    ap (map_option (cons y)) (on_back-push_back f (cons z zs) x)
    ∙ map_option-map_option (cons y) (push_back (cons z zs)) (f x)

last_child-add :
    (f : Node → Option Node) (c n : Node) → last_child f (add c n) ≡ map_option (λ x. add x n) (f c)
unfolding last_child add
last_child-add f c (node name attrs cdata children) =
    ap (map_option (node name attrs cdata)) (on_back-push_back f children c)
    ∙ map_option-map_option (node name attrs cdata) (push_back children) (f c)

-- The last step of the walk may be taken first.
descend-suc :
    (d : ℕ) (f : Node → Option Node) (n : Node) → descend (suc d) f n ≡ descend d (last_child f) n
unfolding descend
descend-suc zero f n = refl
descend-suc (suc d) f n = ap (λ g. last_child g n) (fun_ext (descend-suc d f))

-- A place in a tree: the walk of `d` steps leads there, whatever stands there.
abbrev pub IsAt : ℕ → (Node → Node) → Type 0
IsAt d place = (f : Node → Option Node) (n : Node) → descend d f (place n) ≡ map_option place (f n)

IsAt-root : IsAt 0 (λ n. n)
unfolding descend
IsAt-root f n = sym (map_option_id (f n))

IsAt-add :
    (d : ℕ) (place : Node → Node) (n : Node) → IsAt d place → IsAt (suc d) (λ c. place (add c n))
IsAt-add d place n h f c =
    descend-suc d f (place (add c n))
    ∙ (h (last_child f) (add c n)
        ∙ (ap (map_option place) (last_child-add f c n)
            ∙ map_option-map_option place (λ x. add x n) (f c)))

abbrev at_depth : ℕ → Node → Document
at_depth d n = record { root = some n; depth = d }

start-IsAt :
    (name : Bytes) (atts : List (Bytes × Bytes)) (d : ℕ) (place : Node → Node) (n : Node)
    → IsAt d place
    → handle (start_element name atts) (at_depth (suc d) (place n))
      ≡ some (at_depth (suc (suc d)) (place (add (new_node name atts) n)))
unfolding handle
start-IsAt name atts d place n h =
    ap (map_option (at_depth (suc (suc d)))) (h (λ x. some (add (new_node name atts) x)) n)

handle_all-cons :
    (e : Event) (es : List Event) (doc doc' : Document)
    → handle e doc ≡ some doc'
    → handle_all (e ∷ es) doc ≡ handle_all es doc'
unfolding handle_all
handle_all-cons e es doc doc' h =
    ap (λ o. elim o as (λ x. Option Document) [ none ↦ none | some d ↦ handle_all es d ]) h

mutual
  unfolding events to_node handle_all handle

  handle_all-content :
      (content : Content) (d : ℕ) (place : Node → Node) (n : Node) (rest : List Event)
      → IsAt d place
      → handle_all (content_events content rest) (at_depth (suc d) (place n))
        ≡ handle_all rest (at_depth (suc d) (place (fill content n)))
  handle_all-content done d place n rest h = refl
  handle_all-content (text chars len content) d place n rest h =
      rw (handle_all, handle, h (λ x. some (set_cdata (stored chars len) x)) n)
        (handle_all-content content d place (set_cdata (stored chars len) n) rest h)
  handle_all-content (inner e content) d place n rest h =
      handle_all-inner e d place n (content_events content rest) h
      ∙ handle_all-content content d place (add (to_node e) n) rest h

  handle_all-inner :
      (e : Element) (d : ℕ) (place : Node → Node) (n : Node) (rest : List Event)
      → IsAt d place
      → handle_all (events e rest) (at_depth (suc d) (place n))
        ≡ handle_all rest (at_depth (suc d) (place (add (to_node e) n)))
  handle_all-inner (element name atts content) d place n rest h =
      handle_all-cons (start_element name atts) (content_events content (end_element ∷ rest))
        (at_depth (suc d) (place n)) (at_depth (suc (suc d)) (place (add (new_node name atts) n)))
        (start-IsAt name atts d place n h)
      ∙ handle_all-content content (suc d) (λ c. place (add c n)) (new_node name atts)
          (end_element ∷ rest) (IsAt-add d place n h)

-- From the events of a document the handlers build its tree, whatever the tree was before, and end
-- at depth 0; no handler meets a null pointer or an element without the child that it looks for.
pub from_events-events :
    (e : Element) (doc : Document)
    → from_events (events e []) doc ≡ some (record { root = some (to_node e); depth = 0 })
unfolding from_events events to_node handle_all handle
from_events-events (element name atts content) doc =
    handle_all-content content 0 (λ n. n) (new_node name atts) (end_element ∷ []) IsAt-root
