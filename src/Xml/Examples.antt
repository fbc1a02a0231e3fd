-- ===== src/Xml/Examples.antt =====
-- Runs of the model of tools/xml.cpp on small documents.
use dbus_cplusplus.Common.{◌≡◌, refl, [], ◌∷◌, none, some}
use dbus_cplusplus.Xml.{node, nil, add, new_node, children_named, select}
use dbus_cplusplus.Paths.{same}
use dbus_cplusplus.Xml.Document.{stored, from_events, handle, character_data}
use dbus_cplusplus.Xml.Build.{
  Element, element, done, text, inner, events, to_node, from_events-events,
}
use dbus_cplusplus.Xml.Print.{spaces, written, raw_xml, to_xml, render, raw_xml-render}

-- <n a="x"><m/> m</n>, where expat's buffer goes on after the text
abbrev sample : Element
sample =
    element (110 ∷ []) (((97 ∷ []), (120 ∷ [])) ∷ [])
      (inner (element (109 ∷ []) [] done) (text (32 ∷ 109 ∷ 60 ∷ 47 ∷ []) 2 done))

-- One byte too many: the space at the front is left out, but its place is still counted.
stored_spaced : stored (32 ∷ 109 ∷ 60 ∷ 47 ∷ []) 2 ≡ 109 ∷ 60 ∷ []
unfolding stored
stored_spaced = refl

stored_plain : stored (109 ∷ 10 ∷ 60 ∷ 47 ∷ []) 2 ≡ 109 ∷ []
unfolding stored
stored_plain = refl

-- A handler that finds no tree meets the null pointer.
no_root : handle (character_data (109 ∷ []) 1) (record { root = none; depth = 0 }) ≡ none
unfolding handle
no_root = refl

-- <n a="x">, a new line, two spaces and <m/>, and the end tag
shown :
    to_xml (to_node sample)
    ≡ 60 ∷ 110 ∷ 32 ∷ 97 ∷ 61 ∷ 34 ∷ 120 ∷ 34 ∷ 62 ∷ 109 ∷ 60 ∷ 10 ∷ 32 ∷ 32 ∷ 60 ∷ 109 ∷ 47 ∷ 62
      ∷ 10 ∷ 60 ∷ 47 ∷ 110 ∷ 62 ∷ 10 ∷ []
unfolding to_xml to_node add new_node spaces stored
shown = refl

children_of_sample : children_named (109 ∷ []) (to_node sample) ≡ node (109 ∷ []) [] [] nil ∷ []
unfolding children_named to_node add new_node same
children_of_sample = refl

select-sample : select (97 ∷ []) (120 ∷ []) (to_node sample ∷ []) ≡ to_node sample ∷ []
unfolding select to_node same add new_node
select-sample = refl

from_events-events_example :
    from_events (events sample []) (record { root = none; depth = 3 })
    ≡ some (record { root = some (to_node sample); depth = 0 })
from_events-events_example = from_events-events sample (record { root = none; depth = 3 })

raw_xml-render_example :
    raw_xml (to_node sample) (written (32 ∷ []) 1) ≡ written (32 ∷ render 1 (to_node sample)) 1
raw_xml-render_example = raw_xml-render (to_node sample) (32 ∷ []) 1
