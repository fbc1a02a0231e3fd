-- ===== src/Interface/Examples.antt =====
-- The theorems about properties at a small interface: a text that may be read and written.
use dbus_cplusplus.Common.{ℕ, ◌≡◌, refl, String, true, [], ◌∷◌, some}
use dbus_cplusplus.Common.Names.{find, insert}
use dbus_cplusplus.Message.{text}
use dbus_cplusplus.Interface.{
  InterfaceAdaptor, PropertyData, Variant, Result, ok, err, set_property, invalid_signature,
}
use dbus_cplusplus.Interface.Properties.{Table, properties_get, properties_set}
use dbus_cplusplus.Interface.Properties.Laws.{holding, shown_by, properties_get-properties_set}

abbrev a_text : String → Variant
a_text t = record { signature = "s"; value = text t }

abbrev title : String → PropertyData
title t = record { read = true; write = true; sig = "s"; value = a_text t }

abbrev window : String → InterfaceAdaptor ℕ
window t = record {
  name = "org.example.Window";
  methods = [];
  properties = ("Title", title t) ∷ [];
}

abbrev unchanged : String → String → Variant → Result Variant
unchanged interface property value = ok value

abbrev table : String → Table ℕ
table t = ("org.example.Window", window t) ∷ []

title_set : set_property (window "old") "Title" (a_text "new") ≡ ok (window "new")
unfolding set_property find insert
title_set = refl

-- A number is refused, whatever the property held.
number_refused :
    set_property (window "old") "Title" (record { signature = "u"; value = text "" })
    ≡ err invalid_signature "property expects a different type"
unfolding set_property find
number_refused = refl

table_set :
    properties_set unchanged (table "old") "org.example.Window" "Title" (a_text "new")
    ≡ ok (table "new")
unfolding properties_set set_property find insert
table_set = refl

properties_get-properties_set_example :
    (value : Variant) × (ii : InterfaceAdaptor ℕ) × (p : PropertyData) × (unchanged
        "org.example.Window" "Title"
        (a_text "new")
      ≡ ok value)
    × (find "org.example.Window" (table "old") ≡ some ii)
    × (find "Title" ii.properties ≡ some p)
    × (p.write ≡ true)
    × (p.sig ≡ value.signature)
    × (table "new" ≡ insert "org.example.Window" (holding ii "Title" p value) (table "old"))
    × (properties_get unchanged (table "new") "org.example.Window" "Title"
        ≡ shown_by unchanged
            (table "new")
            "org.example.Window"
            "Title"
            (holding ii "Title" p value)
            p
            value)
properties_get-properties_set_example =
    properties_get-properties_set unchanged unchanged (table "old") (table "new")
      "org.example.Window" "Title" (a_text "new") table_set
