-- ===== src/Interface/Properties/Laws.antt =====
-- Reading a property after writing it (src/property.cpp, src/interface.cpp).
use text.Mathlib.TextEquality.{eq_iff}
use text.Mathlib.Text.{◌==◌}
use dbus_cplusplus.Common.{
  String, ◌≡◌, refl, ◌∙◌, ap, true, false, not, ◌⊎◌, Option, none, some, inl, inr, arith,
  if◌then◌else◌, Option-cases, Bool-cases,
}
use dbus_cplusplus.Common.Names.{find, insert, find-insert, find-insert_self}
use dbus_cplusplus.Interface.{
  InterfaceAdaptor, PropertyData, Variant, Result, ok, err, get_property, set_property,
  access_denied,
}
use dbus_cplusplus.Interface.Properties.{
  Table, properties_get, properties_set, store, ◌>>=◌, or_throw,
}

-- What get_property gives for a property's written.
abbrev pub reading : PropertyData → Result (Option Variant)
reading p = if not p.read then err access_denied "property is not readable" else ok (some p.value)

module _ {S : Type 0} (ii ii' : InterfaceAdaptor S) (name : String) (value : Variant) where
  -- A write that succeeds was allowed, kept the property's type, and changed that one value alone.
  pub set_property-ok :
      set_property ii name value ≡ ok ii'
      → (p : PropertyData) × (find name ii.properties ≡ some p)
        × (p.write ≡ true)
        × (p.sig ≡ value.signature)
        × (ii' ≡ record ii { properties = insert name (record p { value = value }) ii.properties })
  unfolding set_property
  set_property-ok e = elim (Option-cases (find name ii.properties)) [
    | inl gone ↦ absurd (ground (arith, gone))
    | inr (p, found) ↦ (
      p,
      found,
      ground (arith, found),
      ground (arith, found, eq_iff p.sig value.signature),
      ground (arith, found),
    )
  ]

  -- After a set_property that succeeds, every property reads as before, but for the one written:
  -- that one reads as the new value if it is readable, and is still refused if it is not.
  pub get_property-set_property :
      (other : String)
      → set_property ii name value ≡ ok ii'
      → (p : PropertyData) × (find name ii.properties ≡ some p)
        × (get_property ii' other ≡ (
            if name == other then reading (record p { value = value }) else get_property ii other))
  unfolding get_property
  get_property-set_property other e =
      let (p, found, allowed, typed, is) = set_property-ok e in
      let written : PropertyData = record p { value = value } in
      let looked : find other ii'.properties
          ≡ (if name == other then some written else find other ii.properties) =
        ap (λ (x : InterfaceAdaptor S). find other x.properties) is
        ∙ find-insert name other written ii.properties in
      (p, found, get_insert other written looked)
    where
      get_insert :
          (other : String) (written : PropertyData)
          → find other ii'.properties
            ≡ (if name == other then some written else find other ii.properties)
          → get_property ii' other
            ≡ (if name == other then reading written else get_property ii other)
      get_insert other written looked = elim (Bool-cases (name == other)) [
        | inl same ↦ rw same (rw (looked, get_property, same))
        | inr differs ↦ rw differs (rw (looked, get_property, differs))
      ]

bind_ok {ℓ κ} :
    {A : Type ℓ} {B : Type κ} (m : Result A) (f : A → Result B) (b : B)
    → (m >>= f) ≡ ok b
    → (a : A) × (m ≡ ok a) × (f a ≡ ok b)
bind_ok (ok a) f b e = (a, refl, e)
bind_ok (err n m) f b e = absurd (cc)

Result-cases {ℓ} :
    {A : Type ℓ} (m : Result A) → ((a : A) × (m ≡ ok a)) ⊎ ((n : _) × (s : String) × (m ≡ err n s))
Result-cases (ok a) = inl (a, refl)
Result-cases (err n m) = inr (n, m, refl)

or_throw_ok {ℓ} :
    {A : Type ℓ} (o : Option A) (message : String) (a : A) → or_throw o message ≡ ok a → o ≡ some a
or_throw_ok none message a e = absurd (cc)
or_throw_ok (some b) message a e = cc

-- The interface with `value` in the property `name`, whose entry was `p`.
abbrev pub holding :
    {S : Type 0} → InterfaceAdaptor S → String → PropertyData → Variant → InterfaceAdaptor S
holding ii name p value = record ii {
  properties = insert name (record p { value = value }) ii.properties;
}

-- What a Get is to give for a property that holds `value`: what the hook for reading makes of it,
-- which is also kept in the property, or the hook's error; and the error access_denied where the
-- property is not readable.
unfoldable pub shown_by :
    {S : Type 0}
    → (String → String → Variant → Result Variant)
    → Table S
    → String
    → String
    → InterfaceAdaptor S
    → PropertyData
    → Variant
    → Result (Variant × Table S)
shown_by on_get interfaces iface_name name ii p value = elim p.read [
  | false ↦ err access_denied "property is not readable"
  | true ↦ elim (on_get iface_name name value) [
    | ok shown ↦ ok (shown, insert iface_name (holding ii name p shown) interfaces)
    | err n m ↦ err n m
  ]
]

get_after :
    {S : Type 0} (on_get : String → String → Variant → Result Variant) (interfaces : Table S)
    (iface_name name : String) (ii : InterfaceAdaptor S) (p : PropertyData) (value : Variant)
    → find iface_name interfaces ≡ some ii
    → find name ii.properties ≡ some (record p { value = value })
    → properties_get on_get interfaces iface_name name
      ≡ shown_by on_get interfaces iface_name name ii p value
unfolding properties_get get_property shown_by store
get_after on_get interfaces iface_name name ii p value table entry = elim (Bool-cases p.read) [
  | inr secret ↦ simp (table, properties_get, get_property, shown_by, entry, secret)
  | inl readable ↦ elim (Result-cases (on_get iface_name name value)) [
    | inl (shown, shows) ↦
        simp (table, properties_get, get_property, store, shown_by, entry, readable, shows)
    | inr (n, m, fails) ↦
        simp (table, properties_get, get_property, shown_by, entry, readable, fails)
  ]
]

-- A Set that succeeds has run the hook; the property was there and writable, and its type is that of
-- the value that the hook left, which is what the property holds now, in a table that is otherwise
-- the same. A Get of the same property then finds that value: it gives what the hook for reading
-- makes of it, or the hook's error, or access_denied where the property is not readable.
pub properties_get-properties_set :
    {S : Type 0} (on_get on_set : String → String → Variant → Result Variant)
    (interfaces interfaces' : Table S) (iface_name property_name : String) (argument : Variant)
    → properties_set on_set interfaces iface_name property_name argument ≡ ok interfaces'
    → (value : Variant) × (ii : InterfaceAdaptor S) × (p : PropertyData) × (on_set iface_name
          property_name argument
        ≡ ok value)
      × (find iface_name interfaces ≡ some ii)
      × (find property_name ii.properties ≡ some p)
      × (p.write ≡ true)
      × (p.sig ≡ value.signature)
      × (interfaces' ≡ insert iface_name (holding ii property_name p value) interfaces)
      × (properties_get on_get interfaces' iface_name property_name
          ≡ shown_by on_get interfaces' iface_name property_name
              (holding ii property_name p value)
              p
              value)
unfolding properties_set
properties_get-properties_set on_get on_set interfaces interfaces' iface_name property_name argument
      e =
    let (ii, found, rest) = bind_ok (or_throw (find iface_name interfaces) _) _ interfaces' e in
    let (value, hooked, rest') =
      bind_ok (on_set iface_name property_name argument) _ interfaces' rest in
    let (ii', set, stored) = bind_ok (set_property ii property_name value) _ interfaces' rest' in
    let (p, here, allowed, typed, is) = set_property-ok ii ii' property_name value set in
    let changed : interfaces' ≡ insert iface_name (holding ii property_name p value) interfaces =
      cc in
    (
      value,
      ii,
      p,
      hooked,
      or_throw_ok (find iface_name interfaces) _ ii found,
      here,
      allowed,
      typed,
      changed,
      get_after on_get interfaces' iface_name property_name (holding ii property_name p value) p
          value
          (ap (find iface_name) changed
            ∙ find-insert_self iface_name (holding ii property_name p value) interfaces)
          (find-insert_self property_name (record p { value = value }) ii.properties),
    )
