-- ===== src/Interface/Properties.antt =====
-- src/property.cpp: org.freedesktop.DBus.Properties over the interfaces of an object. The arguments
-- are given as read from the message; the virtual hooks on_get_property and on_set_property are
-- arguments, and may change the value that they are handed, or throw.
pub mod Laws
use dbus_cplusplus.Common.{String, List, Option, none, some}
use dbus_cplusplus.Common.Names.{find, insert}
use dbus_cplusplus.Interface.{
  failed, InterfaceAdaptor, PropertyData, Variant, Result, ok, err, get_property, set_property,
}

infixl 5 ◌>>=◌
abbrev pub ◌>>=◌ {ℓ κ} : {A : Type ℓ} {B : Type κ} → Result A → (A → Result B) → Result B
ok a >>= f = f a
err n m >>= f = err n m

abbrev pub or_throw {ℓ} : {A : Type ℓ} → Option A → String → Result A
or_throw none message = err failed message
or_throw (some a) message = ok a

abbrev pub Table : Type 0 → Type 0
Table S = List (String × InterfaceAdaptor S)

-- The reference that get_property returned is written through.
store : {S : Type 0} → InterfaceAdaptor S → String → Variant → InterfaceAdaptor S
store ii name value = elim (find name ii.properties) [
  | none ↦ ii
  | some p ↦ record ii { properties = insert name (record p { value = value }) ii.properties }
]

module _ {S : Type 0} where
  -- PropertiesAdaptor::Get: the value that the reply carries, and the object's interfaces.
  unfoldable pub properties_get :
      (String → String → Variant → Result Variant)
      → Table S
      → String
      → String
      → Result (Variant × Table S)
  unfolding store
  properties_get on_get_property interfaces iface_name property_name = do
    interface ← or_throw (find iface_name interfaces) "requested interface not found"
    pointer ← get_property interface property_name
    old ← or_throw pointer "requested property not found"
    value ← on_get_property iface_name property_name old
    ok (value, insert iface_name (store interface property_name value) interfaces)

  -- PropertiesAdaptor::Set: the hook runs first.
  unfoldable pub properties_set :
      (String → String → Variant → Result Variant)
      → Table S
      → String
      → String
      → Variant
      → Result (Table S)
  properties_set on_set_property interfaces iface_name property_name argument = do
    interface ← or_throw (find iface_name interfaces) "requested interface not found"
    value ← on_set_property iface_name property_name argument
    interface' ← set_property interface property_name value
    ok (insert iface_name interface' interfaces)
