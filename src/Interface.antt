-- ===== src/Interface.antt =====
-- src/interface.cpp and include/dbus-c++/interface.h: the interfaces of a local object, their
-- methods and properties. A method is a function of the call and of the object's own state; what
-- it throws is a value.
pub mod Properties
mod Examples
use text.Mathlib.Text.{◌==◌}
use dbus_cplusplus.Common.{
  ℕ, String, Bool, true, false, not, List, [], ◌∷◌, Option, none, some, if◌then◌else◌,
}
use dbus_cplusplus.Common.Names.{find, insert}
use dbus_cplusplus.Message.{CallMessage, Message, new_error, Arg}

-- DBUS_ERROR_UNKNOWN_METHOD and the names of include/dbus-c++/error.h
abbrev pub unknown_method : String
unknown_method = "org.freedesktop.DBus.Error.UnknownMethod"

abbrev pub access_denied : String
access_denied = "org.freedesktop.DBus.Error.AccessDenied"

abbrev pub invalid_signature : String
invalid_signature = "org.freedesktop.DBus.Error.InvalidSignature"

abbrev pub failed : String
failed = "org.freedesktop.DBus.Error.Failed"

-- How a method ends: with a message, by throwing Error, or by throwing ReturnLaterError.
pub data Outcome : Type 0 where
  returns : Message → Outcome
  throws : String → String → Outcome
  later : ℕ → Outcome

abbrev pub Method : Type 0 → Type 0
Method S = CallMessage → S → S × Outcome

-- A value and its signature; the value itself is not looked into.
pub record Variant : Type 0 where
  pub signature : String
  pub value : Arg

pub record PropertyData : Type 0 where
  pub read : Bool
  pub write : Bool
  pub sig : String
  pub value : Variant

pub record InterfaceAdaptor (S : Type 0) : Type 0 where
  pub name : String
  pub methods : List (String × Method S)
  pub properties : List (String × PropertyData)

-- A call that gives a value or throws Error(name, message).
pub data Result {ℓ} (A : Type ℓ) : Type ℓ where
  ok : A → Result A
  err : String → String → Result A

module _ {S : Type 0} where
  -- InterfaceAdaptor::dispatch_method
  unfoldable pub dispatch_method : InterfaceAdaptor S → Method S
  dispatch_method ii msg self = elim (find msg.member ii.methods) [
    | some method ↦ method msg self
    | none ↦ (self, returns (new_error msg unknown_method msg.member))
  ]

  -- InterfaceAdaptor::get_property: `none` is the null pointer.
  unfoldable pub get_property : InterfaceAdaptor S → String → Result (Option Variant)
  get_property ii name = elim (find name ii.properties) [
    | none ↦ ok none
    | some p ↦
        if not p.read then err access_denied "property is not readable" else ok (some p.value)
  ]

  -- InterfaceAdaptor::set_property
  unfoldable pub set_property : InterfaceAdaptor S → String → Variant → Result (InterfaceAdaptor S)
  set_property ii name value = elim (find name ii.properties) [
    | none ↦ err failed "requested property not found"
    | some p ↦
        if not p.write
        then err access_denied "property is not writeable"
        else if not (p.sig == value.signature)
        then err invalid_signature "property expects a different type"
        else ok (record ii { properties = insert name (record p { value = value }) ii.properties })
  ]
