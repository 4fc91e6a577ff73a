-- ===== src/Types/Lookup.antt =====
-- The methods and properties of a class by name: find_method, find_property and the functions of
-- murano/dsl/murano_type.py that want a single one.
pub mod Single
pub mod Own
use murano_temp.Base.{
  Bool, List, Option, String, [], arith, if◌then◌else◌, none, some, true, ◌&&◌, ◌==◌, ◌↔◌, ◌∷◌, ◌≡◌,
}
use murano_temp.Base.Equality.{Equality}
use murano_temp.Types.{Class, ClassId, Method, Property, get_named, methods, properties}
use murano_temp.Types.Symbols.{choose_symbol, map_option}
use text.Mathlib.TextEquality.{eq_iff}

unfoldable pub same_id : ClassId → ClassId → Bool
same_id a b = a.class_name == b.class_name && a.class_version == b.class_version

pub same_id_iff : (a b : ClassId) → (same_id a b ≡ true) ↔ (a ≡ b)
unfolding same_id
same_id_iff a b =
    ground (arith, eq_iff a.class_name b.class_name, eq_iff a.class_version b.class_version)

-- `is`, and `==`, which methods and properties inherit from `object`
unfoldable pub same_method : Method → Method → Bool
unfolding same_id
same_method a b = same_id a.declaring_type b.declaring_type && a.method_name == b.method_name

unfoldable pub same_property : Property → Property → Bool
unfolding same_id
same_property a b =
    same_id a.property_of b.property_of
    && (a.property_name == b.property_name && a.usage == b.usage)

pub same_method_iff : (a b : Method) → (same_method a b ≡ true) ↔ (a ≡ b)
unfolding same_method
same_method_iff a b =
    ground
      (arith, same_id_iff a.declaring_type b.declaring_type, eq_iff a.method_name b.method_name)

pub same_property_iff : (a b : Property) → (same_property a b ≡ true) ↔ (a ≡ b)
unfolding same_property
same_property_iff a b = ground (
  arith,
  same_id_iff a.property_of b.property_of,
  eq_iff a.property_name b.property_name,
  eq_iff a.usage b.usage,
)

unfoldable pub method_identity : Equality Method
method_identity = record { eq = same_method; eq_iff = same_method_iff }

unfoldable pub property_identity : Equality Property
property_identity = record { eq = same_property; eq_iff = same_property_iff }

-- What `find_single_method` and the like return or raise: NoMethodFound or NoPropertyFound, and
-- AmbiguousMethodName or AmbiguousPropertyNameError.
pub data Choice (S : Type 0) : Type 0 where
  chosen : S → Choice S
  not_found : Choice S
  ambiguous : Choice S

-- The tests of the length of the result.
abbrev pub only_one : {S : Type 0} → List S → Choice S
only_one [] = not_found
only_one (s ∷ []) = chosen s
only_one (s ∷ t ∷ ss) = ambiguous

unfoldable pub single_symbol :
    {S : Type 0} → Equality S → (Class → Option S) → Class → Option (Choice S)
single_symbol identity func cls = map_option only_one (choose_symbol identity func cls)

-- `lambda cls: cls.methods.get(name)`
unfoldable pub method_named : String → Class → Option Method
method_named name cls = get_named name (methods cls)

unfoldable pub property_named : String → Class → Option Property
property_named name cls = get_named name (properties cls)

-- `prop_func`
unfoldable pub static_named : String → Class → Option Property
static_named name cls = elim (get_named name (properties cls)) [
  | none ↦ none
  | some prop ↦ if prop.usage == "Static" then some prop else none
]

unfoldable pub find_method : String → Class → Option (List Method)
unfolding method_named method_identity
find_method name cls = choose_symbol method_identity (method_named name) cls

unfoldable pub find_single_method : String → Class → Option (Choice Method)
unfolding method_named method_identity single_symbol
find_single_method name cls = single_symbol method_identity (method_named name) cls

unfoldable pub find_property : String → Class → Option (List Property)
unfolding property_named property_identity
find_property name cls = choose_symbol property_identity (property_named name) cls

unfoldable pub find_single_property : String → Class → Option (Choice Property)
unfolding property_named property_identity single_symbol
find_single_property name cls = single_symbol property_identity (property_named name) cls

unfoldable pub find_static_property : String → Class → Option (Choice Property)
unfolding static_named property_identity single_symbol
find_static_property name cls = single_symbol property_identity (static_named name) cls
