-- ===== src/Types.antt =====
-- The classes of MuranoPL, murano/dsl/murano_type.py: the methods and properties that a class
-- declares, and its parents.
pub mod Symbols
pub mod Lookup
pub mod Ancestors
pub mod Weights
pub mod Packages
use murano_temp.Base.{
  Bool, List, Option, String, [], if◌then◌else◌, none, some, suc, ℕ, ◌+◌, ◌==◌, ◌∷◌,
}

-- `MuranoType.__eq__` compares the name and the version.
pub record ClassId : Type 0 where
  pub class_name : String
  pub class_version : String

-- A class holds one object for each name; `declaring_type` and the name are its identity.
pub record Method : Type 0 where
  pub declaring_type : ClassId
  pub method_name : String

pub record Property : Type 0 where
  pub property_of : ClassId
  pub property_name : String
  pub usage : String

-- A class with its parents, which exist before it.
mutual
  pub data Class : Type 0 where
    murano_class : ClassId → List (String × Method) → List (String × Property) → Classes → Class

  pub data Classes : Type 0 where
    no_class : Classes
    and_class : Class → Classes → Classes

abbrev pub to_classes : Classes → List Class
to_classes no_class = []
to_classes (and_class c cs) = c ∷ to_classes cs

unfoldable pub class_id : Class → ClassId
class_id (murano_class id ms ps cs) = id

unfoldable pub methods : Class → List (String × Method)
methods (murano_class id ms ps cs) = ms

unfoldable pub properties : Class → List (String × Property)
properties (murano_class id ms ps cs) = ps

unfoldable pub parents : Class → List Class
parents (murano_class id ms ps cs) = to_classes cs

unfoldable pub get_named {ℓ} : {A : Type ℓ} → String → List (String × A) → Option A
get_named name [] = none
get_named name (x ∷ xs) = let rest = get_named name xs in if x.0 == name then some x.1 else rest

-- The classes on the paths up from a class, each as often as there are paths to it.
unfoldable mutual
  pub weight : Class → ℕ
  weight (murano_class id ms ps cs) = suc (weights cs)

  pub weights : Classes → ℕ
  weights no_class = 0
  weights (and_class c cs) = weight c + weights cs
