-- ===== src/Api/Meta.antt =====
-- The metadata of an object, the fields that the program reads or writes.
use eirenyx.Base.{ℕ, String, Bool, Option, none, List, [], ◌==◌, ◌&&◌}
use eirenyx.Base.Int.{ℤ, pos}

pub record OwnerReference : Type 0 where
  pub kind : String
  pub name : String
  pub uid : String
  pub controller : Bool

pub record ObjectMeta : Type 0 where
  pub name : String
  pub namespace : String
  pub uid : String
  pub generation : ℤ
  pub creation_timestamp : ℕ
  pub deletion_timestamp : Option ℕ
  pub finalizers : List String
  pub owner_references : List OwnerReference
  pub labels : List (String × String)

-- `client.ObjectKey` and `types.NamespacedName`
pub record Key : Type 0 where
  pub namespace : String
  pub name : String

abbrev pub key_of : ObjectMeta → Key
key_of m = record { namespace = m.namespace; name = m.name }

abbrev pub same_key : Key → Key → Bool
same_key x y = x.namespace == y.namespace && x.name == y.name

-- `metav1.ObjectMeta{Name: name, Namespace: namespace}`
abbrev pub named : String → String → ObjectMeta
named name namespace = record {
  name = name;
  namespace = namespace;
  uid = "";
  generation = pos 0;
  creation_timestamp = 0;
  deletion_timestamp = none;
  finalizers = [];
  owner_references = [];
  labels = [];
}

-- `metav1.Condition`
pub record Condition : Type 0 where
  pub type : String
  pub status : String
  pub reason : String
  pub message : String
