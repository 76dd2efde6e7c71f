-- ===== src/Helm/Values.antt =====
-- Helm values: the JSON objects of `map[string]interface{}`, and `deepMerge` of
-- internal/client/helm/manager.go. A map is the list of its entries in the order of a range over it.
use eirenyx.Base.{String, Bool, Option, none, some, ◌==◌, if◌then◌else◌}
use eirenyx.Base.Int.{ℤ}

mutual
  pub data Value : Type 0 where
    null : Value
    bool : Bool → Value
    num : ℤ → Value
    text : String → Value
    arr : Elements → Value
    obj : Fields → Value

  pub data Fields : Type 0 where
    end : Fields
    field : String → Value → Fields → Fields

  pub data Elements : Type 0 where
    no_element : Elements
    element : Value → Elements → Elements

-- `m[key]`
unfoldable pub lookup : String → Fields → Option Value
lookup k end = none
lookup k (field j v m) = if j == k then some v else lookup k m

-- `m[key] = v`
unfoldable pub assign : String → Value → Fields → Fields
assign k v end = field k v end
assign k v (field j w m) = if j == k then field k v m else field j w (assign k v m)

-- The value that `deepMerge` gives to a key of `src` and the merge itself. `dst` is updated in
-- place by the source; here it is returned.
unfoldable mutual
  pub merge_value : Value → Option Value → Value
  merge_value null dst = null
  merge_value (bool b) dst = bool b
  merge_value (num n) dst = num n
  merge_value (text s) dst = text s
  merge_value (arr xs) dst = arr xs
  merge_value (obj src) dst = elim dst [
    | none ↦ obj src
    | some v ↦ elim v [
      | null ↦ obj src
      | bool _ ↦ obj src
      | num _ ↦ obj src
      | text _ ↦ obj src
      | arr _ ↦ obj src
      | obj m ↦ obj (deep_merge m src)
    ]
  ]

  pub deep_merge : Fields → Fields → Fields
  deep_merge dst end = dst
  deep_merge dst (field k v src) = deep_merge (assign k (merge_value v (lookup k dst)) dst) src
