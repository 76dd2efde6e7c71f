-- ===== src/Helm/Merge.antt =====
-- internal/client/helm/manager.go: `deepMerge`, key by key.
use eirenyx.Base.{◌≡◌, refl, String, Option, none, some, arith, eq_iff, ◌==◌, if◌then◌else◌}
use eirenyx.Helm.Values.{Value, Fields, end, field, lookup, assign, merge_value, deep_merge}

pub lookup-assign :
    (k j : String) (v : Value) (m : Fields)
    → lookup j (assign k v m) ≡ (if k == j then some v else lookup j m)
unfolding lookup assign
lookup-assign k j v end = refl
lookup-assign k j v (field i w m) =
    ground (arith, eq_iff k j, eq_iff i k, eq_iff i j, lookup-assign k j v m)

-- A map has each key once.
abbrev pub HasUniqueKeys : Fields → Type 0
HasUniqueKeys end = Unit
HasUniqueKeys (field k v m) = (lookup k m ≡ none) × HasUniqueKeys m

-- The value at a key after the merge: the destination's where the source has none, and else the
-- source's value merged with the destination's.
abbrev pub merged : Option Value → Option Value → Option Value
merged dst none = dst
merged dst (some v) = some (merge_value v dst)

-- After `deepMerge(dst, src)`, where the source has each key once, every key holds
-- what the two maps say of it alone: the destination's value where the source has none, and else the
-- source's value merged with the destination's.
pub lookup-deep_merge :
    (dst src : Fields) (k : String)
    → HasUniqueKeys src
    → lookup k (deep_merge dst src) ≡ merged (lookup k dst) (lookup k src)
unfolding deep_merge lookup
lookup-deep_merge dst end k u = refl
lookup-deep_merge dst (field j v src) k (fresh, u) = ground (
  arith,
  eq_iff j k,
  lookup-assign j k (merge_value v (lookup j dst)) dst,
  lookup-deep_merge (assign j (merge_value v (lookup j dst)) dst) src k u,
)
