-- ===== src/Helm/Paths.antt =====
-- internal/client/helm/manager.go: `deepMerge` on the values that stand at a path of keys.
use mathlib.Core.Path.{subst}
use eirenyx.Base.{
  Bool-cases, ◌≡◌, refl, inl, inr, String, Bool, true, false, Option, Option-cases, none, some,
  List, [], ◌∷◌, arith, ◌==◌, if◌then◌else◌,
}
use eirenyx.Helm.Merge.{HasUniqueKeys, lookup-deep_merge}
use eirenyx.Helm.Values.{Value, obj, Fields, end, field, lookup, merge_value}

-- Every object of the value has each key once, as a Go map does.
unfoldable mutual
  pub IsMap : Value → Type 0
  IsMap (obj m) = AreMaps m
  IsMap v = Unit

  pub AreMaps : Fields → Type 0
  AreMaps end = Unit
  AreMaps (field k v m) = (lookup k m ≡ none) × IsMap v × AreMaps m

-- The value itself, where it is not an object, and its fields, where it is one.
abbrev leaf : Value → Option Value
leaf v = elim v [ obj m ↦ none | w ↦ some w ]

abbrev fields : Value → Option Fields
fields v = elim v [ obj m ↦ some m | _ ↦ none ]

abbrev child : String → Value → Option Value
child k v = elim (fields v) [ none ↦ none | some m ↦ lookup k m ]

-- What stands at the end of the path, where that is not an object.
pub leaf_at : List String → Value → Option Value
leaf_at [] v = leaf v
leaf_at (k ∷ path) v = elim (child k v) [ none ↦ none | some w ↦ leaf_at path w ]

-- The value says what stands at the path: it has something there, or something that is no object on
-- the way.
pub decides : List String → Value → Bool
decides [] v = true
decides (k ∷ path) v = elim (fields v) [
  | none ↦ true
  | some m ↦ elim (lookup k m) [ none ↦ false | some w ↦ decides path w ]
]

undecided : (path : List String) (v : Value) → decides path v ≡ false → leaf_at path v ≡ none
unfolding decides leaf_at
undecided [] v h = cc
undecided (k ∷ path) (obj m) h = elim (Option-cases (lookup k m)) [
  | inl e ↦ ground arith
  | inr (w, e) ↦ ground (arith, undecided path w)
]
undecided (k ∷ path) v h = refl

AreMaps-HasUniqueKeys : (m : Fields) → AreMaps m → HasUniqueKeys m
unfolding AreMaps
AreMaps-HasUniqueKeys end h = tt
AreMaps-HasUniqueKeys (field k v m) (fresh, _, rest) = (fresh, AreMaps-HasUniqueKeys m rest)

lookup-IsMap : (k : String) (m : Fields) (w : Value) → AreMaps m → lookup k m ≡ some w → IsMap w
unfolding lookup AreMaps
lookup-IsMap k end w h e = cc
lookup-IsMap k (field j v m) w (fresh, here, rest) e = elim (Bool-cases (j == k)) [
  | inl same ↦ let found : v ≡ w = ground arith in subst IsMap found here
  | inr other ↦ lookup-IsMap k m w rest (ground arith)
]

merge_value-none : (v : Value) → merge_value v none ≡ v
unfolding merge_value
merge_value-none (obj m) = refl
merge_value-none v = refl

-- Where every object in the source has each key once: read as maps from paths to what stands there
-- that is no object, the merge of two values is the source's map where the source decides the path,
-- and the destination's elsewhere.
pub leaf_at-merge_value :
    (path : List String) (src dst : Value)
    → IsMap src
    → leaf_at path (merge_value src (some dst))
      ≡ (if decides path src then leaf_at path src else leaf_at path dst)
unfolding leaf_at decides merge_value AreMaps IsMap
leaf_at-merge_value [] (obj m) (obj n) h = refl
leaf_at-merge_value [] (obj m) dst h = refl
leaf_at-merge_value [] src dst h = refl
leaf_at-merge_value (k ∷ path) (obj m) (obj n) h =
    let law = lookup-deep_merge n m k (AreMaps-HasUniqueKeys m h) in
    elim (Option-cases (lookup k m)) [
      | inl e ↦ ground arith
      | inr (w, e) ↦ elim (Option-cases (lookup k n)) [
        | inl f ↦ ground (arith, merge_value-none w, undecided path w)
        | inr (u, f) ↦ ground (arith, leaf_at-merge_value path w u (lookup-IsMap k m w h e))
      ]
    ]
leaf_at-merge_value (k ∷ path) (obj m) dst h = elim (Option-cases (lookup k m)) [
  | inl e ↦ ground arith
  | inr (w, e) ↦ ground (arith, undecided path w)
]
leaf_at-merge_value (k ∷ path) src dst h = refl
