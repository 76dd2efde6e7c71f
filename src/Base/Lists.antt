-- ===== src/Base/Lists.antt =====
-- Lists measured by native numbers, and predicates on lists by recursion.
use Prim.Native.Nat.{ℕ, suc, ◌+◌}
use mathlib.Core.Path.{◌≡◌, refl}
use mathlib.Core.Logic.{◌⊎◌}
use mathlib.Core.Bool.{Bool, true, false, ◌||◌}
use mathlib.Core.List.{List, [], ◌∷◌, ◌++◌}
use mathlib.Core.Option.{Option, none, some}
use Prim.Native.String.{String}
use text.Mathlib.Text.{◌==◌}
use text.Mathlib.TextEquality.{eq_iff}
use eirenyx.Base.Tests.{if◌then◌else◌}
use native.Mathlib.Omega.{arith}

module _ {ℓ} {A : Type ℓ} where
  abbrev pub length : List A → ℕ
  length [] = 0
  length (x ∷ xs) = suc (length xs)

  -- A list with no element, the test `len(xs) == 0`.
  abbrev pub is_empty : List A → Bool
  is_empty [] = true
  is_empty (x ∷ xs) = false

  pub length-append : (xs ys : List A) → length (xs ++ ys) ≡ length xs + length ys
  length-append [] ys = omega arith
  length-append (x ∷ xs) ys = omega (arith, length-append xs ys)

  -- Every element has the property.
  abbrev pub All {κ} : (A → Type κ) → List A → Type κ
  All P [] = Unit
  All P (x ∷ xs) = P x × All P xs

  -- Some element has the property.
  abbrev pub Any : (A → Type 0) → List A → Type 0
  Any P [] = ⊥
  Any P (x ∷ xs) = P x ⊎ Any P xs

  pub All-map {κ μ} :
      {P : A → Type κ} {Q : A → Type μ}
      → ((x : A) → P x → Q x)
      → (xs : List A) → All P xs
      → All Q xs
  All-map f [] h = tt
  All-map f (x ∷ xs) h = (f x h.0, All-map f xs h.1)

-- A map with texts for keys is the list of its entries; `m[k] = v`, and the value at a key.
module _ {ℓ} {V : Type ℓ} where
  unfoldable pub put_entry : String → V → List (String × V) → List (String × V)
  put_entry k v [] = (k, v) ∷ []
  put_entry k v ((j, w) ∷ m) = if j == k then (k, v) ∷ m else (j, w) ∷ put_entry k v m

  unfoldable pub entry : String → List (String × V) → Option V
  entry k [] = none
  entry k ((j, v) ∷ m) = if j == k then some v else entry k m

  pub entry-put_entry :
      (k j : String) (v : V) (m : List (String × V))
      → entry j (put_entry k v m) ≡ (if k == j then some v else entry j m)
  unfolding put_entry entry
  entry-put_entry k j v [] = refl
  entry-put_entry k j v ((i, w) ∷ m) =
      ground (arith, eq_iff k j, eq_iff i k, eq_iff i j, entry-put_entry k j v m)

-- `utils.Contains` of internal/utils/string_utils.go
unfoldable pub contains : List String → String → Bool
contains [] value = false
contains (item ∷ slice) value = item == value || contains slice value
