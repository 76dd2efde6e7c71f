-- ===== src/Base/Text.antt =====
-- What the program uses of Go's `strings` and `fmt`, over native texts.
use Prim.Native.Nat.{ℕ, zero, suc, ◌/◌, ◌%◌}
use Prim.Native.Char.{Char, code}
use Prim.Native.String.{String, ◌++◌}
use mathlib.Core.Bool.{Bool, true, false, ◌&&◌, ◌||◌}
use mathlib.Core.List.{List, [], ◌∷◌}
use text.Mathlib.Text.{◌==◌, find?}
use mathlib.Core.Option.{none, some}
use eirenyx.Base.Tests.{ltb, leb, ◌==ℕ◌, if◌then◌else◌}
use eirenyx.Base.Int.{ℤ, pos, negsuc}

abbrev pub is_blank : String → Bool
is_blank s = s == ""

-- `strings.Join`
unfoldable pub join : String → List String → String
join sep [] = ""
join sep (s ∷ []) = s
join sep (s ∷ t ∷ r) = s ++ sep ++ join sep (t ∷ r)

-- `unicode.IsSpace`
is_space : Char → Bool
is_space ch =
    let c = code ch in
    (leb 9 c && leb c 13)
    || (c ==ℕ 32)
    || (c ==ℕ 0x85)
    || (c ==ℕ 0xa0)
    || (c ==ℕ 0x1680)
    || (leb 0x2000 c && leb c 0x200a)
    || (c ==ℕ 0x2028)
    || (c ==ℕ 0x2029)
    || (c ==ℕ 0x202f)
    || (c ==ℕ 0x205f)
    || (c ==ℕ 0x3000)

trim_left : String → String
trim_left String.[] = ""
trim_left (String.◌∷◌ c s) = if is_space c then trim_left s else String.◌∷◌ c s

trim_right : String → String
trim_right String.[] = ""
trim_right (String.◌∷◌ c s) =
    let rest = trim_right s in if is_space c && is_blank rest then "" else String.◌∷◌ c rest

-- `strings.TrimSpace`
unfoldable pub trim_space : String → String
unfolding trim_left trim_right is_space
trim_space s = trim_right (trim_left s)

-- `strings.Contains`
abbrev pub has_text : String → String → Bool
has_text s t = elim (find? s t) [ none ↦ false | some _ ↦ true ]

unfoldable pub digit : ℕ → String
digit zero = "0"
digit (suc zero) = "1"
digit (suc (suc zero)) = "2"
digit (suc (suc (suc zero))) = "3"
digit (suc (suc (suc (suc zero)))) = "4"
digit (suc (suc (suc (suc (suc zero))))) = "5"
digit (suc (suc (suc (suc (suc (suc zero)))))) = "6"
digit (suc (suc (suc (suc (suc (suc (suc zero))))))) = "7"
digit (suc (suc (suc (suc (suc (suc (suc (suc zero)))))))) = "8"
digit _ = "9"

-- The digits of `n`, on fuel: a number has no more digits than its value plus one.
unfoldable pub decimal_on : ℕ → ℕ → String
decimal_on zero n = ""
decimal_on (suc f) n =
    let rest = decimal_on f (n / 10) in if ltb n 10 then digit n else rest ++ digit (n % 10)

-- `%d`
unfoldable pub decimal : ℤ → String
unfolding decimal_on digit
decimal (pos n) = decimal_on (suc n) n
decimal (negsuc n) = "-" ++ decimal_on (suc (suc n)) (suc n)
