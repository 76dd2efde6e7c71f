-- ===== src/Utils.antt =====
-- internal/utils/string_utils.go: quoted lists and YAML blocks. `Contains` stands with the lists of Base.
pub mod Blocks
use Prim.Native.Char.{Char}
use eirenyx.Base.{
  ℕ, zero, suc, String, ◌<>◌, Bool, ◌&&◌, Option, none, some, List, [], ◌∷◌, map, ◌==◌,
  if◌then◌else◌,
}
use eirenyx.Base.Int.{ℤ, pos, negsuc}
use eirenyx.Base.Text.{is_blank, join}
use eirenyx.Cluster.{Library}

-- `JoinQuoted`; quoting is Go's `%q`.
pub join_quoted : Library → List String → String
join_quoted lib items = join ", " (map lib.quote items)

abbrev pub char_text : Char → String
char_text c = String.◌∷◌ c String.[]

abbrev pub is_newline : Char → Bool
is_newline c = char_text c == "\n"

-- `strings.TrimRight(block, "\n")`
unfoldable pub trim_newlines : String → String
trim_newlines String.[] = ""
trim_newlines (String.◌∷◌ c s) =
    let rest = trim_newlines s in if is_newline c && is_blank rest then "" else String.◌∷◌ c rest

abbrev pub prepend : Char → List String → List String
prepend c lines = elim lines [ [] ↦ char_text c ∷ [] | line ∷ rest ↦ String.◌∷◌ c line ∷ rest ]

-- `strings.Split(trim, "\n")`
unfoldable pub split_lines : String → List String
split_lines String.[] = "" ∷ []
split_lines (String.◌∷◌ c s) =
    let rest = split_lines s in if is_newline c then "" ∷ rest else prepend c rest

-- `strings.Repeat(" ", n)`
unfoldable pub spaces : ℕ → String
spaces zero = ""
spaces (suc n) = " " <> spaces n

-- The loop over the lines.
unfoldable pub write_lines : String → List String → String
write_lines prefix [] = ""
write_lines prefix (line ∷ lines) = prefix <> (line <> ("\n" <> write_lines prefix lines))

-- `ToYamlBlock`; `strings.Repeat` panics on a negative count, which is `none`.
unfoldable pub to_yaml_block : String → ℤ → Option String
to_yaml_block block (pos indent) =
    some ("|\n" <> write_lines (spaces indent) (split_lines (trim_newlines block)))
to_yaml_block block (negsuc _) = none
