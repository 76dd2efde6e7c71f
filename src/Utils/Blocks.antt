-- ===== src/Utils/Blocks.antt =====
-- internal/utils/string_utils.go, ToYamlBlock: a block read back.
use Prim.Native.Char.{Char}
use Prim.Native.String.append
use mathlib.Core.Path.{subst}
use text.Mathlib.TextLemmas.{append_assoc}
use eirenyx.Base.{
  ℕ, zero, suc, String, ◌<>◌, Bool, true, false, Bool-cases, ◌≡◌, refl, sym, ap, ◌∙◌, inl, inr,
  Option, none, some, List, [], ◌==◌, ◌∷◌, ◌++◌, map, All, eq_iff, if◌then◌else◌, arith,
}
use eirenyx.Base.Int.{pos}
use eirenyx.Base.Text.{join}
use eirenyx.Utils.{
  char_text, is_newline, trim_newlines, split_lines, spaces, write_lines, to_yaml_block,
}

-- The line without an indentation of `n` spaces, which it has to have.
strip : ℕ → String → Option String
strip zero s = some s
strip (suc n) String.[] = none
strip (suc n) (String.◌∷◌ c s) = let rest = strip n s in if char_text c == " " then rest else none

add_line : Option String → Option (List String) → Option (List String)
add_line none ls = none
add_line (some l) none = none
add_line (some l) (some ls) = some (l ∷ ls)

-- The lines of a body, each indented; nothing may follow the break that ends the last one.
read_body : ℕ → List String → Option (List String)
read_body indent [] = none
read_body indent (l ∷ []) = if l == "" then some [] else none
read_body indent (l ∷ m ∷ ls) = add_line (strip indent l) (read_body indent (m ∷ ls))

joined : Option (List String) → Option String
joined none = none
joined (some ls) = some (join "\n" ls)

-- A reader of literal block scalars: the header is `|`, and the lines after it, each without its
-- indentation, are joined by line breaks. It answers nothing for any other text.
read_lines : ℕ → List String → Option String
read_lines indent [] = none
read_lines indent (header ∷ lines) = if header == "|" then joined (read_body indent lines) else none

pub read_block : ℕ → String → Option String
read_block indent text = read_lines indent (split_lines text)

is_line : String → Bool
is_line String.[] = true
is_line (String.◌∷◌ c s) = if is_newline c then false else is_line s

append_nil : (t : String) → "" <> t ≡ t
append_nil t = append.nil t

append_cons : (c : Char) (s t : String) → String.◌∷◌ c s <> t ≡ String.◌∷◌ c (s <> t)
append_cons c s t = append.cons c s t

is_line-append : (s t : String) → is_line s ≡ true → is_line t ≡ true → is_line (s <> t) ≡ true
unfolding is_line
is_line-append String.[] t h k = rw (append_nil t) k
is_line-append (String.◌∷◌ c s) t h k = rw (append_cons c s t) (elim (Bool-cases (is_newline c)) [
  | inl e ↦ ground arith
  | inr e ↦ ground (arith, is_line-append s t)
])

is_line-spaces : (n : ℕ) → is_line (spaces n) ≡ true
unfolding is_line spaces
is_line-spaces zero = refl
is_line-spaces (suc n) = is_line-append " " (spaces n) refl (is_line-spaces n)

split_lines-newline : (t : String) → split_lines ("\n" <> t) ≡ "" ∷ split_lines t
unfolding split_lines
split_lines-newline t =
    ap split_lines (append_cons "\n" "" t ∙ ap (λ u. String.◌∷◌ "\n" u) (append_nil t))

split_lines-line :
    (l t : String) → is_line l ≡ true → split_lines (l <> ("\n" <> t)) ≡ l ∷ split_lines t
unfolding is_line split_lines
split_lines-line String.[] t h = rw (append_nil ("\n" <> t)) (split_lines-newline t)
split_lines-line (String.◌∷◌ c l) t h =
    rw (append_cons c l ("\n" <> t)) (elim (Bool-cases (is_newline c)) [
      | inl e ↦ ground arith
      | inr e ↦ ground (arith, split_lines-line l t)
    ])

split_lines_cons : (s : String) → (l : String) × (ls : List String) × (split_lines s ≡ l ∷ ls)
unfolding split_lines
split_lines_cons String.[] = ("", [], refl)
split_lines_cons (String.◌∷◌ c s) =
    let (l, ls, e) = split_lines_cons s in
    elim (Bool-cases (is_newline c)) [
      | inl n ↦ ("", split_lines s, ground arith)
      | inr n ↦ (String.◌∷◌ c l, ls, ground arith)
    ]

AreLines : List String → Type 0
AreLines ls = All (λ l. is_line l ≡ true) ls

split_lines-AreLines : (s : String) → AreLines (split_lines s)
unfolding is_line split_lines AreLines
split_lines-AreLines String.[] = (refl, tt)
split_lines-AreLines (String.◌∷◌ c s) =
    let (l, ls, e) = split_lines_cons s in
    let lines : AreLines (l ∷ ls) = subst AreLines e (split_lines-AreLines s) in
    elim (Bool-cases (is_newline c)) [
      | inl n ↦ rw (n, e) (refl, lines)
      | inr n ↦ rw (n, e) (rw n lines.0, lines.1)
    ]

strip-spaces : (n : ℕ) (l : String) → strip n (spaces n <> l) ≡ some l
unfolding strip spaces
strip-spaces zero l = ap some (append_nil l)
strip-spaces (suc n) l =
    ap (strip (suc n)) (append_assoc " " (spaces n) l ∙ append_cons " " "" (spaces n <> l))
    ∙ (ap (strip n) (append_nil (spaces n <> l)) ∙ strip-spaces n l)

join-cons :
    (c : Char) (l : String) (ls : List String)
    → join "\n" (String.◌∷◌ c l ∷ ls) ≡ String.◌∷◌ c (join "\n" (l ∷ ls))
unfolding join
join-cons c l [] = refl
join-cons c l (m ∷ ls) = append_cons c l ("\n" <> join "\n" (m ∷ ls))

join-split_lines : (s : String) → join "\n" (split_lines s) ≡ s
unfolding split_lines join
join-split_lines String.[] = refl
join-split_lines (String.◌∷◌ c s) =
    let (l, ls, e) = split_lines_cons s in
    let rest : join "\n" (l ∷ ls) ≡ s = ap (join "\n") (sym e) ∙ join-split_lines s in
    elim (Bool-cases (is_newline c)) [
      | inl n ↦
          rw (n, e)
            (append_nil ("\n" <> join "\n" (l ∷ ls))
              ∙ (ap (λ t. "\n" <> t) rest
                  ∙ (ap (λ t. t <> s) (sym ((eq_iff (char_text c) "\n").0 n))
                      ∙ (append_cons c "" s ∙ ap (λ t. String.◌∷◌ c t) (append_nil s)))))
      | inr n ↦ rw (n, e) (join-cons c l ls ∙ ap (λ t. String.◌∷◌ c t) rest)
    ]

-- The lines of what is written, the text after the last break included.
split_lines-write_lines :
    (prefix : String) (ls : List String)
    → is_line prefix ≡ true
    → AreLines ls
    → split_lines (write_lines prefix ls) ≡ map (λ l. prefix <> l) ls ++ ("" ∷ [])
unfolding split_lines write_lines AreLines
split_lines-write_lines prefix [] p h = refl
split_lines-write_lines prefix (l ∷ ls) p (h, hs) =
    let rest = write_lines prefix ls in
    ap split_lines (sym (append_assoc prefix l ("\n" <> rest)))
    ∙ (split_lines-line (prefix <> l) rest (is_line-append prefix l p h)
        ∙ ap (λ r. (prefix <> l) ∷ r) (split_lines-write_lines prefix ls p hs))

read_body-indented :
    (n : ℕ) (ls : List String) → read_body n (map (λ l. spaces n <> l) ls ++ ("" ∷ [])) ≡ some ls
unfolding read_body add_line
read_body-indented n [] = refl
read_body-indented n (l ∷ []) = rw (strip-spaces n l) refl
read_body-indented n (l ∷ m ∷ ls) = rw (strip-spaces n l, read_body-indented n (m ∷ ls)) refl

-- With an indentation that is not negative, the block is written, and a reader that asks for the
-- header `|` and for the indentation of every line reads it back as the text without the line breaks
-- at its end.
pub read_block-to_yaml_block :
    (block : String) (indent : ℕ)
    → (text : String) × (to_yaml_block block (pos indent) ≡ some text)
      × (read_block indent text ≡ some (trim_newlines block))
unfolding to_yaml_block read_block read_lines is_line joined
read_block-to_yaml_block block indent =
    let lines = split_lines (trim_newlines block) in
    let body = write_lines (spaces indent) lines in
    let written =
      split_lines-write_lines (spaces indent) lines (is_line-spaces indent)
        (split_lines-AreLines (trim_newlines block)) in
    let shown : split_lines ("|\n" <> body)
        ≡ "|" ∷ (map (λ l. spaces indent <> l) lines ++ ("" ∷ [])) =
      ap split_lines (append_assoc "|" "\n" body)
      ∙ (split_lines-line "|" body refl ∙ ap (λ r. "|" ∷ r) written) in
    (
      "|\n" <> body,
      refl,
      ap (read_lines indent) shown
          ∙ (ap joined (read_body-indented indent lines)
              ∙ ap some (join-split_lines (trim_newlines block))),
    )
