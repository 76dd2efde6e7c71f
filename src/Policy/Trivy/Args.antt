-- ===== src/Policy/Trivy/Args.antt =====
-- internal/policy/trivy/engine.go: the arguments of the scanner, read back.
use eirenyx.Base.{
  ◌≡◌, refl, sym, ◌∙◌, ap, String, Bool, true, false, Option, none, some, List, [], ◌∷◌, ◌++◌, ◌==◌,
  Bool-cases, inl, inr, if◌then◌else◌, arith, eq_iff,
}
use eirenyx.Base.Int.{ℤ}
use eirenyx.Base.Text.{decimal, is_blank}
use eirenyx.Api.Policy.{TrivyScan}
use eirenyx.Policy.Trivy.{scan_args, vuln_type_args}

-- What the command line says; an absent severity is the empty text.
pub record Request : Type 0 where
  pub severity : String
  pub ignore_unfixed : Bool
  pub types : List String
  pub exit_code : Option String
  pub image : String

abbrev no_request : Request
no_request = record {
  severity = "";
  ignore_unfixed = false;
  types = [];
  exit_code = none;
  image = "";
}

-- The flags in any order, each with its value; the last argument is the image.
read_flags : Request → List String → Option Request
read_flags r [] = none
read_flags r (x ∷ []) = some (record r { image = x })
read_flags r (x ∷ y ∷ rest) =
    let severity = read_flags (record r { severity = y }) rest in
    let unfixed = read_flags (record r { ignore_unfixed = true }) (y ∷ rest) in
    let type = read_flags (record r { types = r.types ++ (y ∷ []) }) rest in
    let code = read_flags (record r { exit_code = some y }) rest in
    if x == "--severity"
    then severity
    else if x == "--ignore-unfixed"
    then unfixed
    else if x == "--vuln-type"
    then type
    else if x == "--exit-code"
    then code
    else none

-- The reader of the whole command line, an image scan with its report as JSON.
pub read_args : List String → Option Request
read_args (a ∷ b ∷ c ∷ d ∷ rest) =
    if a == "image"
    then if b == "--format"
      then if c == "json" then if d == "--quiet" then read_flags no_request rest else none else none
      else none
    else none
read_args _ = none

abbrev pub request_of : TrivyScan → Request
request_of scan = record {
  severity = scan.severity;
  ignore_unfixed = scan.ignore_unfixed;
  types = scan.vulnerability_types;
  exit_code = elim (scan.exit_code) [ none ↦ none | some n ↦ some (decimal n) ];
  image = scan.image;
}

append_assoc : (xs ys zs : List String) → (xs ++ ys) ++ zs ≡ xs ++ (ys ++ zs)
append_assoc [] ys zs = refl
append_assoc (x ∷ xs) ys zs = cc (append_assoc xs ys zs)

append_nil : (xs : List String) → xs ++ [] ≡ xs
append_nil [] = refl
append_nil (x ∷ xs) = cc (append_nil xs)

abbrev exit_args : Option ℤ → List String
exit_args o = elim o [ none ↦ [] | some c ↦ "--exit-code" ∷ decimal c ∷ [] ]

read_exit :
    (r : Request) (o : Option ℤ) (image : String)
    → r.exit_code ≡ none
    → read_flags r (exit_args o ++ (image ∷ []))
      ≡ some (record r {
        exit_code = elim o [ none ↦ none | some n ↦ some (decimal n) ];
        image = image;
      })
unfolding read_flags
read_exit r none image h = ground arith
read_exit r (some n) image h = refl

read_types :
    (r : Request) (types tail : List String)
    → read_flags r (vuln_type_args types ++ tail)
      ≡ read_flags (record r { types = r.types ++ types }) tail
unfolding read_flags vuln_type_args
read_types r [] tail = rw (append_nil r.types) refl
read_types r (t ∷ types) tail =
    read_types (record r { types = r.types ++ (t ∷ []) }) types tail
    ∙ ap (λ l. read_flags (record r { types = l }) tail) (append_assoc r.types (t ∷ []) types)

-- What follows the flag is not empty: the image stands last.
rest_cons :
    (types : List String) (o : Option ℤ) (image : String)
    → (y : String) × (ys : List String) × (vuln_type_args types ++ (exit_args o ++ (image ∷ []))
        ≡ y ∷ ys)
unfolding vuln_type_args
rest_cons [] none image = (image, [], refl)
rest_cons [] (some n) image = ("--exit-code", decimal n ∷ image ∷ [], refl)
rest_cons (t ∷ types) o image =
    ("--vuln-type", t ∷ (vuln_type_args types ++ (exit_args o ++ (image ∷ []))), refl)

read_unfixed :
    (r : Request) (b : Bool) (types : List String) (o : Option ℤ) (image : String)
    → r.ignore_unfixed ≡ false
    → read_flags r (
        (if b then "--ignore-unfixed" ∷ [] else [])
        ++ (vuln_type_args types ++ (exit_args o ++ (image ∷ []))))
      ≡ read_flags
          (record r { ignore_unfixed = b })
          (vuln_type_args types ++ (exit_args o ++ (image ∷ [])))
unfolding read_flags
read_unfixed r false types o image h =
    ap
      (λ b.
        read_flags (record r { ignore_unfixed = b })
          (vuln_type_args types ++ (exit_args o ++ (image ∷ []))))
      h
read_unfixed r true types o image h = let (y, ys, e) = rest_cons types o image in rw e refl

-- The part of the arguments that follows the severity.
abbrev tail_args : TrivyScan → List String
tail_args scan =
    (if scan.ignore_unfixed then "--ignore-unfixed" ∷ [] else [])
    ++ (vuln_type_args scan.vulnerability_types ++ (exit_args scan.exit_code ++ (scan.image ∷ [])))

read_tail :
    (severity : String) (scan : TrivyScan)
    → read_flags (record no_request { severity = severity }) (tail_args scan)
      ≡ some (record (request_of scan) { severity = severity })
read_tail severity scan =
    let r : Request = record no_request { severity = severity } in
    let u : Request = record r { ignore_unfixed = scan.ignore_unfixed } in
    let v : Request = record u { types = scan.vulnerability_types } in
    read_unfixed r scan.ignore_unfixed scan.vulnerability_types scan.exit_code scan.image refl
    ∙ (read_types u scan.vulnerability_types (exit_args scan.exit_code ++ (scan.image ∷ []))
        ∙ read_exit v scan.exit_code scan.image refl)

-- Reading the arguments of a scan's container as a command line gives back what the scan asks for:
-- its image, severity, vulnerability types and exit code, and whether it leaves out what is not fixed.
pub read_args-scan_args : (scan : TrivyScan) → read_args (scan_args scan) ≡ some (request_of scan)
unfolding read_args scan_args read_flags
read_args-scan_args scan = elim (Bool-cases (is_blank scan.severity)) [
  | inl blank ↦
      let empty : scan.severity ≡ "" = ground (arith, eq_iff scan.severity "") in
      rw blank
        (read_tail "" scan ∙ ap (λ t. some (record (request_of scan) { severity = t })) (sym empty))
  | inr set ↦ rw set (read_tail scan.severity scan)
]
