-- ===== src/Cmd/Outcomes.antt =====
-- cmd/main.go: the exit codes of the program, and what has run when it has none.
use eirenyx.Base.{◌≡◌, ◌⊎◌, inl, inr, List, String}
use eirenyx.Effect.{Error, ok, err, returned, panicked}
use eirenyx.Cmd.{Runtime, FlagValue, exited, finished, flag_vars, init_scheme, main}
use eirenyx.Cmd.Exits.{main_exits}
use eirenyx.Cmd.Laws.{ManagerLaws, SchemeLaws}
use eirenyx.Cmd.Start.{Served, main-Served}

module _ (R : Runtime) (laws : ManagerLaws R) (known : SchemeLaws R.schemes) where
  -- The program exits with 1, or it has no exit code and its manager has served.
  abbrev pub Concludes : R.State → Type 0
  Concludes s =
      ((main R s).0 ≡ returned (exited 1))
      ⊎ (((main R s).0 ≡ returned finished) × Served R laws s (main R s).1)

  -- Where the calls of the manager and of the libraries return, its start included, the program ends
  -- in one of these ways: the scheme cannot be built, and it panics before any call; the flags cannot
  -- be parsed, and it exits with the parser's code after no other call; or both succeed, and it either
  -- exits with 1, or has no exit code and has started a manager that had the options of the flags,
  -- exactly the three controllers and the two checks, whose start returned with no error and was the
  -- last call; provided that the calls of the manager and of the scheme that succeed add what they are
  -- given.
  pub main-Concludes :
      (s : R.State)
      → ((e : Error) × (init_scheme R ≡ err e) × (main R s ≡ (panicked, s)))
        ⊎ ((scheme : R.schemes.Scheme) × (init_scheme R ≡ ok scheme)
            × (((e : Error) × ((R.parse_flags flag_vars s).0 ≡ err e)
                  × (main R s
                      ≡ (returned (exited (R.parse_exit e)), (R.parse_flags flag_vars s).1)))
                ⊎ ((values : List (String × FlagValue)) × ((R.parse_flags flag_vars s).0
                      ≡ ok values)
                    × Concludes s)))
  main-Concludes s = elim (main_exits R s) [
    | inl unbuilt ↦ inl unbuilt
    | inr (scheme, built, inl unparsed) ↦ inr (scheme, built, inl unparsed)
    | inr (scheme, built, inr (values, parsed, inl done)) ↦
        inr (scheme, built, inr (values, parsed, inr (done, main-Served R laws known s done)))
    | inr (scheme, built, inr (values, parsed, inr failed)) ↦
        inr (scheme, built, inr (values, parsed, inl failed))
  ]
