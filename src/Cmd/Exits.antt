-- ===== src/Cmd/Exits.antt =====
-- cmd/main.go: how the program ends.
use mathlib.Core.Path.{subst}
use eirenyx.Base.{◌≡◌, sym, ◌⊎◌, refl, inl, inr, List, String}
use eirenyx.Effect.{Error, Result-cases, ok, err, returned, panicked, pure, panic}
use eirenyx.Cmd.{
  Runtime, Flags, FlagValue, exited, flag_vars, flags_of, init_scheme, serve, set_up, run_with,
  main,
}
use eirenyx.Cmd.Steps.{
  Ends, catch-call, catch-call_failed, or_exit-call-Ends, catch-call, catch-call_failed,
  or_exit-lift-Ends,
}

module _ (R : Runtime) where
  serve-Ends : (mgr : R.Manager) (s : R.State) → Ends (serve R mgr s).0
  unfolding serve pure
  serve-Ends mgr = or_exit-call-Ends (R.add_healthz_check mgr "healthz") _ (λ _.
      or_exit-call-Ends (R.add_readyz_check mgr "readyz") _
        (λ _. or_exit-call-Ends (R.start mgr) _ (λ _ s. inl refl)))

  set_up-Ends : (mgr : R.Manager) (s : R.State) → Ends (set_up R mgr s).0
  unfolding set_up
  set_up-Ends mgr = or_exit-call-Ends (R.complete mgr _) _ (λ _.
      or_exit-call-Ends (R.complete mgr _) _
        (λ _. or_exit-call-Ends (R.complete mgr _) _ (λ _. serve-Ends mgr)))

  run_with-Ends :
      (scheme : R.schemes.Scheme) (flags : Flags) (s : R.State) → Ends (run_with R scheme flags s).0
  unfolding run_with
  run_with-Ends scheme flags = or_exit-call-Ends R.get_config _ (λ cfg.
      or_exit-call-Ends (R.new_manager cfg _) _
        (λ mgr. or_exit-lift-Ends _ _ (λ _. set_up-Ends mgr)))

  -- Once the scheme is built and the flags are parsed, the rest of the program runs.
  pub main-run_with :
      (scheme : R.schemes.Scheme) (values : List (String × FlagValue)) (s : R.State)
      → init_scheme R ≡ ok scheme
      → (R.parse_flags flag_vars s).0 ≡ ok values
      → main R s ≡ run_with R scheme (flags_of values) (R.parse_flags flag_vars s).1
  unfolding main
  main-run_with scheme values s built parsed =
      rw (built, main)
        (catch-call (R.parse_flags flag_vars) (λ e. pure (exited (R.parse_exit e)))
          (λ given. run_with R scheme (flags_of given)) s values parsed)

  -- Where its calls return, the program ends in one of three ways: the scheme cannot be built, and it panics before
  -- any call; the flags cannot be parsed, and it exits with the parser's code after no other call;
  -- or both succeed, and it exits with 1 unless it ends with its manager.
  pub main_exits :
      (s : R.State)
      → ((e : Error) × (init_scheme R ≡ err e) × (main R s ≡ (panicked, s)))
        ⊎ ((scheme : R.schemes.Scheme) × (init_scheme R ≡ ok scheme)
            × (((e : Error) × ((R.parse_flags flag_vars s).0 ≡ err e)
                  × (main R s
                      ≡ (returned (exited (R.parse_exit e)), (R.parse_flags flag_vars s).1)))
                ⊎ ((values : List (String × FlagValue)) × ((R.parse_flags flag_vars s).0
                      ≡ ok values)
                    × Ends (main R s).0)))
  unfolding main pure panic
  main_exits s = elim (Result-cases (init_scheme R)) [
    | inr (e, f) ↦ inl (e, f, rw (f, main) refl)
    | inl (scheme, built) ↦ inr (
      scheme,
      built,
      elim (Result-cases (R.parse_flags flag_vars s).0) [
        | inr (e, f) ↦ inl (
          e,
          f,
          rw (built, main)
              (catch-call_failed (R.parse_flags flag_vars) (λ x. pure (exited (R.parse_exit x)))
                (λ given. run_with R scheme (flags_of given)) s e f),
        )
        | inl (values, parsed) ↦ inr (
          values,
          parsed,
          subst (λ o. Ends o.0) (sym (main-run_with scheme values s built parsed))
              (run_with-Ends scheme (flags_of values) (R.parse_flags flag_vars s).1),
        )
      ],
    )
  ]
