-- ===== src/Cmd/Start.antt =====
-- cmd/main.go: what is set up when the manager starts.
use mathlib.Core.Path.{subst}
use eirenyx.Base.{String, true, ◌≡◌, sym, ap, ◌∙◌, inl, inr, List, [], ◌∷◌, ◌++◌, All}
use eirenyx.Effect.{Exec, Result-cases, ok, returned, pure, call, lift}
use eirenyx.Api.Scheme.{
  eirenyx_group_version, litmus_group_version, policy_kinds, report_kinds, tool_kinds,
}
use eirenyx.Controller.Setup.{Registration, policy_controller, tool_controller, report_controller}
use eirenyx.Cmd.{
  Runtime, Flags, FlagValue, Exit, finished, or_exit, flag_vars, flags_of, init_scheme,
  manager_options, new_client_from_config, serve, set_up, run_with, main,
}
use eirenyx.Cmd.Exits.{main-run_with}
use eirenyx.Cmd.Laws.{ManagerLaws, SchemeLaws}
use eirenyx.Cmd.Steps.{
  and_then-eq_ok, or_exit-call, catch-unfinished, panic_unfinished, or_exit-lift, pure_state,
}

module _ (R : Runtime) (laws : ManagerLaws R) where
  -- The manager has been told of these controllers and checks.
  pub record Told (mgr : R.Manager) (cs : List Registration) (hs rs : List String) (s : R.State)
      : Type 0 where
    pub controllers : laws.controllers mgr s ≡ cs
    pub healthz : laws.healthz mgr s ≡ hs
    pub readyz : laws.readyz mgr s ≡ rs

  -- The run from `s` to `t` ended with the manager, which was started after it was told of these.
  pub record Ran (mgr : R.Manager) (cs : List Registration) (t : R.State) : Type 0 where
    pub before : R.State
    pub told : Told mgr cs ("healthz" ∷ []) ("readyz" ∷ []) before
    pub started : (R.start mgr before).0 ≡ ok tt
    pub ended : t ≡ (R.start mgr before).1

  serve-Ran :
      (mgr : R.Manager) (cs : List Registration) (s : R.State)
      → Told mgr cs [] [] s
      → (serve R mgr s).0 ≡ returned finished
      → Ran mgr cs (serve R mgr s).1
  unfolding serve
  serve-Ran mgr cs s told h =
      let last : Unit {0} → Exec R.State Exit =
        λ _. or_exit (call (R.start mgr)) (λ _. pure finished) in
      let (_, one, run1) =
        or_exit-call (R.add_healthz_check mgr "healthz")
          (λ _. or_exit (call (R.add_readyz_check mgr "readyz")) last) s h in
      let t = (R.add_healthz_check mgr "healthz" s).1 in
      let (_, two, run2) =
        or_exit-call (R.add_readyz_check mgr "readyz") last t (ap (λ o. o.0) (sym run1) ∙ h) in
      let u = (R.add_readyz_check mgr "readyz" t).1 in
      let (_, three, run3) =
        or_exit-call (R.start mgr) (λ _. pure finished) u (ap (λ o. o.0) (sym (run1 ∙ run2)) ∙ h) in
      let (c1, h1, r1) = laws.healthz_added mgr "healthz" s one in
      let (c2, h2, r2) = laws.readyz_added mgr "readyz" t two in
      record {
        before = u;
        told = record {
          controllers = c2 ∙ (c1 ∙ told.controllers);
          healthz = h2 ∙ (h1 ∙ ap (λ l. l ++ ("healthz" ∷ [])) told.healthz);
          readyz = r2 ∙ ap (λ l. l ++ ("readyz" ∷ [])) (r1 ∙ told.readyz);
        };
        started = three;
        ended = ap (λ o. o.1) (run1 ∙ (run2 ∙ run3)) ∙ pure_state finished (R.start mgr u).1;
      }

  complete-Told :
      (mgr : R.Manager) (cs : List Registration) (r : Registration) (s : R.State)
      → Told mgr cs [] [] s
      → (R.complete mgr r s).0 ≡ ok tt
      → Told mgr (cs ++ (r ∷ [])) [] [] (R.complete mgr r s).1
  complete-Told mgr cs r s told h =
      let (c, hz, rz) = laws.completed mgr r s h in
      record {
        controllers = c ∙ ap (λ l. l ++ (r ∷ [])) told.controllers;
        healthz = hz ∙ told.healthz;
        readyz = rz ∙ told.readyz;
      }

  abbrev all_controllers : List Registration
  all_controllers = policy_controller ∷ tool_controller ∷ report_controller ∷ []

  set_up-Ran :
      (mgr : R.Manager) (s : R.State)
      → Told mgr [] [] [] s
      → (set_up R mgr s).0 ≡ returned finished
      → Ran mgr all_controllers (set_up R mgr s).1
  unfolding set_up
  set_up-Ran mgr s told h =
      let rest3 : Unit {0} → Exec R.State Exit = λ _. serve R mgr in
      let rest2 : Unit {0} → Exec R.State Exit =
        λ _. or_exit (call (R.complete mgr report_controller)) rest3 in
      let rest1 : Unit {0} → Exec R.State Exit =
        λ _. or_exit (call (R.complete mgr tool_controller)) rest2 in
      let (_, one, run1) = or_exit-call (R.complete mgr policy_controller) rest1 s h in
      let t = (R.complete mgr policy_controller s).1 in
      let (_, two, run2) =
        or_exit-call (R.complete mgr tool_controller) rest2 t (ap (λ o. o.0) (sym run1) ∙ h) in
      let u = (R.complete mgr tool_controller t).1 in
      let (_, three, run3) =
        or_exit-call (R.complete mgr report_controller) rest3 u
          (ap (λ o. o.0) (sym (run1 ∙ run2)) ∙ h) in
      let v = (R.complete mgr report_controller u).1 in
      let run = run1 ∙ (run2 ∙ run3) in
      let ready =
        complete-Told mgr _ report_controller u
          (complete-Told mgr _ tool_controller t (complete-Told mgr [] policy_controller s told one)
            two)
          three in
      subst (λ o. Ran mgr all_controllers o.1) (sym run)
        (serve-Ran mgr all_controllers v ready (ap (λ o. o.0) (sym run) ∙ h))

  -- The scheme that was built recognizes what the controllers watch.
  abbrev pub Recognizes : R.schemes.Scheme → List Registration → Type 0
  Recognizes scheme cs = All (λ r. R.schemes.recognizes scheme r.watched ≡ true) cs

  init_scheme-Recognizes :
      SchemeLaws R.schemes
      → (scheme : R.schemes.Scheme) → init_scheme R ≡ ok scheme
      → Recognizes scheme all_controllers
  unfolding init_scheme
  init_scheme-Recognizes known scheme h =
      let (s, _, rest) = and_then-eq_ok (R.schemes.add_client_go R.schemes.new_scheme) _ h in
      let (t, _, rest') = and_then-eq_ok (R.schemes.add_kinds litmus_group_version _ s) _ rest in
      let (u, own, last) = and_then-eq_ok (R.schemes.add_kinds eirenyx_group_version _ t) _ rest' in
      let kinds =
        known.added eirenyx_group_version (policy_kinds ++ (report_kinds ++ tool_kinds)) t u own in
      (
        known.aqua_keeps u scheme _ last kinds.0,
        (
          known.aqua_keeps u scheme _ last kinds.1.1.1.1.0,
          (known.aqua_keeps u scheme _ last kinds.1.1.0, tt),
        ),
      )

  -- The program served: the scheme was built, the flags were parsed, and a manager made with the
  -- options of these flags was started last.
  pub record Served (s t : R.State) : Type 0 where
    pub scheme : R.schemes.Scheme
    pub values : List (String × FlagValue)
    pub mgr : R.Manager
    pub built : init_scheme R ≡ ok scheme
    pub known : Recognizes scheme all_controllers
    pub parsed : (R.parse_flags flag_vars s).0 ≡ ok values
    pub optioned : laws.options mgr ≡ manager_options R scheme (flags_of values)
    pub ran : Ran mgr all_controllers t

  run_with-Ran :
      (scheme : R.schemes.Scheme) (flags : Flags) (s : R.State)
      → (run_with R scheme flags s).0 ≡ returned finished
      → (mgr : R.Manager) × (laws.options mgr ≡ manager_options R scheme flags)
        × Ran mgr all_controllers (run_with R scheme flags s).1
  unfolding run_with
  run_with-Ran scheme flags s h =
      let o = manager_options R scheme flags in
      let rest3 : R.RestConfig → R.Manager → Exec R.State Exit =
        λ cfg mgr. or_exit (lift (new_client_from_config R cfg)) (λ _. set_up R mgr) in
      let rest2 : R.RestConfig → Exec R.State Exit =
        λ cfg. or_exit (call (R.new_manager cfg o)) (rest3 cfg) in
      let (cfg, one, run1) = or_exit-call R.get_config rest2 s h in
      let t = (R.get_config s).1 in
      let (mgr, two, run2) =
        or_exit-call (R.new_manager cfg o) (rest3 cfg) t (ap (λ p. p.0) (sym run1) ∙ h) in
      let u = (R.new_manager cfg o t).1 in
      let (client, run3) =
        or_exit-lift (new_client_from_config R cfg) (λ _. set_up R mgr) u
          (ap (λ p. p.0) (sym (run1 ∙ run2)) ∙ h) in
      let run = run1 ∙ (run2 ∙ run3) in
      let (options, controllers, healthz, readyz) = laws.made cfg o t mgr two in
      (
        mgr,
        options,
        subst (λ p. Ran mgr all_controllers p.1) (sym run)
            (set_up-Ran mgr u
              (record { controllers = controllers; healthz = healthz; readyz = readyz })
              (ap (λ p. p.0) (sym run) ∙ h)),
      )

  -- When the program ends with no exit code, its scheme was built and recognizes the kinds that the
  -- controllers watch, its manager had the options of the parsed flags, and was started once it had
  -- exactly the three controllers, in the order policy, tool and report, and the two checks; the start
  -- returned with no error and was the last call; provided that the calls of the manager and of the
  -- scheme that succeed add what they are given.
  pub main-Served :
      SchemeLaws R.schemes
      → (s : R.State) → (main R s).0 ≡ returned finished
      → Served s (main R s).1
  unfolding main
  main-Served known s h = elim (Result-cases (init_scheme R)) [
    | inr (e, f) ↦ absurd (panic_unfinished s (rw (f, main) at h))
    | inl (scheme, built) ↦ elim (Result-cases (R.parse_flags flag_vars s).0) [
      | inr (e, f) ↦ absurd (
          catch-unfinished (R.parse_flags flag_vars) R.parse_exit
            (λ given. run_with R scheme (flags_of given)) s e f (rw (built, main) at h))
      | inl (values, parsed) ↦
          let t = (R.parse_flags flag_vars s).1 in
          let run = main-run_with R scheme values s built parsed in
          let (mgr, options, ran) =
            run_with-Ran scheme (flags_of values) t (ap (λ p. p.0) (sym run) ∙ h) in
          record {
            scheme = scheme;
            values = values;
            mgr = mgr;
            built = built;
            known = init_scheme-Recognizes known scheme built;
            parsed = parsed;
            optioned = options;
            ran = subst (λ p. Ran mgr all_controllers p.1) (sym run) ran;
          }
    ]
  ]
