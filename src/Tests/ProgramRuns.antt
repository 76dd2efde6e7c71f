-- ===== src/Tests/ProgramRuns.antt =====
-- Runs of the whole program and of its permissions.
use mathlib.Core.Path.{subst}
use eirenyx.Base.{
  All, All-map, arith, eq_iff, String, Bool, true, false, ◌≡◌, ◌⊎◌, refl, List, [], ◌∷◌, ◌++◌, map,
  contains,
}
use eirenyx.Effect.{Error, ok, err, returned, panicked, catch, lift, call, pure}
use eirenyx.Cmd
use eirenyx.Cmd.{
  Runtime, Flags, ManagerOptions, FlagVar, FlagValue, exited, flag_vars, finished, main, flags_of,
  metrics_server_options, webhook_server_options,
}
use eirenyx.Cmd.Outcomes.{Concludes, main-Concludes}
use eirenyx.Cmd.Servers.{TlsLaws, Offers, servers-Offers}
use eirenyx.Cmd.Laws.{ManagerLaws, SchemeLaws}
use eirenyx.Cmd.Start.{Served, main-Served}
use eirenyx.Controller.Policies as PolicyControl
use eirenyx.Controller.Reports as ReportControl
use eirenyx.Controller.Tools as ToolControl
use eirenyx.Controller.Rbac.{Request, covered, markers}
use eirenyx.Controller.Rbac.Access.{Authorizer, AuthorizerLaws, guarded, access}
use eirenyx.Controller.Rbac.Role.{manager_role, manager_role-markers}
use eirenyx.Controller.Rbac.Suffices.{markers_suffice}
use eirenyx.Controller.Setup.{Registration}
use eirenyx.Tests.SystemRuns.{new_policy, shells}
use eirenyx.Tests.World.{memory}

abbrev create_job : Request
create_job = record { group = "batch"; resource = "jobs"; verb = "create" }

manager_role-markers_example : covered manager_role create_job ≡ covered markers create_job
manager_role-markers_example = manager_role-markers create_job

abbrev literal : Authorizer
literal = record { allows = covered }

literal-AuthorizerLaws : AuthorizerLaws literal
literal-AuthorizerLaws = record { allows_covered = λ rules q h. h }

markers_suffice_example :
    (PolicyControl.reconcile (guarded (access literal markers) memory) shells new_policy
      ≡ PolicyControl.reconcile memory shells new_policy)
    × (ReportControl.reconcile (guarded (access literal markers) memory) shells new_policy
        ≡ ReportControl.reconcile memory shells new_policy)
    × (ToolControl.reconcile (guarded (access literal markers) memory) shells new_policy
        ≡ ToolControl.reconcile memory shells new_policy)
markers_suffice_example = markers_suffice literal literal-AuthorizerLaws memory shells new_policy

-- What the one manager of the process has been told.
record Process : Type 0 where
  controllers : List Registration
  healthz : List String
  readyz : List String
  serving : Bool

abbrev fresh : Process
fresh = record { controllers = []; healthz = []; readyz = []; serving = false }

-- Kinds are remembered by name, flags keep their defaults, and every call succeeds.
abbrev runtime : Runtime
runtime = record {
  schemes = record {
    Scheme = List String;
    new_scheme = [];
    add_kinds = λ _ kinds scheme. ok (scheme ++ kinds);
    add_client_go = λ scheme. ok scheme;
    add_aqua = λ scheme. ok scheme;
    recognizes = λ scheme k. contains scheme k.kind;
  };
  State = Process;
  Tls = List String;
  RestConfig = Unit;
  Clientset = Unit;
  Manager = ManagerOptions (List String) (List String);
  set_next_protos = λ protos _. protos;
  parse_exit = λ _. 2;
  parse_flags = λ vars s. (ok (map (λ v. (v.name, v.default)) vars), s);
  get_config = λ s. (ok tt, s);
  new_manager = λ _ o s. (ok o, record s { controllers = []; healthz = []; readyz = [] });
  new_for_config = λ _. ok tt;
  complete = λ _ r s. (ok tt, record s { controllers = s.controllers ++ (r ∷ []) });
  add_healthz_check = λ _ name s. (ok tt, record s { healthz = s.healthz ++ (name ∷ []) });
  add_readyz_check = λ _ name s. (ok tt, record s { readyz = s.readyz ++ (name ∷ []) });
  start = λ _ s. (ok tt, record s { serving = true });
}

runtime-ManagerLaws : ManagerLaws runtime
runtime-ManagerLaws = record {
  options = λ m. m;
  controllers = λ _ s. s.controllers;
  healthz = λ _ s. s.healthz;
  readyz = λ _ s. s.readyz;
  made = λ cfg o s m e. (cc, refl, refl, refl);
  completed = λ m r s e. (refl, refl, refl);
  healthz_added = λ m name s e. (refl, refl, refl);
  readyz_added = λ m name s e. (refl, refl, refl);
}

ok_path : {A : Type 0} {a b : A} → ok a ≡ ok b → a ≡ b
ok_path e = cc

contains_right : (l m : List String) (x : String) → contains m x ≡ true → contains (l ++ m) x ≡ true
unfolding contains
contains_right [] m x h = h
contains_right (y ∷ l) m x h = ground (arith, contains_right l m x)

All-contained : (m : List String) → All (λ k. contains m k ≡ true) m
unfolding contains
All-contained [] = tt
All-contained (x ∷ m) =
    (ground (arith, eq_iff x x), All-map (λ k h. ground (arith, h)) m (All-contained m))

runtime-SchemeLaws : SchemeLaws runtime.schemes
runtime-SchemeLaws = record {
  added = λ gv kinds s t e.
      subst (λ u. All (λ k. contains u k ≡ true) kinds) (ok_path e)
        (All-map (λ k h. contains_right s kinds k h) kinds (All-contained kinds));
  aqua_keeps = λ s t k e h. subst (λ u. contains u k.kind ≡ true) (ok_path e) h;
}

main-Served_example : Served runtime runtime-ManagerLaws fresh (main runtime fresh).1
unfolding main Cmd.init_scheme catch call Cmd.run_with lift Cmd.new_client_from_config Cmd.set_up
    Cmd.serve pure
main-Served_example = main-Served runtime runtime-ManagerLaws runtime-SchemeLaws fresh refl

main-Concludes_example :
    ((e : Error) × (Cmd.init_scheme runtime ≡ err e) × (main runtime fresh ≡ (panicked, fresh)))
    ⊎ ((scheme : List String) × (Cmd.init_scheme runtime ≡ ok scheme)
        × (((e : Error) × ((runtime.parse_flags flag_vars fresh).0 ≡ err e)
              × (main runtime fresh ≡ (returned (exited 2), fresh)))
            ⊎ ((values : List (String × FlagValue)) × ((runtime.parse_flags flag_vars fresh).0
                  ≡ ok values)
                × Concludes runtime runtime-ManagerLaws runtime-SchemeLaws fresh)))
main-Concludes_example = main-Concludes runtime runtime-ManagerLaws runtime-SchemeLaws fresh

runtime-TlsLaws : TlsLaws runtime
runtime-TlsLaws = record { next_protos = λ c. c; set_read = λ protos c. refl }

-- Metrics over HTTPS with a certificate of its own.
abbrev certified : Flags
certified = record {
  metrics_addr = ":8443";
  metrics_cert_path = "/certs";
  metrics_cert_name = "tls.crt";
  metrics_cert_key = "tls.key";
  webhook_cert_path = "";
  webhook_cert_name = "tls.crt";
  webhook_cert_key = "tls.key";
  enable_leader_election = true;
  probe_addr = ":8081";
  secure_metrics = true;
  enable_http2 = false;
}

servers-Offers_example :
    Offers runtime runtime-TlsLaws
      (metrics_server_options runtime certified).tls_opts
      certified
      ("h2" ∷ [])
    × Offers runtime runtime-TlsLaws
        (webhook_server_options runtime certified).tls_opts
        certified
        ("h2" ∷ [])
    × ((metrics_server_options runtime certified).filtered
        ≡ (metrics_server_options runtime certified).secure_serving)
servers-Offers_example = servers-Offers runtime runtime-TlsLaws certified ("h2" ∷ [])
