-- ===== src/Cmd.antt =====
-- cmd/main.go: the flags, the options of the servers and of the manager, and the start of the program.
pub mod Exits
pub mod Laws
pub mod Outcomes
pub mod Servers
pub mod Start
pub mod Steps
use eirenyx.Base.{
  ℕ, String, ◌<>◌, Bool, true, false, Option, none, some, List, [], ◌∷◌, ◌++◌, ◌==◌, entry, not,
  if◌then◌else◌,
}
use eirenyx.Base.Text.{is_blank}
use eirenyx.Effect.{Error, Result, ok, err, Exec, pure, panic, lift, call, catch, wrap, ◌>>=◌}
use eirenyx.Api.Scheme.{
  SchemeLib, GroupVersion, eirenyx_group_version, litmus_group_version, policy_kinds, report_kinds,
  tool_kinds, chaos_engine_kinds, chaos_experiment_kinds, chaos_result_kinds,
}
use eirenyx.Controller.Setup.{Registration, policy_controller, tool_controller, report_controller}

pub data FlagValue : Type 0 where
  text : String → FlagValue
  switch : Bool → FlagValue

-- `flag.StringVar` and `flag.BoolVar`: the flag and its default.
pub record FlagVar : Type 0 where
  pub name : String
  pub default : FlagValue

abbrev flag_var : String → FlagValue → FlagVar
flag_var name default = record { name = name; default = default }

-- The flags that `main` declares. The logger's own come with the parser.
abbrev pub flag_vars : List FlagVar
flag_vars =
    flag_var "metrics-bind-address" (text "0")
    ∷ flag_var "health-probe-bind-address" (text ":8081")
    ∷ flag_var "leader-elect" (switch false)
    ∷ flag_var "metrics-secure" (switch true)
    ∷ flag_var "webhook-cert-path" (text "")
    ∷ flag_var "webhook-cert-name" (text "tls.crt")
    ∷ flag_var "webhook-cert-key" (text "tls.key")
    ∷ flag_var "metrics-cert-path" (text "")
    ∷ flag_var "metrics-cert-name" (text "tls.crt")
    ∷ flag_var "metrics-cert-key" (text "tls.key")
    ∷ flag_var "enable-http2" (switch false)
    ∷ []

-- The variables of `main` after `flag.Parse`.
pub record Flags : Type 0 where
  pub metrics_addr : String
  pub metrics_cert_path : String
  pub metrics_cert_name : String
  pub metrics_cert_key : String
  pub webhook_cert_path : String
  pub webhook_cert_name : String
  pub webhook_cert_key : String
  pub enable_leader_election : Bool
  pub probe_addr : String
  pub secure_metrics : Bool
  pub enable_http2 : Bool

abbrev text_of : Option FlagValue → String
text_of o = elim o [ none ↦ "" | some v ↦ elim v [ text t ↦ t | switch b ↦ "" ] ]

abbrev switch_of : Option FlagValue → Bool
switch_of o = elim o [ none ↦ false | some v ↦ elim v [ text t ↦ false | switch b ↦ b ] ]

-- Each variable holds the value that its flag was parsed to.
unfoldable pub flags_of : List (String × FlagValue) → Flags
unfolding entry
flags_of values = record {
  metrics_addr = text_of (entry "metrics-bind-address" values);
  metrics_cert_path = text_of (entry "metrics-cert-path" values);
  metrics_cert_name = text_of (entry "metrics-cert-name" values);
  metrics_cert_key = text_of (entry "metrics-cert-key" values);
  webhook_cert_path = text_of (entry "webhook-cert-path" values);
  webhook_cert_name = text_of (entry "webhook-cert-name" values);
  webhook_cert_key = text_of (entry "webhook-cert-key" values);
  enable_leader_election = switch_of (entry "leader-elect" values);
  probe_addr = text_of (entry "health-probe-bind-address" values);
  secure_metrics = switch_of (entry "metrics-secure" values);
  enable_http2 = switch_of (entry "enable-http2" values);
}

-- `webhook.Options`
pub record WebhookOptions (Tls : Type 0) : Type 0 where
  pub tls_opts : List (Tls → Tls)
  pub cert_dir : String
  pub cert_name : String
  pub key_name : String

-- `metricsserver.Options`; the filter is the one with authentication and authorization, or none.
pub record MetricsOptions (Tls : Type 0) : Type 0 where
  pub bind_address : String
  pub secure_serving : Bool
  pub tls_opts : List (Tls → Tls)
  pub filtered : Bool
  pub cert_dir : String
  pub cert_name : String
  pub key_name : String

-- `ctrl.Options`
pub record ManagerOptions (Tls Scheme : Type 0) : Type 0 where
  pub scheme : Scheme
  pub metrics : MetricsOptions Tls
  pub webhook_server : WebhookOptions Tls
  pub health_probe_bind_address : String
  pub leader_election : Bool
  pub leader_election_id : String

-- `flag`, `crypto/tls`, controller-runtime and client-go. `complete` is the builder's last call. A
-- parsed flag that was not given has its default, and `parse_exit` is the code with which the parser
-- ends the program, which a call for help sets apart from an error.
pub record Runtime : Type 1 where
  pub schemes : SchemeLib
  pub State : Type 0
  pub Tls : Type 0
  pub RestConfig : Type 0
  pub Clientset : Type 0
  pub Manager : Type 0
  pub set_next_protos : List String → Tls → Tls
  pub parse_exit : Error → ℕ
  pub parse_flags : List FlagVar → State → Result (List (String × FlagValue)) × State
  pub get_config : State → Result RestConfig × State
  pub new_manager :
      RestConfig → ManagerOptions Tls (schemes.Scheme) → State → Result Manager × State
  pub new_for_config : RestConfig → Result Clientset
  pub complete : Manager → Registration → State → Result (Unit {0}) × State
  pub add_healthz_check : Manager → String → State → Result (Unit {0}) × State
  pub add_readyz_check : Manager → String → State → Result (Unit {0}) × State
  pub start : Manager → State → Result (Unit {0}) × State

-- How the program ends.
pub data Exit : Type 0 where
  finished : Exit
  exited : ℕ → Exit

-- `setupLog.Error(err, ...)` and `os.Exit(1)` on an error.
abbrev pub or_exit : {S A : Type 0} → Exec S A → (A → Exec S Exit) → Exec S Exit
or_exit m rest = catch m (λ _. pure (exited 1)) rest

-- One call after the other, up to the first error.
abbrev pub and_then : {A B : Type 0} → Result A → (A → Result B) → Result B
and_then (ok a) f = f a
and_then (err e) f = err e

module _ (R : Runtime) where
  -- The function `init`; an error is a panic of `utilruntime.Must`.
  unfoldable pub init_scheme : Result (R.schemes.Scheme)
  init_scheme = and_then (R.schemes.add_client_go R.schemes.new_scheme) (λ s.
      and_then
        (R.schemes.add_kinds litmus_group_version
          (chaos_engine_kinds ++ (chaos_experiment_kinds ++ chaos_result_kinds)) s)
        (λ t.
          and_then
            (R.schemes.add_kinds eirenyx_group_version
              (policy_kinds ++ (report_kinds ++ tool_kinds)) t)
            R.schemes.add_aqua))

  abbrev pub disable_http2 : R.Tls → R.Tls
  disable_http2 c = R.set_next_protos ("http/1.1" ∷ []) c

  unfoldable pub tls_opts : Flags → List (R.Tls → R.Tls)
  tls_opts flags = if not flags.enable_http2 then disable_http2 ∷ [] else []

  unfoldable pub webhook_server_options : Flags → WebhookOptions R.Tls
  webhook_server_options flags =
      if is_blank flags.webhook_cert_path
      then record { tls_opts = tls_opts flags; cert_dir = ""; cert_name = ""; key_name = "" }
      else record {
        tls_opts = tls_opts flags;
        cert_dir = flags.webhook_cert_path;
        cert_name = flags.webhook_cert_name;
        key_name = flags.webhook_cert_key;
      }

  bare_metrics_options : Flags → MetricsOptions R.Tls
  bare_metrics_options flags = record {
    bind_address = flags.metrics_addr;
    secure_serving = flags.secure_metrics;
    tls_opts = tls_opts flags;
    filtered = flags.secure_metrics;
    cert_dir = "";
    cert_name = "";
    key_name = "";
  }

  unfoldable pub metrics_server_options : Flags → MetricsOptions R.Tls
  unfolding bare_metrics_options
  metrics_server_options flags =
      if is_blank flags.metrics_cert_path
      then bare_metrics_options flags
      else record (bare_metrics_options flags) {
        cert_dir = flags.metrics_cert_path;
        cert_name = flags.metrics_cert_name;
        key_name = flags.metrics_cert_key;
      }

  unfoldable pub manager_options :
      R.schemes.Scheme → Flags → ManagerOptions R.Tls (R.schemes.Scheme)
  manager_options scheme flags = record {
    scheme = scheme;
    metrics = metrics_server_options flags;
    webhook_server = webhook_server_options flags;
    health_probe_bind_address = flags.probe_addr;
    leader_election = flags.enable_leader_election;
    leader_election_id = "bccb6885.eirenyx";
  }

  -- `NewClientFromConfig`; `NewClient` only wraps the clientset.
  unfoldable pub new_client_from_config : R.RestConfig → Result R.Clientset
  new_client_from_config cfg = elim (R.new_for_config cfg) [
    | err e ↦ err (wrap "creating kubernetes clientset" e)
    | ok clientset ↦ ok clientset
  ]

  -- The checks and the start.
  unfoldable pub serve : R.Manager → Exec R.State Exit
  serve mgr = or_exit (call (R.add_healthz_check mgr "healthz")) (λ _.
      or_exit (call (R.add_readyz_check mgr "readyz"))
        (λ _. or_exit (call (R.start mgr)) (λ _. pure finished)))

  -- The three controllers.
  unfoldable pub set_up : R.Manager → Exec R.State Exit
  set_up mgr = or_exit (call (R.complete mgr policy_controller)) (λ _.
      or_exit (call (R.complete mgr tool_controller))
        (λ _. or_exit (call (R.complete mgr report_controller)) (λ _. serve mgr)))

  unfoldable pub run_with : R.schemes.Scheme → Flags → Exec R.State Exit
  run_with scheme flags = or_exit (call R.get_config) (λ cfg.
      or_exit (call (R.new_manager cfg (manager_options scheme flags)))
        (λ mgr. or_exit (lift (new_client_from_config cfg)) (λ _. set_up mgr)))

  -- `init` and `main`; a failed `flag.Parse` ends the program.
  unfoldable pub main : Exec R.State Exit
  main = elim (init_scheme) [
    | err e ↦ panic
    | ok scheme ↦
        catch (call (R.parse_flags flag_vars)) (λ e. pure (exited (R.parse_exit e)))
          (λ values. run_with scheme (flags_of values))
  ]
