-- ===== src/Policy/Trivy.antt =====
-- internal/policy/trivy/engine.go: a scan Job for each scan of a policy.
pub mod Args
pub mod Jobs
pub mod Names
pub mod Refines
pub mod Settles
pub mod Validate
use eirenyx.Base.{
  String, ◌<>◌, Bool, Option, none, some, List, [], ◌∷◌, ◌++◌, ◌==◌, not, suc, ℕ, if◌then◌else◌,
  is_empty,
}
use eirenyx.Base.Int.{pos}
use eirenyx.Base.Text.{is_blank, decimal}
use eirenyx.Effect.{
  Result, ok, err, errorf, Exec, pure, fail, panic, lift, read, call, catch, ignore_not_found,
  is_not_found, ◌>>=◌, ◌>>◌,
}
use eirenyx.Api.Meta.{Key, ObjectMeta, named}
use eirenyx.Api.Policy.{Policy, TrivyScan, TrivyPolicySpec, policy_type_trivy}
use eirenyx.Api.Report.{PolicyReport, ReportPhase, empty_summary}
use eirenyx.Api.Workload.{Job}
use eirenyx.Cluster.{Cluster}

abbrev pub managed_by_label_key : String
managed_by_label_key = "app.kubernetes.io/managed-by"

abbrev pub managed_by_label_val : String
managed_by_label_val = "eirenyx"

abbrev pub policy_name_label_key : String
policy_name_label_key = "eirenyx.eirenyx/policy-name"

abbrev pub policy_type_label_key : String
policy_type_label_key = "eirenyx.eirenyx/policy-type"

abbrev pub trivy_scan_name_label_key : String
trivy_scan_name_label_key = "eirenyx.eirenyx/trivy-scan-name"

abbrev pub trivy_image : String
trivy_image = "aquasec/trivy:0.61.0"

-- `getScanJobName`, on the policy's name.
unfoldable pub scan_job_name : String → String → String
scan_job_name policy_name scan_name = "eirenyx-trivy-" <> (policy_name <> ("-" <> scan_name))

abbrev pub scan_key : Policy → TrivyScan → Key
scan_key p scan = record { namespace = p.namespace; name = scan_job_name p.name scan.name }

-- The loop of `Validate`, from the scan with index `i`.
unfoldable pub validate_scans : ℕ → List TrivyScan → Result (Unit {0})
validate_scans i [] = ok tt
validate_scans i (scan ∷ scans) =
    let rest = validate_scans (suc i) scans in
    if is_blank scan.name
    then err (errorf ("trivy.scans[" <> (decimal (pos i) <> "].name is required")))
    else if is_blank scan.image
    then err (errorf ("trivy.scans[" <> (decimal (pos i) <> "].image is required")))
    else rest

validate_spec : Option TrivyPolicySpec → Result (Unit {0})
validate_spec none = err (errorf "spec.trivy is required for type=trivy")
validate_spec (some spec) =
    if is_empty spec.scans
    then err (errorf "spec.trivy.scans must contain at least one scan")
    else validate_scans 0 spec.scans

unfoldable pub validate : Policy → Result (Unit {0})
unfolding validate_spec validate_scans
validate p =
    if p.spec.type == policy_type_trivy
    then validate_spec p.spec.trivy
    else err (errorf ("trivy engine received unsupported policy type: " <> p.spec.type))

abbrev when : {A : Type 0} → Bool → List A → List A
when b xs = if b then xs else []

vuln_type_args : List String → List String
vuln_type_args [] = []
vuln_type_args (vt ∷ vts) = "--vuln-type" ∷ vt ∷ vuln_type_args vts

-- The arguments of the scan container.
unfoldable pub scan_args : TrivyScan → List String
unfolding vuln_type_args
scan_args scan =
    ("image" ∷ "--format" ∷ "json" ∷ "--quiet" ∷ [])
    ++ (when (not (is_blank scan.severity)) ("--severity" ∷ scan.severity ∷ [])
        ++ (when scan.ignore_unfixed ("--ignore-unfixed" ∷ [])
            ++ (vuln_type_args scan.vulnerability_types
                ++ (elim (scan.exit_code) [ none ↦ [] | some c ↦ "--exit-code" ∷ decimal c ∷ [] ]
                    ++ (scan.image ∷ [])))))

-- The Job of a scan, before its owner is set.
unfoldable pub scan_job : Policy → TrivyScan → Job
unfolding scan_args
scan_job p scan = record {
  meta = record (named (scan_job_name p.name scan.name) p.namespace) {
    labels =
        (managed_by_label_key, managed_by_label_val)
        ∷ (policy_name_label_key, p.name)
        ∷ (policy_type_label_key, p.spec.type)
        ∷ (trivy_scan_name_label_key, scan.name)
        ∷ [];
  };
  spec = record {
    backoff_limit = some (pos 0);
    ttl_seconds_after_finished = some (pos 1800);
    template_labels = (trivy_scan_name_label_key, scan.name) ∷ [];
    restart_policy = "Never";
    containers =
        record {
          name = "trivy";
          image = trivy_image;
          command = "trivy" ∷ [];
          args = scan_args scan;
        }
        ∷ [];
  };
  status = record { succeeded = pos 0; failed = pos 0 };
}

-- A Job of which only the metadata is set.
abbrev pub bare_job : ObjectMeta → Job
bare_job meta = record {
  meta = meta;
  spec = record {
    backoff_limit = none;
    ttl_seconds_after_finished = none;
    template_labels = [];
    restart_policy = "";
    containers = [];
  };
  status = record { succeeded = pos 0; failed = pos 0 };
}

abbrev pub report_name : String → String
report_name policy_name = "trivy-report-" <> policy_name

-- The report of `GenerateReport` where none exists yet.
unfoldable pub new_report : Policy → PolicyReport
new_report p = record {
  meta = named (report_name p.name) p.namespace;
  spec = record {
    policy_ref = record { name = p.name; generation = p.generation };
    type = p.spec.type;
  };
  status = record { phase = ReportPhase.pending; summary = empty_summary; details = "" };
}

module _ (C : Cluster) where
  -- The body of the loop where the Job was not found.
  unfoldable pub create_scan_job : Policy → TrivyScan → Exec C.State (Unit {0})
  create_scan_job p scan = do
    let job = scan_job p scan
    meta ← lift (C.lib.set_controller_reference p job.meta)
    call (C.jobs.create (record job { meta = meta }))
    pure tt

  unfoldable pub reconcile_scan : Policy → TrivyScan → Exec C.State (Unit {0})
  reconcile_scan p scan =
      catch (read (C.jobs.get (scan_key p scan)))
        (λ e. if is_not_found e then create_scan_job p scan else fail e) (λ _. pure tt)

  unfoldable pub reconcile_scans : Policy → List TrivyScan → Exec C.State (Unit {0})
  reconcile_scans p [] = pure tt
  reconcile_scans p (scan ∷ scans) = reconcile_scan p scan >> reconcile_scans p scans

  -- A policy with no trivy spec is a nil dereference.
  unfoldable pub reconcile : Policy → Exec C.State (Unit {0})
  reconcile p = elim (p.spec.trivy) [ none ↦ panic | some t ↦ reconcile_scans p t.scans ]

  unfoldable pub delete_scan : Policy → TrivyScan → Exec C.State (Unit {0})
  delete_scan p scan =
      ignore_not_found
        (call (C.jobs.delete (bare_job (named (scan_job_name p.name scan.name) p.namespace))))

  unfoldable pub cleanup_scans : Policy → List TrivyScan → Exec C.State (Unit {0})
  cleanup_scans p [] = pure tt
  cleanup_scans p (scan ∷ scans) = delete_scan p scan >> cleanup_scans p scans

  unfoldable pub cleanup : Policy → Exec C.State (Unit {0})
  cleanup p = elim (p.spec.trivy) [ none ↦ panic | some t ↦ cleanup_scans p t.scans ]

  -- Any error of the read counts as "no report yet".
  unfoldable pub generate_report : Policy → Exec C.State PolicyReport
  generate_report p =
      catch (read (C.reports.get (record { namespace = p.namespace; name = report_name p.name })))
        (λ _. do
          let report = new_report p
          meta ← lift (C.lib.set_controller_reference p report.meta)
          pure (record report { meta = meta }))
        pure
