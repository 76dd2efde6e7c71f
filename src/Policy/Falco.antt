-- ===== src/Policy/Falco.antt =====
-- internal/policy/falco/engine.go: a ConfigMap that says what to observe.
pub mod Validate
pub mod Cleanup
use eirenyx.Base.{
  String, ◌<>◌, Bool, true, false, not, Option, none, some, List, [], ◌∷◌, ◌==◌, ◌&&◌,
  if◌then◌else◌, put_entry,
}
use eirenyx.Base.Text.{is_blank}
use eirenyx.Effect.{
  Result, ok, err, errorf, Exec, pure, fail, read, call, catch, is_not_found, ◌>>=◌, ◌>>◌,
}
use eirenyx.Api.Meta.{Key, named}
use eirenyx.Api.Policy.{Policy, FalcoObserveSpec, FalcoPolicySpec, FalcoRuleRef, policy_type_falco}
use eirenyx.Api.Report.{PolicyReport, ReportPhase, empty_summary}
use eirenyx.Api.Workload.{ConfigMap}
use eirenyx.Cluster.{Cluster, Library}

-- `falcoPolicyConfigMapName`
unfoldable pub config_map_name : Policy → String
config_map_name p = "eirenyx-falco-policy-" <> p.name

abbrev is_set : {A : Type 0} → Option A → Bool
is_set o = elim o [ none ↦ false | some _ ↦ true ]

abbrev has_blank_name : Option FalcoRuleRef → Bool
has_blank_name o = elim o [ none ↦ false | some r ↦ is_blank r.name ]

validate_observe : FalcoObserveSpec → Result (Unit {0})
validate_observe o =
    if not (is_set o.rule_ref) && not (is_set o.rule_selector)
    then err (errorf "falco policy must define either ruleRef or ruleSelector")
    else if is_set o.rule_ref && is_set o.rule_selector
    then err (errorf "falco policy cannot define both ruleRef and ruleSelector")
    else if has_blank_name o.rule_ref
    then err (errorf "ruleRef.name must not be empty")
    else ok tt

validate_spec : Option FalcoPolicySpec → Result (Unit {0})
validate_spec none = err (errorf "falco policy spec must be defined")
validate_spec (some spec) = validate_observe spec.observe

unfoldable pub validate : Policy → Result (Unit {0})
unfolding validate_spec validate_observe
validate p =
    if p.spec.type == policy_type_falco
    then validate_spec p.spec.falco
    else err (errorf ("falco engine received unsupported policy type: " <> p.spec.type))

-- The function that `Reconcile` hands to `CreateOrUpdate`.
unfoldable pub fill_config_map : Library → Policy → ConfigMap → Result ConfigMap
fill_config_map lib p cm = elim (lib.set_controller_reference p cm.meta) [
  | err e ↦ err e
  | ok meta ↦ elim (lib.marshal_falco p.spec.falco) [
    | err e ↦ err e
    | ok bytes ↦ ok (record {
      meta = record meta {
        labels =
            put_entry "eirenyx.io/policy" p.name
              (put_entry "eirenyx.io/type" "falco-policy" meta.labels);
      };
      data_entries = put_entry "falcoPolicy.json" bytes cm.data_entries;
    })
  ]
]

abbrev pub config_map_key : Policy → Key
config_map_key p = record { namespace = p.namespace; name = config_map_name p }

abbrev pub report_name : String → String
report_name policy_name = "falco-report-" <> policy_name

-- `GenerateReport` builds the report anew, whether or not one exists.
unfoldable pub generate_report : Policy → PolicyReport
generate_report p = record {
  meta = named (report_name p.name) p.namespace;
  spec = record {
    policy_ref = record { name = p.name; generation = p.generation };
    type = p.spec.type;
  };
  status = record { phase = ReportPhase.pending; summary = empty_summary; details = "" };
}

module _ (C : Cluster) where
  unfoldable pub reconcile : Policy → Exec C.State (Unit {0})
  reconcile p =
      call (
        C.config_maps.create_or_update
          (record { meta = named (config_map_name p) p.namespace; data_entries = [] })
          (fill_config_map C.lib p))
      >> pure tt

  -- Any error of the read counts as "no ConfigMap".
  unfoldable pub delete_config_map : Policy → Exec C.State (Unit {0})
  delete_config_map p =
      catch (read (C.config_maps.get (config_map_key p))) (λ _. pure tt)
        (λ cm. call (C.config_maps.delete cm))

  -- The loop over the listed reports. It ends, with no error, at a report that is gone already.
  unfoldable pub delete_reports : Policy → List PolicyReport → Exec C.State (Unit {0})
  delete_reports p [] = pure tt
  delete_reports p (report ∷ reports) =
      let rest = delete_reports p reports in
      if report.spec.policy_ref.name == p.name
      then catch (call (C.reports.delete report)) (λ e. if is_not_found e then pure tt else fail e)
          (λ _. rest)
      else rest

  unfoldable pub cleanup : Policy → Exec C.State (Unit {0})
  cleanup p = do
    delete_config_map p
    reports ← read (C.reports.list (record { namespace = some p.namespace; labels = [] }))
    delete_reports p reports
