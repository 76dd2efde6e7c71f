-- ===== src/Tests/Server.antt =====
-- The laws of the API server hold of the cluster in memory.
use eirenyx.Base.{
  ◌≡◌, refl, sym, ap, ◌∙◌, ◌⊎◌, inl, inr, true, false, Option-cases, some, Bool-cases, arith, List,
  [], ◌∷◌, ◌++◌, eq_iff, String, contains, entry,
}
use eirenyx.Effect.{ok}
use eirenyx.Api.Meta.{Key, OwnerReference, key_of}
use eirenyx.Api.Policy.{Policy}
use eirenyx.Api.Report.{PolicyReport, PolicyReportStatus}
use eirenyx.Api.Tool.{Tool}
use eirenyx.Api.Workload.{Namespace, ConfigMap, Job, ChaosEngine}
use eirenyx.Cluster.Frame.{HelmKeeps, ToolKeeps, PolicyKeeps, RandomKeeps}
use eirenyx.Cluster.Laws.{OwnerAnswers}
use eirenyx.Controller.Policies.Rescan.{HasStatus}
use eirenyx.Controller.Policies.Reaches.{PolicyServer, LinkLaws}
use eirenyx.Report.Sound.{Versions, AllSound, Kept, StatusLaws}
use eirenyx.Tests.Memory.{find, table, same_key_iff, find-replace, table-IsFresh}
use eirenyx.Tests.Memory.Stores.{store-stored}
use eirenyx.Tests.Memory.Answers.{
  stored-update, stored-delete, stored-store, update_apart, status_apart, patch_apart, create_apart,
  delete_apart, store_apart,
}
use eirenyx.Tests.World.{
  World, memory, library, helm_sdk, owned_by, add_owner, policy_place, tool_place, report_place,
  config_map_place, job_place, chaos_engine_place, namespace_place,
}

-- The cluster in memory has no cache: the versions that count are the stored reports.
abbrev pub current : Versions memory
current x s b = memory.reports.stored x s ≡ some b

-- Soundness looks at the reports alone.
pub same_reports-AllSound :
    (s t : World) → t.reports ≡ s.reports → AllSound memory current s → AllSound memory current t
unfolding table
same_reports-AllSound s t same h = record {
  sound = λ x b e. h.sound x b (ap (find PolicyReport.meta x) (sym same) ∙ e);
}

memory_helm : HelmKeeps helm_sdk (AllSound memory current)
unfolding helm_sdk
memory_helm = record {
  make_cache_keeps = λ s h. h;
  create_config_keeps = λ s h. h;
  write_repo_file_keeps = λ f s h. h;
  download_index_keeps = λ r s h. h;
  install_keeps = λ ns release chart values s h. same_reports-AllSound s _ refl h;
  upgrade_keeps = λ ns release chart values s h. same_reports-AllSound s _ refl h;
  uninstall_keeps = λ ns release s h. elim (Option-cases (entry release s.releases)) [
    | inl e ↦ same_reports-AllSound s _ (ground arith) h
    | inr (a, e) ↦ same_reports-AllSound s _ (ground arith) h
  ];
}

pub memory-ToolKeeps : ToolKeeps memory (AllSound memory current)
memory-ToolKeeps = record {
  helm_keeps = memory_helm;
  tool_status_keeps = λ t s.
      same_reports-AllSound s _ (status_apart Tool.meta tool_place World.reports (λ l w. refl) t s);
  tool_patch_keeps = λ t u s.
      same_reports-AllSound s _
        (patch_apart Tool.meta tool_place World.reports (λ l w. refl) t u s);
  namespace_create_keeps = λ n s.
      same_reports-AllSound s _
        (create_apart Namespace.meta namespace_place World.reports (λ l w. refl) n s);
  namespace_delete_keeps = λ n s.
      same_reports-AllSound s _
        (delete_apart Namespace.meta namespace_place World.reports (λ l w. refl) n s);
}

-- A property that looks at the reports alone is kept by the calls on other kinds of objects.
pub memory-PolicyKeeps :
    (P : World → Type 0)
    → ((s t : World) → t.reports ≡ s.reports → P s → P t)
    → PolicyKeeps memory P
memory-PolicyKeeps P same = record {
  policy_update_keeps =
      λ p s. same s _ (update_apart Policy.meta policy_place World.reports (λ l w. refl) p s);
  policy_status_keeps =
      λ p s. same s _ (status_apart Policy.meta policy_place World.reports (λ l w. refl) p s);
  config_map_store_keeps = λ c f s.
      same s _ (store_apart ConfigMap.meta config_map_place World.reports (λ l w. refl) c f s);
  config_map_delete_keeps = λ c s.
      same s _ (delete_apart ConfigMap.meta config_map_place World.reports (λ l w. refl) c s);
  job_create_keeps =
      λ j s. same s _ (create_apart Job.meta job_place World.reports (λ l w. refl) j s);
  job_delete_keeps =
      λ j s. same s _ (delete_apart Job.meta job_place World.reports (λ l w. refl) j s);
  chaos_engine_store_keeps = λ e f s.
      same s _ (store_apart ChaosEngine.meta chaos_engine_place World.reports (λ l w. refl) e f s);
  chaos_engine_delete_keeps = λ e s.
      same s _ (delete_apart ChaosEngine.meta chaos_engine_place World.reports (λ l w. refl) e s);
}

pub same_reports-HasStatus :
    (x : Key) (st : PolicyReportStatus) (s t : World)
    → t.reports ≡ s.reports
    → HasStatus memory x st s
    → HasStatus memory x st t
unfolding table
same_reports-HasStatus x st s t same (b, stored, status) =
    (b, ap (find PolicyReport.meta x) same ∙ stored, status)

pub store-HasStatus :
    (x : Key) (st : PolicyReportStatus) (a : PolicyReport) (f : PolicyReport → PolicyReport)
    (s : World)
    → ((r : PolicyReport) → (f r).status ≡ r.status)
    → HasStatus memory x st s
    → HasStatus memory x st (memory.reports.create_or_update a (λ r. ok (f r)) s).1
store-HasStatus x st a f s same (b, stored, status) =
    elim (store-stored PolicyReport.meta report_place (λ l w. refl) a f s x b stored) [
      | inl kept ↦ (b, kept, status)
      | inr made ↦ (f b, made, same b ∙ status)
    ]

pub memory-RandomKeeps : RandomKeeps memory (AllSound memory current)
memory-RandomKeeps = record {
  random_keeps = λ n s h. h;
  shuffle_keeps = λ pods s h. h;
  range_keeps = λ pods s h. h;
}

memory_stores :
    (a : PolicyReport) (f : PolicyReport → PolicyReport) (s : World) (x : Key) (b : PolicyReport)
    → ((r : PolicyReport) → (f r).status ≡ r.status)
    → memory.reports.stored x (memory.reports.create_or_update a (λ r. ok (f r)) s).1 ≡ some b
    → Kept memory current s x b ⊎ (b.status ≡ a.status)
memory_stores a f s x b same e =
    elim (stored-store PolicyReport.meta report_place (λ l w. refl) a f s x b e) [
      | inl before ↦ inl (b, before, refl)
      | inr (inl new) ↦ inr (ap PolicyReport.status new ∙ same a)
      | inr (inr (c, stored, made)) ↦ inl (c, stored, ap PolicyReport.status made ∙ same c)
    ]

pub memory-StatusLaws : StatusLaws memory current
memory-StatusLaws = record {
  get_version = (table-IsFresh PolicyReport.meta report_place).get_fresh;
  stored_version = λ x s b e. e;
  update_status_writes = λ a s x b e.
      elim (stored-update PolicyReport.meta report_place (λ l w. refl) a s x b e) [
        | inl before ↦ inl (b, before, refl)
        | inr (same, _) ↦ inr (ap PolicyReport.status same)
      ];
  store_writes = λ a f s x b same e. elim (memory_stores a f s x b same e) [
    | inl kept ↦ inl kept
    | inr given ↦ inr (inl given)
  ];
  delete_writes =
      λ a s x b e. (b, stored-delete PolicyReport.meta report_place (λ l w. refl) a s x b e, refl);
}

pub memory-OwnerAnswers : OwnerAnswers library
unfolding library
memory-OwnerAnswers = record { controller_answers = λ p m. (_, refl) }

memory_update :
    (p old : Policy) (s : World)
    → memory.policies.get (key_of p.meta) s ≡ ok old
    → ((memory.policies.update p s).0 ≡ ok p)
      × (memory.policies.get (key_of p.meta) (memory.policies.update p s).1 ≡ ok p)
unfolding table
memory_update p old s h = elim (Option-cases (find Policy.meta (key_of p.meta) s.policies)) [
  | inl e ↦ ground arith
  | inr (b, e) ↦
      let now = find-replace Policy.meta (key_of p.meta) p s.policies in
      ground (arith, same_key_iff (key_of p.meta) (key_of p.meta))
]

pub memory-PolicyServer : PolicyServer memory
unfolding table
memory-PolicyServer = record {
  update_answers = λ p old s h alive.
      let (taken, read) = memory_update p old s h in
      (
        p,
        taken,
        read,
        record {
          same_key = refl;
          same_spec = refl;
          same_finalizers = refl;
          same_owners = refl;
          same_deletion = refl;
        },
      );
  update_keeps_tools =
      λ p s x. update_apart Policy.meta policy_place (λ w. memory.tools.get x w) (λ l w. refl) p s;
}

contains-append : (l : List String) (f : String) → contains (l ++ (f ∷ [])) f ≡ true
unfolding contains
contains-append [] f = ground (arith, eq_iff f f)
contains-append (x ∷ l) f = ground (arith, contains-append l f)

owned_by-append :
    (name : String) (o : OwnerReference) (l : List OwnerReference)
    → o.name ≡ name
    → owned_by name (l ++ (o ∷ [])) ≡ true
unfolding owned_by
owned_by-append name o [] h = ground (arith, eq_iff o.name name)
owned_by-append name o (x ∷ l) h = ground (arith, owned_by-append name o l h)

pub memory-LinkLaws : (tool : Tool) → LinkLaws memory tool
unfolding library
memory-LinkLaws tool = record {
  added_finalizer = λ l f. elim (Bool-cases (contains l f)) [
    | inl e ↦ ground arith
    | inr e ↦ ground (arith, contains-append l f)
  ];
  owner_known = λ owners. (owned_by tool.name owners, refl);
  owner_set = λ m together.
      let o : OwnerReference = record {
        kind = "Tool";
        name = tool.name;
        uid = tool.meta.uid;
        controller = false;
      } in
      (
        add_owner o m,
        refl,
        ap (λ b. ok b) (owned_by-append tool.name o m.owner_references refl),
        refl,
        refl,
        refl,
      );
}
