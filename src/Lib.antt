-- ===== src/Lib.antt =====
-- Eirenyx: a Kubernetes operator that installs security tools (Trivy, Falco, Litmus) as Helm
-- releases, turns policies into scan Jobs, ConfigMaps and ChaosEngines, and fills a report for each
-- policy. This library models the operator's Go code and proves what keeps it correct.
--
-- Parts, and the files that model them:
--
--   Api/         api/v1alpha1/*.go, api/litmus/chaosengine_types.go, the registered kinds (Scheme),
--                and the JSON shapes of internal/report/trivy_json.go: the resources as records. A
--                nil pointer is `none`, a map is the list of its entries in the order in which a
--                range over it goes.
--   Cmd          cmd/main.go: the flags, the options of the servers and the manager, the set-up and
--                the exit codes; the manager and its libraries are a parameter (Runtime).
--   Effect       Go's control flow. A function is a run from a state to an outcome (returned,
--                failed with an error, or panicked) and a state; `catch` is `if err != nil`.
--                Effect/Keeps has the rules by which an invariant passes through a run, Effect/Yields
--                those for what a run returns, Effect/Calm those by which a run does not panic, and
--                Effect/Ends how a run goes on after a known end.
--   Cluster      what the program reaches through its clients, as a parameter: the calls of every
--                kind of object, controllerutil, JSON, the random source and the order in which a
--                loop takes a map's entries. Cluster/Laws states what the documentation of the API
--                server promises, as hypotheses; Cluster/Frame names the calls that each part of the
--                program makes.
--   Helm         internal/client/helm/manager.go; the Helm SDK is a parameter (HelmSdk). Helm/Values
--                is `deepMerge` on JSON objects, Helm/Merge its specification by keys and Helm/Paths
--                the one by paths. Helm/Releases and Helm/Uninstalls state what Helm documents of
--                its releases and what the manager's calls make of them.
--   Kube         internal/client/k8s/client.go: namespaces, the readiness of workloads, pods and logs.
--   Utils        internal/utils/string_utils.go: JoinQuoted and ToYamlBlock; Contains is in Base/Lists.
--   Tools        internal/tools/*.go: the three tool services. The steps that the three source files
--                repeat are one definition with their constants as arguments.
--   Policy/      internal/policy/{falco,litmus,trivy}/engine.go: `Validate`, `Reconcile`, `Cleanup`,
--                `GenerateReport` of an engine are `validate`, `reconcile`, `cleanup` and
--                `generate_report` of its module; a loop is a function on the list it ranges over.
--   Report/      internal/report/*.go: the three report handlers, the pod details (Pods) and the
--                flattening of Trivy's JSON (Flatten). Report/Sound says which statuses a report
--                may have.
--   Controller/  internal/controller/*.go: the factories (Controller), and the Reconcile of the
--                policy, tool and report controllers (Policies, Tools, Reports), each cut into
--                stages at its early returns. Controller/Rbac has the permissions that the markers of
--                rbac.go ask for, Rbac/Access the calls that they guard and Rbac/Charts what Helm
--                needs, and Controller/Setup the registrations. Controller/System puts the
--                controllers side by side: a step is a whole reconcile of one object by one
--                controller, or a change by another actor. Controller/Reported follows a Litmus
--                policy through both controllers to its report.
--   Tests/       a cluster in memory that satisfies the laws, and runs of the model on it.
--
-- The controllers read an object, choose an engine, a service or a handler by its type, and answer
-- with a delay or an error; the engines, services and handlers act on the cluster alone. The policy
-- controller writes the reports that the report controller completes.
--
-- A module Writes beside a part says what the part's calls can change: it shows that a property of the
-- cluster passes through every operation when each call the operation makes keeps it. A module Calm
-- says what the part has to be given so that no nil pointer is followed.
--
-- Assumptions. `stored` is what the API server holds; no definition of the program reads it. Reads may
-- lag behind it: StatusLaws lets a read of a report answer with any version that the server has stored.
-- Theorems that take `IsFresh`, or a server that answers (IsUp, PolicyServer, ReportServer), assume
-- that the next read sees what was written. No other actor changes the cluster within one reconcile;
-- between reconciles they may, and Controller/System lets them change all but the statuses of reports.
-- A report's status is a subresource, written as StatusLaws has it. A write answers with the object as
-- the server holds it, which the client copies over the caller's. The calls of the manager and of the
-- libraries return. Times are natural numbers and delays are in seconds.
--
-- Bounds. Every loop ranges over a list and is structural recursion, so no loop has fuel; only
-- the digits of a printed number are on fuel, one more than the number itself. A Go int32 is
-- reduced modulo 2^32 (Base/Int.int32); other counts are lengths of lists.
--
-- Not modelled: the generated deep copies; the fields of api/litmus's ChaosExperiment and ChaosResult,
-- which nothing reads or writes; logging and the logger's flags; resource versions; the time of a
-- condition's change; a character that the cut of a log preview at 200 bytes would split, which the
-- model leaves out.
pub mod Api
pub mod Base
pub mod Cluster
pub mod Cmd
pub mod Controller
pub mod Effect
pub mod Helm
pub mod Kube
pub mod Policy
pub mod Report
mod Tests
pub mod Tools
pub mod Utils
