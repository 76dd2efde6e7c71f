-- ===== src/Controller/System.antt =====
-- The three controllers and their environment, as interleaved steps on one cluster. A step is a whole
-- reconcile of one object, or a change that some other actor makes.
use eirenyx.Base.{◌≡◌}
use eirenyx.Api.Meta.{Key}
use eirenyx.Api.Report.{PolicyReport}
use eirenyx.Cluster.{Cluster}
use eirenyx.Cluster.Frame.{ToolKeeps, PolicyKeeps, RandomKeeps}
use eirenyx.Controller.Policies
use eirenyx.Controller.Policies.Writes.{policies_reconcile-Keeps}
use eirenyx.Controller.Reports
use eirenyx.Controller.Reports.Writes.{reports_reconcile-Keeps}
use eirenyx.Controller.Tools
use eirenyx.Controller.Tools.Writes.{tools_reconcile-Keeps}
use eirenyx.Report.Sound.{Versions, AllSound, Kept, StatusLaws}

module _ (C : Cluster) (V : Versions C) where
  -- Users and Kubernetes' own controllers may change everything but the statuses of reports.
  abbrev pub LeavesStatuses : C.State → C.State → Type 0
  LeavesStatuses s t = (x : Key) (b : PolicyReport) → V x t b → Kept C V s x b

  pub data Step (s t : C.State) : Type 0 where
    policy_reconciled : (key : Key) → t ≡ (Policies.reconcile C key s).1 → Step s t
    report_reconciled : (key : Key) → t ≡ (Reports.reconcile C key s).1 → Step s t
    tool_reconciled : (key : Key) → t ≡ (Tools.reconcile C key s).1 → Step s t
    elsewhere : LeavesStatuses s t → Step s t

  pub data Reach (s : C.State) : C.State → Type 0 where
    here : Reach s s
    next : {t u : C.State} → Reach s t → Step t u → Reach s u

  module _ (laws : StatusLaws C V) (policies : PolicyKeeps C (AllSound C V))
      (tools : ToolKeeps C (AllSound C V)) (random : RandomKeeps C (AllSound C V)) where
    Step-AllSound : {s t : C.State} → Step s t → AllSound C V s → AllSound C V t
    Step-AllSound {s} {t} (policy_reconciled key e) h =
        rw e ((policies_reconcile-Keeps C laws policies key).keeps_at s h)
    Step-AllSound {s} {t} (report_reconciled key e) h =
        rw e ((reports_reconcile-Keeps C laws random key).keeps_at s h)
    Step-AllSound {s} {t} (tool_reconciled key e) h =
        rw e ((tools_reconcile-Keeps C tools key).keeps_at s h)
    Step-AllSound {s} {t} (elsewhere leaves) h = record {
      sound = λ x b e. let (c, version, same) = leaves x b e in rw same (h.sound x c version);
    }

    -- From a cluster whose reports are sound in every version stored so far, every cluster that any
    -- interleaving of reconciles of the three controllers and of changes by others reaches has sound
    -- reports only, in every version that the server has stored: a completed one has the verdict of its
    -- counts, by which either all checks passed or all failed, one before its completion has no counts,
    -- and none is in the phase Failed; provided that every read of a report answers with a version that
    -- the server has stored, that the server keeps the status of a report as a subresource, that the
    -- controllers' calls on other kinds of objects keep the reports sound, and that others leave the
    -- statuses of reports alone.
    pub Reach-AllSound : {s t : C.State} → AllSound C V s → Reach s t → AllSound C V t
    Reach-AllSound h here = h
    Reach-AllSound h (next r step) = Step-AllSound step (Reach-AllSound h r)
