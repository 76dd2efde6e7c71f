-- ===== src/Policy/Trivy/Names.antt =====
-- The names of scan Jobs, in internal/policy/trivy/engine.go and internal/report/trivy.go.
use text.Mathlib.TextLemmas.{append_assoc, append_cancel_left}
use eirenyx.Base.{String, ◌<>◌, ◌≡◌, refl, ◌↔◌, ◌∙◌, ap}
use eirenyx.Policy.Trivy.{scan_job_name}
use eirenyx.Report.Trivy as TrivyReport

-- Within one policy two scans have the same Job name exactly if they have the same name, and the
-- report handler's copy of the formatter gives the same name as the engine's.
pub scan_job_name_iff :
    (policy a b : String)
    → ((scan_job_name policy a ≡ scan_job_name policy b) ↔ (a ≡ b))
      × (TrivyReport.scan_job_name policy a ≡ scan_job_name policy a)
unfolding scan_job_name TrivyReport.scan_job_name
scan_job_name_iff policy a b = ((cancel, ap (scan_job_name policy)), refl)
  where
    cancel : scan_job_name policy a ≡ scan_job_name policy b → a ≡ b
    cancel h = append_cancel_left "-" a b (
        append_cancel_left policy ("-" <> a) ("-" <> b) (append_cancel_left "eirenyx-trivy-" _ _ h))

-- Across policies the names collide: a policy whose name extends another's by a dash and a text
-- shares Job names with it, for every scan.
pub scan_job_name_collides :
    (policy more scan : String)
    → scan_job_name (policy <> ("-" <> more)) scan ≡ scan_job_name policy (more <> ("-" <> scan))
unfolding scan_job_name
scan_job_name_collides policy more scan =
    ap (λ t. "eirenyx-trivy-" <> t)
      (append_assoc policy ("-" <> more) ("-" <> scan)
        ∙ ap (λ t. policy <> t) (append_assoc "-" more ("-" <> scan)))
