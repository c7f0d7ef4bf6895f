-- ===== src/Tests/JobRuns.antt =====
-- A run of EnsureJob (pkg/scheduler/submit.go) on a server that keeps jobs by name.
use compkg.Common.{
  ℕ, ◌≡◌, refl, String, Bool, true, false, some, none, inl, inr, Option-cases, arith,
}
use compkg.Common.Dict.{Dict, empty, store, store_self}
use compkg.Scheduler.Submit.{Code}
use compkg.Scheduler.Jobs.{Job, JobServer, ensure_job, create_missing, is_not_found_err}

abbrev jobs : JobServer
jobs = record {
  World = Dict ℕ;
  Spec = ℕ;
  get_job = λ name w. (w, elim (w name) [ none ↦ some (some Code.not_found) | some s ↦ none ]);
  create_job = λ job w. elim (w job.job_name) [
    | none ↦ (store job.job_name job.spec w, none)
    | some s ↦ (w, some (some Code.already_exists))
  ];
}

abbrev has_job : String → Dict ℕ → Bool
has_job name w = elim (w name) [ none ↦ false | some s ↦ true ]

jobs_found :
    (name : String) (w : Dict ℕ)
    → (jobs.get_job name w).1 ≡ none
    → has_job name (jobs.get_job name w).0 ≡ true
jobs_found name w h = ground arith

jobs_made :
    (job : Job ℕ) (w : Dict ℕ)
    → (jobs.create_job job w).1 ≡ none
    → has_job job.job_name (jobs.create_job job w).0 ≡ true
jobs_made job w h = elim (Option-cases (w job.job_name)) [
  | inl e ↦ rw (e, store_self job.job_name job.spec w)
  | inr (s, e) ↦ rw (e, e)
]

jobs_refused :
    (job : Job ℕ) (w : Dict ℕ)
    → (jobs.create_job job w).1 ≡ some (some Code.already_exists)
    → has_job job.job_name (jobs.create_job job w).0 ≡ true
jobs_refused job w h = elim (Option-cases (w job.job_name)) [
  | inl e ↦ rw (e, store_self job.job_name job.spec w)
  | inr (s, e) ↦ rw (e, e)
]

abbrev report : Job ℕ
report = record { app_name = ""; job_name = "report"; spec = 3 }

report-created : (ensure_job jobs true "app" (some report) empty).1 ≡ inr true
unfolding ensure_job create_missing is_not_found_err
report-created = refl
