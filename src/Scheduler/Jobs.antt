-- ===== src/Scheduler/Jobs.antt =====
-- EnsureJob of pkg/scheduler/submit.go, with the tests of pkg/scheduler/errors.go. The server's GetJob and
-- CreateJob, with the network and the deadlines, are the operations of `JobServer`.
use compkg.Common.{
  String, ◌≡◌, refl, ap, ◌⊎◌, inl, inr, Bool, true, false, Option, none, some, str_eq, Bool-cases,
  if◌then◌else◌, arith,
}
use mathlib.Core.Path.{subst}
use compkg.Scheduler.Submit.{Code}

-- `spec` stands for the fields that EnsureJob hands on.
pub record Job (Spec : Type 0) : Type 0 where
  pub app_name : String
  pub job_name : String
  pub spec : Spec

-- A failed call is known by its gRPC code, if it has one.
pub record JobServer : Type 1 where
  pub World : Type 0
  pub Spec : Type 0
  -- none is success.
  pub get_job : String → World → World × Option (Option Code)
  pub create_job : Job Spec → World → World × Option (Option Code)

unfoldable pub is_not_found_err : Option Code → Bool
is_not_found_err (some Code.not_found) = true
is_not_found_err _ = false

unfoldable pub is_already_exists_err : Option Code → Bool
is_already_exists_err (some Code.already_exists) = true
is_already_exists_err _ = false

pub data EnsureError : Type 0 where
  ensure_not_connected ensure_name_required : EnsureError
  get_failed create_failed : Option Code → EnsureError

already_sound :
    (code : Option Code) → is_already_exists_err code ≡ true → code ≡ some Code.already_exists
unfolding is_already_exists_err
already_sound code h = ground arith

module _ (srv : JobServer) where
  open srv use {World, Spec}

  abbrev with_app : String → Job Spec → Job Spec
  with_app app job = if str_eq job.app_name "" then record job { app_name = app } else job

  created : World × Option (Option Code) → World × (EnsureError ⊎ Bool)
  created (w, none) = (w, inr true)
  created (w, some code) =
      if is_already_exists_err code then (w, inr false) else (w, inl (create_failed code))

  unfoldable pub create_missing :
      String → Job Spec → World × Option (Option Code) → World × (EnsureError ⊎ Bool)
  unfolding created
  create_missing app job (w, none) = (w, inr false)
  create_missing app job (w, some code) =
      if is_not_found_err code
      then created (srv.create_job (with_app app job) w)
      else (w, inl (get_failed code))

  -- The job is there, and its name may be empty.
  ensure_named : Bool → String → Job Spec → World → World × (EnsureError ⊎ Bool)
  ensure_named true app job w = (w, inl ensure_name_required)
  ensure_named false app job w = create_missing app job (srv.get_job job.job_name w)

  -- The result is whether the job was created; a nil job is none.
  unfoldable pub ensure_job :
      Bool → String → Option (Job Spec) → World → World × (EnsureError ⊎ Bool)
  unfolding ensure_named
  ensure_job false app job w = (w, inl ensure_not_connected)
  ensure_job true app none w = (w, inl ensure_name_required)
  ensure_job true app (some job) w = ensure_named (str_eq job.job_name "") app job w

  with_app-name : (app : String) (job : Job Spec) → (with_app app job).job_name ≡ job.job_name
  with_app-name app job = ground arith

  -- The documented answers: a job that is found exists, and so does one that was created or that
  -- CreateJob refuses as existing already.
  module _ (exists : String → World → Bool)
      (get-Found : (name : String) (w : World)
        → (srv.get_job name w).1 ≡ none
        → exists name (srv.get_job name w).0 ≡ true)
      (create-Made : (job : Job Spec) (w : World)
        → (srv.create_job job w).1 ≡ none
        → exists job.job_name (srv.create_job job w).0 ≡ true)
      (create-Refused : (job : Job Spec) (w : World)
        → (srv.create_job job w).1 ≡ some (some Code.already_exists)
        → exists job.job_name (srv.create_job job w).0 ≡ true) where
    created-exists :
        (name : String) (r : World × Option (Option Code)) {b : Bool}
        → (r.1 ≡ none → exists name r.0 ≡ true)
        → (r.1 ≡ some (some Code.already_exists) → exists name r.0 ≡ true)
        → (created r).1 ≡ inr b
        → exists name (created r).0 ≡ true
    unfolding created is_already_exists_err
    created-exists name (w, none) made refused h = made refl
    created-exists name (w, some code) made refused h =
        elim (Bool-cases (is_already_exists_err code)) [
          | inl e ↦ rw (e, created) (refused (ap some (already_sound code e)))
          | inr e ↦ cc (rw (e, created) at h)
        ]

    create_missing-exists :
        (app : String) (job : Job Spec) (r : World × Option (Option Code)) {b : Bool}
        → (r.1 ≡ none → exists job.job_name r.0 ≡ true)
        → (create_missing app job r).1 ≡ inr b
        → exists job.job_name (create_missing app job r).0 ≡ true
    unfolding create_missing
    create_missing-exists app job (w, none) found h = found refl
    create_missing-exists app job (w, some code) found h =
        let answer = srv.create_job (with_app app job) w in
        elim (Bool-cases (is_not_found_err code)) [
          | inl e ↦
              rw (e, create_missing)
                (created-exists job.job_name answer
                  (λ k.
                    subst (λ n. exists n answer.0 ≡ true) (with_app-name app job)
                      (create-Made (with_app app job) w k))
                  (λ k.
                    subst (λ n. exists n answer.0 ≡ true) (with_app-name app job)
                      (create-Refused (with_app app job) w k))
                  (rw (e, create_missing) at h))
          | inr e ↦ cc (rw (e, create_missing) at h)
        ]

    ensure_named-exists :
        (nameless : Bool) (app : String) (job : Job Spec) (w : World) {b : Bool}
        → (ensure_named nameless app job w).1 ≡ inr b
        → exists job.job_name (ensure_named nameless app job w).0 ≡ true
    unfolding ensure_named
    ensure_named-exists true app job w h = cc h
    ensure_named-exists false app job w h =
        create_missing-exists app job (srv.get_job job.job_name w) (get-Found job.job_name w) h

    -- If GetJob finds only jobs that exist, and CreateJob leaves its job existing where it succeeds
    -- and where it answers that the job exists already, then an EnsureJob that returns no error
    -- leaves its job existing, whether it says that it was created or not.
    ensure_job-exists :
        (connected : Bool) (app : String) (job : Job Spec) (w : World) {b : Bool}
        → (ensure_job connected app (some job) w).1 ≡ inr b
        → exists job.job_name (ensure_job connected app (some job) w).0 ≡ true
    unfolding ensure_job
    ensure_job-exists false app job w h = cc h
    ensure_job-exists true app job w h = ensure_named-exists (str_eq job.job_name "") app job w h
