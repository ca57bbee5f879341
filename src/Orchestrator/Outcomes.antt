-- ===== src/Orchestrator/Outcomes.antt =====
-- internal/engine/orchestrator: what a failure leaves of a job, and what a resume then offers.
use portcloak.Base.{
  ◌≡◌, ℕ, Bool, true, false, not, ◌&&◌, none, some, String, str_eq, arith, if◌then◌else◌,
}
use portcloak.Resil.Errors.{GoError, is_retryable}
use portcloak.Config.Jobs.{Job, capture, is_terminal, is_resumable, append}
use portcloak.Orchestrator.{
  Phase, is_canceled, ended_by, fail_job, plan_resume, ResumeKind, resume_upload, resume_restart,
  resume_unavailable,
}

-- The bundle that a checkpoint names is on this machine.
abbrev pub has_bundle : (String → Bool) → Job → Bool
has_bundle exists j = elim j.checkpoint [
  | none ↦ false
  | some cp ↦ not (str_eq cp.local_bundle "") && exists cp.local_bundle
]

-- What `fail` offers: an error worth another attempt that is no cancellation.
abbrev pub is_dropped : GoError → Bool
is_dropped e = not (is_canceled e) && is_retryable (some e)

abbrev pub expected_plan : Bool → Bool → ResumeKind
expected_plan false bundle = resume_unavailable
expected_plan true true = resume_upload
expected_plan true false = resume_restart

-- A capture that fails can be resumed exactly where its error is retryable and no cancellation: its
-- state is then interrupted and it has not ended, else it is at its end. The checkpoint is kept, and a
-- resume uploads where the checkpoint's bundle is on the machine and else starts again.
pub fail_resumable :
    (exists : String → Bool) (now : ℕ) (phase : Phase) (e : GoError) (j : Job)
    → j.kind ≡ capture
    → let j' = fail_job now phase e j in
      (is_resumable j'.state ≡ is_dropped e)
      × (is_terminal j'.state ≡ not (is_dropped e))
      × (j'.ended_at ≡ (if is_dropped e then none else some now))
      × (j'.checkpoint ≡ j.checkpoint)
      × ((plan_resume exists j').kind ≡ expected_plan (is_dropped e) (has_bundle exists j))
unfolding fail_job ended_by append plan_resume
fail_resumable exists now phase e j k =
    (ground arith, ground arith, ground arith, ground arith, ground (arith, k))
