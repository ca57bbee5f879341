-- ===== src/Orchestrator/Restore/Gates.antt =====
-- internal/engine/orchestrator/restore.go: what stands between a snapshot and the destination.
use portcloak.Base.{
  ◌≡◌, refl, ◌∙◌, ℕ, true, false, Option, none, some, [], ◌∷◌, ◌++◌, str_eq, concat,
}
use portcloak.Resil.Errors.{GoError}
use portcloak.Config.Files.{Faults}
use portcloak.Config.Jobs.{Job, running, failed}
use portcloak.Config.Jobs.Store.{Codec}
use portcloak.Config.Model.{Environment, Storage}
use portcloak.Orchestrator.{World, job_state, save_job, fail}
use portcloak.Orchestrator.Restore.{with_session, run_restore}
use portcloak.Orchestrator.Restore.Reads.{read_shape, wants_name}
use portcloak.Orchestrator.Restore.Steps.{
  RestoreRequest, Session, Destination, RestoreSteps, Sentences, strategy_overwrite,
}

module _ {S Bytes : Type 0} (codec : Codec Bytes) (fs : Faults) (now : ℕ) (steps : RestoreSteps S)
    (texts : Sentences) (env : Environment) (st : Storage) (req : RestoreRequest) where
  -- What opening the snapshot answers.
  abbrev opened : World S Bytes → (Session × Option GoError) × S
  opened w = steps.open_session (steps.make_store w.env).1

  -- Past the opening, the rest of the job is `with_session`.
  opened-run_restore :
      (j : Job) (w : World S Bytes)
      → (steps.make_store w.env).0 ≡ none
      → (opened w).0.1 ≡ none
      → (j₁ : Job) × (w₁ : World S Bytes) × (w₁.env ≡ (opened w).1)
        × (run_restore codec fs now steps texts env st req j w
            ≡ with_session codec fs now steps texts env st req (opened w).0.0 j₁ w₁)
  unfolding run_restore save_job
  opened-run_restore j w made shown =
      let (j₁, w₁) =
        save_job codec fs now (record j { state = running; started_at = some now }) w in
      let told =
        job_state running (concat ("Restoring " ∷ req.realm ∷ " into " ∷ env.name ∷ "." ∷ [])) in
      (
        j₁,
        record w₁ { env = (opened w).1; events = w₁.events ++ (j₁.id, told) ∷ [] },
        refl,
        rw (made, shown, run_restore) refl,
      )

  unproven-with_session :
      (session : Session) (j : Job) (w : World S Bytes)
      → session.verified ≡ false
      → let (j', w') = with_session codec fs now steps texts env st req session j w in
        (w'.env ≡ w.env) × (j'.state ≡ failed)
  unfolding with_session save_job fail
  unproven-with_session session j w unproven = rw unproven (refl, refl)

  unconfirmed-with_session :
      (session : Session) (j : Job) (w : World S Bytes) (s : S)
      → session.verified ≡ true
      → wants_name steps texts req session w.env ≡ (true, s)
      → let (j', w') = with_session codec fs now steps texts env st req session j w in
        (w'.env ≡ s) × (j'.state ≡ failed)
  unfolding with_session save_job fail
  unconfirmed-with_session session j w s proven wanted = rw (proven, wanted) (refl, refl)

  wanted-wants_name :
      (session : Session) (s : S) (dest : Destination S)
      → req.strategy ≡ strategy_overwrite
      → steps.destination ≡ some dest
      → let (up, s₁) = dest.reachable s in
        let ((shape, e), s₂) = dest.read_realm session.realm s₁ in
        up ≡ true
        → e ≡ none
        → shape.exists ≡ true
        → str_eq req.confirm_realm session.realm ≡ false
        → wants_name steps texts req session s ≡ (true, s₂)
  unfolding wants_name read_shape
  wanted-wants_name session s dest overwrite has up read exists other =
      rw (overwrite, has, up, read, exists, other, wants_name) refl

  -- A restore whose snapshot opens and is not proven intact has failed, and makes no call but those of the
  -- opening: what is outside is as the opening left it.
  pub unverified_untouched :
      (j : Job) (w : World S Bytes)
      → (steps.make_store w.env).0 ≡ none
      → (opened w).0.1 ≡ none
      → (opened w).0.0.verified ≡ false
      → let (j', w') = run_restore codec fs now steps texts env st req j w in
        (w'.env ≡ (opened w).1) × (j'.state ≡ failed)
  unverified_untouched j w made shown unproven =
      let (j₁, w₁, same, runs) = opened-run_restore j w made shown in
      let (untouched, ended) = unproven-with_session (opened w).0.0 j₁ w₁ unproven in
      rw runs (untouched ∙ same, ended)

  -- A restore that would overwrite a realm that the destination answers it has, without the realm's name as
  -- its confirmation, has failed, and makes no call past the reading of that realm.
  pub unconfirmed_untouched :
      (j : Job) (w : World S Bytes) (dest : Destination S)
      → (steps.make_store w.env).0 ≡ none
      → (opened w).0.1 ≡ none
      → (opened w).0.0.verified ≡ true
      → req.strategy ≡ strategy_overwrite
      → steps.destination ≡ some dest
      → let realm = (opened w).0.0.realm in
        let (up, s) = dest.reachable (opened w).1 in
        let ((shape, e), s') = dest.read_realm realm s in
        up ≡ true
        → e ≡ none
        → shape.exists ≡ true
        → str_eq req.confirm_realm realm ≡ false
        → let (j', w') = run_restore codec fs now steps texts env st req j w in
          (w'.env ≡ s') × (j'.state ≡ failed)
  unconfirmed_untouched j w dest made shown proven overwrite has up read exists other =
      let (j₁, w₁, same, runs) = opened-run_restore j w made shown in
      let wanted =
        wanted-wants_name (opened w).0.0 (opened w).1 dest overwrite has up read exists other in
      rw runs (unconfirmed-with_session (opened w).0.0 j₁ w₁ _ proven (rw same wanted))
