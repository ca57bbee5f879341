-- ===== src/Orchestrator/Restore/Import/Honesty.antt =====
-- internal/engine/orchestrator/restore.go: what `describe` promises of an import that has not started.
use portcloak.Base.{
  ◌≡◌, refl, ap, sym, ◌∙◌, inl, inr, ℕ, true, false, Option, none, some, List, [], ◌∷◌, String,
  str_eq, Bool-cases, Option-cases, base_name, path_join,
}
use portcloak.Base.Result.{Result-cases}
use portcloak.Resil.Errors.{GoError}
use portcloak.Config.Files.{Faults}
use portcloak.Config.Jobs.{Job}
use portcloak.Config.Jobs.Store.{Codec}
use portcloak.Config.Model.{Environment}
use portcloak.Kc.{KcCommand}
use portcloak.Orchestrator.{World, phase_started}
use portcloak.Orchestrator.Capture.{ExecContext, Facts, Blocker}
use portcloak.Orchestrator.Restore.Import.{
  Import, phase_import, cleaned_up, prepared, probed, tell, push_all, merged, ran_import,
  import_command, named_clone, in_context, torn_down, offline, apply_import,
}
use portcloak.Orchestrator.Restore.Steps.{
  RestoreRequest, Session, Destination, Ran, is_zero, RestoreSteps, Sentences, strategy_merge,
}

module _ {S Bytes : Type 0} (codec : Codec Bytes) (fs : Faults) (now : ℕ) (steps : RestoreSteps S)
    (texts : Sentences) (env : Environment) (req : RestoreRequest)
    (run' : KcCommand → S → (Ran × Option GoError) × S)
    (write' : String → String → S → ((ℕ × ℕ × ℕ) × Option GoError) × S) where
  -- The same steps, with another kc.sh and another partial import.
  abbrev pub other : RestoreSteps S
  other = record steps {
    run = run';
    destination = elim steps.destination [
      | none ↦ none
      | some d ↦ some (record d { partial_import = write' })
    ];
  }

  push_all-other :
      (dir : String) (names : List String) (s : S)
      → push_all codec fs now other texts env req dir names s
        ≡ push_all codec fs now steps texts env req dir names s
  unfolding push_all
  push_all-other dir [] s = refl
  push_all-other dir (name ∷ names) s =
      let ((size, e), s₁) = steps.open_file name s in
      let (failed, s₂) = steps.push (path_join (dir ∷ base_name name ∷ [])) size s₁ in
      elim (Option-cases e) [
        | inr (x, refused) ↦ rw (refused, push_all) refl
        | inl shown ↦ elim (Option-cases failed) [
          | inr (x, refused) ↦ rw (shown, refused, push_all) refl
          | inl pushed ↦ rw (shown, pushed, push_all) (push_all-other dir names s₂)
        ]
      ]

  ran_import-started :
      (session : Session) (cmd : KcCommand) (j : Job) (w : World S Bytes)
      → (ran_import codec fs now steps texts env req session cmd j w).applied.started ≡ true
  unfolding ran_import
  ran_import-started session cmd j w =
      let ((ran, e), s) = steps.run cmd w.env in
      elim (Option-cases e) [
        | inr (x, failed) ↦ rw (failed, ran_import) refl
        | inl done ↦ elim (Bool-cases (is_zero ran.exit_code)) [
          | inl zero ↦ rw (done, zero, ran_import) refl
          | inr nonzero ↦ rw (done, nonzero, ran_import) refl
        ]
      ]

  in_context-other :
      (session : Session) (facts : Facts) (c : ExecContext) (j : Job) (w : World S Bytes)
      → (in_context codec fs now steps texts env req session facts c j w).applied.started ≡ false
      → in_context codec fs now other texts env req session facts c j w
        ≡ in_context codec fs now steps texts env req session facts c j w
  unfolding in_context named_clone tell import_command
  in_context-other session facts c j w idle =
      let (j₁, w₁) = named_clone codec fs now steps texts env req c j w in
      let dir = path_join (c.work_dir ∷ "import" ∷ []) in
      let same = push_all-other dir session.realm_files w₁.env in
      let (failed, s) = push_all codec fs now steps texts env req dir session.realm_files w₁.env in
      elim (Option-cases failed) [
        | inr (x, refused) ↦ rw (same, refused, in_context) refl
        | inl pushed ↦
            elim (Result-cases
              (import_command codec fs now steps texts env req facts c (steps.discover s).0)) [
                | inr (b, unbuilt) ↦ rw (same, pushed, unbuilt, in_context) refl
                | inl (cmd, built) ↦
                    let ran : (in_context codec fs now steps texts env req session facts c j
                          w).applied.started
                        ≡ true =
                      rw (pushed, built, in_context)
                        (ran_import-started session cmd j₁
                          (record w₁ { env = (steps.discover s).1 })) in
                    cc
              ]
      ]

  cleaned_up-other :
      (c : ExecContext) (import : Import S Bytes)
      → cleaned_up codec fs now other texts env req c import
        ≡ cleaned_up codec fs now steps texts env req c import
  unfolding cleaned_up torn_down
  cleaned_up-other c import = refl

  prepared-other :
      (session : Session) (facts : Facts) (c : ExecContext) (e : Option GoError) (j : Job)
      (w : World S Bytes)
      → (prepared codec fs now steps texts env req session facts c e j w).applied.started ≡ false
      → prepared codec fs now other texts env req session facts c e j w
        ≡ prepared codec fs now steps texts env req session facts c e j w
  unfolding prepared
  prepared-other session facts c (some x) j w idle = cleaned_up-other c _
  prepared-other session facts c none j w idle =
      cleaned_up-other c _
      ∙ ap (cleaned_up codec fs now steps texts env req c)
          (in_context-other session facts c j w idle)

  probed-other :
      (session : Session) (facts : Facts) (blocker : Option Blocker) (j : Job) (w : World S Bytes)
      → (probed codec fs now steps texts env req session facts blocker j w).applied.started ≡ false
      → probed codec fs now other texts env req session facts blocker j w
        ≡ probed codec fs now steps texts env req session facts blocker j w
  unfolding probed
  probed-other session facts (some b) j w idle = refl
  probed-other session facts none j w idle =
      let ((c, e), s) = steps.prepare w.env in
      prepared-other session facts c e j (record w { env = s }) idle

  offline-other :
      (session : Session) (j : Job) (w : World S Bytes)
      → (offline codec fs now steps texts env req session j w).applied.started ≡ false
      → offline codec fs now other texts env req session j w
        ≡ offline codec fs now steps texts env req session j w
  unfolding offline
  offline-other session j w idle =
      let (no_executor, s₁) = steps.make_executor w.env in
      let ((facts, dark), s₂) = steps.probe s₁ in
      elim (Option-cases no_executor) [
        | inr (x, none_made) ↦ rw (none_made, offline) refl
        | inl made ↦ elim (Option-cases dark) [
          | inr (x, no_answer) ↦ rw (made, no_answer, offline) refl
          | inl answered ↦
              let reached = record w { env = s₂ } in
              let here : offline codec fs now steps texts env req session j w
                  ≡ probed codec fs now steps texts env req session facts facts.blocker j reached =
                rw (made, answered, offline) refl in
              let not_run = ap (λ (i : Import S Bytes). i.applied.started) (sym here) ∙ idle in
              rw (made, answered, offline)
                (probed-other session facts facts.blocker j reached not_run)
        ]
      ]

  merged-other :
      (session : Session) (dest : Destination S) (j : Job) (w : World S Bytes)
      → (merged codec fs now steps texts env req session dest j w).applied.started ≡ false
      → merged codec fs now other texts env req session
          (record dest { partial_import = write' })
          j
          w
        ≡ merged codec fs now steps texts env req session dest j w
  unfolding merged tell
  merged-other session dest j w idle =
      let ((body, e), s) = steps.realm_file w.env in
      let ((counts, failed), s') = dest.partial_import session.realm body s in
      elim (Option-cases e) [
        | inr (x, unread) ↦ rw (unread, merged) refl
        | inl read ↦ elim (Option-cases failed) [
          | inr (x, refused) ↦
              let ran : (merged codec fs now steps texts env req session dest j w).applied.started
                  ≡ true =
                rw (read, refused, merged) refl in
              cc
          | inl done ↦
              let ran : (merged codec fs now steps texts env req session dest j w).applied.started
                  ≡ true =
                rw (read, done, merged) refl in
              cc
        ]
      ]

  -- Where `describe` says that nothing was written to the destination, nothing was: `applyImport` ends with
  -- the same record, the same error and the same world, whatever kc.sh and the partial import would do.
  pub unstarted_writes_nothing :
      (session : Session) (j : Job) (w : World S Bytes)
      → (apply_import codec fs now steps texts env req session j w).applied.started ≡ false
      → apply_import codec fs now other texts env req session j w
        ≡ apply_import codec fs now steps texts env req session j w
  unfolding apply_import tell merged
  unstarted_writes_nothing session j w idle =
      let (j₁, w₁) = tell codec fs now steps texts env req (phase_started phase_import) j w in
      elim (Bool-cases (str_eq req.strategy strategy_merge)) [
        | inr through_kc ↦
            let here : apply_import codec fs now steps texts env req session j w
                ≡ offline codec fs now steps texts env req session j₁ w₁ =
              rw (through_kc, apply_import) refl in
            let not_run = ap (λ (i : Import S Bytes). i.applied.started) (sym here) ∙ idle in
            rw (through_kc, apply_import) (offline-other session j₁ w₁ not_run)
        | inl through_api ↦ elim (Option-cases steps.destination) [
          | inl no_api ↦ rw (through_api, no_api, apply_import) refl
          | inr (dest, has) ↦
              let here : apply_import codec fs now steps texts env req session j w
                  ≡ merged codec fs now steps texts env req session dest j₁ w₁ =
                rw (through_api, has, apply_import) refl in
              let not_run = ap (λ (i : Import S Bytes). i.applied.started) (sym here) ∙ idle in
              rw (through_api, has, apply_import) (merged-other session dest j₁ w₁ not_run)
        ]
      ]
