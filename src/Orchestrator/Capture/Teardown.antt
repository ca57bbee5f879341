-- ===== src/Orchestrator/Capture/Teardown.antt =====
-- internal/engine/orchestrator/capture.go: when `teardown` reaches the executor.
use portcloak.Base.{
  subst⁻¹, ◌≡◌, refl, ap, ◌∙◌, inl, inr, ℕ, Bool, true, false, Option, some, List, [], ◌∷◌, String,
  str_eq, eq_refl, any, Bool-cases, Option-cases, if◌then◌else◌,
}
use portcloak.Resil.Errors.{GoError, error_text}
use portcloak.Config.Files.{Faults}
use portcloak.Config.Jobs.{Job}
use portcloak.Config.Jobs.Store.{Codec}
use portcloak.Orchestrator.{
  World, Event, phase_started, phase_completed, phase_failed, clone_destroyed, phase_clone,
  phase_teardown, save_job, announce, fail, fail_all, fail_job, record_phase,
}
use portcloak.Orchestrator.Capture.{
  ExecContext, Steps, teardown_key, left_behind, all_destroyed, destroyed, tear_down, teardown,
  run_clone,
}

-- The keys of the contexts that are torn down stay as they are.
abbrev Same : {S Bytes : Type 0} → World S Bytes → World S Bytes → Type 0
Same w w' = (w'.env ≡ w.env) × (w'.torn_down ≡ w.torn_down)

module _ {S Bytes : Type 0} (codec : Codec Bytes) (fs : Faults) (now : ℕ) where
  save_job-Same : (j : Job) (w : World S Bytes) → Same w (save_job codec fs now j w).1
  unfolding save_job
  save_job-Same j w = (refl, refl)

  recorded-Same :
      (changed : Bool) (j : Job) (w : World S Bytes)
      → Same w (if changed then save_job codec fs now j w else (j, w)).1
  recorded-Same true j w = save_job-Same j w
  recorded-Same false j w = (refl, refl)

  announce-Same :
      (e : Event) (js : List Job) (w : World S Bytes) → Same w (announce codec fs now e js w).1
  unfolding announce
  announce-Same e [] w = (refl, refl)
  announce-Same e (j ∷ js) w =
      let first = recorded-Same (record_phase j e).0 (record_phase j e).1 w in
      let rest = announce-Same e js _ in (rest.0 ∙ first.0, rest.1 ∙ first.1)

  fail_all-Same :
      (phase : String) (e : GoError) (js : List Job) (w : World S Bytes)
      → Same w (fail_all codec fs now phase e js w).1
  unfolding fail_all fail
  fail_all-Same phase e [] w = (refl, refl)
  fail_all-Same phase e (j ∷ js) w =
      let first = save_job-Same (fail_job now phase e j) w in
      let rest = fail_all-Same phase e js _ in (rest.0 ∙ first.0, rest.1 ∙ first.1)

  module _ {C : Type 0} (steps : Steps S C) where
    -- The keys that are noted.
    abbrev Notes : World S Bytes → List String → Type 0
    Notes w keys = w.torn_down ≡ keys

    left_behind-Notes :
        (c : ExecContext) (e : GoError) (js : List Job) (w : World S Bytes)
        → Notes (left_behind codec fs now steps c e js w).1 w.torn_down
    unfolding left_behind save_job
    left_behind-Notes c e [] w = refl
    left_behind-Notes c e (j ∷ js) w = left_behind-Notes c e js _

    all_destroyed-Notes :
        (c : ExecContext) (js : List Job) (w : World S Bytes)
        → Notes (all_destroyed codec fs now steps c js w).1 w.torn_down
    unfolding all_destroyed save_job
    all_destroyed-Notes c [] w = refl
    all_destroyed-Notes c (j ∷ js) w = all_destroyed-Notes c js _

    announced-Notes :
        (b : Bool) (e : Event) (js : List Job) (w : World S Bytes)
        → Notes (if b then (js, w) else announce codec fs now e js w).1 w.torn_down
    announced-Notes true e js w = refl
    announced-Notes false e js w = (announce-Same e js w).1

    destroyed-Notes :
        (c : ExecContext) (js : List Job) (w : World S Bytes)
        → Notes (destroyed codec fs now steps c js w).1 w.torn_down
    unfolding destroyed
    destroyed-Notes c js w =
        let told =
          if str_eq c.clone_ref ""
          then (js, w)
          else announce codec fs now (clone_destroyed c.clone_ref) js w in
        let done = phase_completed phase_teardown "Nothing was left behind." in
        let closed = announce codec fs now done told.0 told.1 in
        all_destroyed-Notes c closed.0 closed.1
        ∙ ((announce-Same done told.0 told.1).1
            ∙ announced-Notes (str_eq c.clone_ref "") (clone_destroyed c.clone_ref) js w)

    tear_down-Notes :
        (c : ExecContext) (js : List Job) (w : World S Bytes)
        → Notes (tear_down codec fs now steps c js w).1 w.torn_down
    unfolding tear_down
    tear_down-Notes c js w =
        let start = announce codec fs now (phase_started phase_teardown) js w in
        let started = (announce-Same (phase_started phase_teardown) js w).1 in
        let called = record start.1 { env = (steps.teardown start.1.env).1 } in
        elim (Option-cases (steps.teardown start.1.env).0) [
          | inl gone ↦ rw (gone, tear_down) (destroyed-Notes c start.0 called ∙ started)
          | inr (e, stays) ↦
              let fault = phase_failed phase_teardown (error_text e) in
              let told = announce codec fs now fault start.0 called in
              rw (stays, tear_down)
                (left_behind-Notes c e told.0 told.1
                  ∙ ((announce-Same fault start.0 called).1 ∙ started))
        ]

    -- Whether it succeeds or fails, `teardown` leaves the key of its context noted, and what was noted.
    noted :
        (c : ExecContext) (js : List Job) (w : World S Bytes)
        → any (str_eq (teardown_key c)) (teardown codec fs now steps c js w).1.torn_down ≡ true
    unfolding teardown
    noted c js w =
        let key = teardown_key c in
        elim (Bool-cases (any (str_eq key) w.torn_down)) [
          | inl before ↦ rw (before, teardown) before
          | inr new ↦
              rw (new, teardown)
                (subst⁻¹ (λ keys. any (str_eq key) keys ≡ true)
                  (tear_down-Notes c js (record w { torn_down = key ∷ w.torn_down }))
                  (rw (eq_refl key) refl))
        ]

    -- A `teardown` whose key is noted does nothing.
    skipped :
        (c : ExecContext) (js : List Job) (w : World S Bytes)
        → any (str_eq (teardown_key c)) w.torn_down ≡ true
        → teardown codec fs now steps c js w ≡ (js, w)
    unfolding teardown
    skipped c js w h = rw (h, teardown) refl

    -- `teardown` reaches the executor at most once for a context: a second call, in whatever the jobs have
    -- become, changes neither them nor the world.
    pub teardown_once :
        (c : ExecContext) (js js' : List Job) (w : World S Bytes)
        → let w' = (teardown codec fs now steps c js w).1 in
          teardown codec fs now steps c js' w' ≡ (js', w')
    teardown_once c js js' w = skipped c js' _ (noted c js w)

    -- The world that a `Prepare` leaves, and its jobs once they have failed.
    abbrev prepared : List Job → World S Bytes → World S Bytes
    prepared js w =
        let start = announce codec fs now (phase_started phase_clone) js w in
        record start.1 { env = (steps.prepare start.1.env).1 }

    abbrev failed_start : List Job → World S Bytes → GoError → List Job × World S Bytes
    failed_start js w x =
        fail_all codec fs now phase_clone x
          (announce codec fs now (phase_started phase_clone) js w).0 (prepared js w)

    run_clone-failed :
        (js : List Job) (w : World S Bytes) (c : ExecContext) (x : GoError)
        → (steps.prepare (announce codec fs now (phase_started phase_clone) js w).1.env).0
          ≡ (c, some x)
        → run_clone codec fs now steps js w
          ≡ teardown codec fs now steps c (failed_start js w x).0 (failed_start js w x).1
    unfolding run_clone
    run_clone-failed js w c x h =
        rw (h, run_clone)
          (ap (λ d. teardown codec fs now steps d (failed_start js w x).0 (failed_start js w x).1)
            (ap (λ (p : ExecContext × Option GoError). p.0) h))

    -- The event of the clone's phase comes before `Prepare`, and leaves its world as it is.
    prepare_after :
        (js : List Job) (w : World S Bytes) (c : ExecContext) (x : GoError)
        → (steps.prepare w.env).0 ≡ (c, some x)
        → (steps.prepare (announce codec fs now (phase_started phase_clone) js w).1.env).0
          ≡ (c, some x)
    prepare_after js w c x h =
        subst⁻¹ (λ s. (steps.prepare s).0 ≡ (c, some x))
          (announce-Same (phase_started phase_clone) js w).0 h

    run_clone-noted :
        (js : List Job) (w : World S Bytes) (c : ExecContext) (x : GoError)
        → (steps.prepare w.env).0 ≡ (c, some x)
        → any (str_eq (teardown_key c)) (run_clone codec fs now steps js w).1.torn_down ≡ true
    run_clone-noted js w c x h =
        subst⁻¹
          (λ (r : List Job × World S Bytes). any (str_eq (teardown_key c)) r.1.torn_down ≡ true)
          (run_clone-failed js w c x (prepare_after js w c x h))
          (noted c (failed_start js w x).0 (failed_start js w x).1)

    run_clone-skipped :
        (js : List Job) (w : World S Bytes) (c : ExecContext) (x : GoError)
        → (steps.prepare w.env).0 ≡ (c, some x)
        → any (str_eq (teardown_key c)) w.torn_down ≡ true
        → (run_clone codec fs now steps js w).1.env ≡ (steps.prepare w.env).1
    run_clone-skipped js w c x h before =
        let start = announce-Same (phase_started phase_clone) js w in
        let rest = fail_all-Same phase_clone x _ (prepared js w) in
        let still =
          subst⁻¹ (λ keys. any (str_eq (teardown_key c)) keys ≡ true) (rest.1 ∙ start.1) before in
        ap (λ (r : List Job × World S Bytes). r.1.env)
          (run_clone-failed js w c x (prepare_after js w c x h)
            ∙ skipped c (failed_start js w x).0 (failed_start js w x).1 still)
        ∙ (rest.0 ∙ ap (λ s. (steps.prepare s).1) (start.0))

  -- Where the Prepare of two batches fails with the same context, the second batch never reaches its
  -- executor's Teardown: the world is left as that Prepare left it.
  pub failed_prepare_stays :
      {C : Type 0} (first second : Steps S C) (c : ExecContext) (js js' : List Job)
      (w : World S Bytes) (x y : GoError)
      → (first.prepare w.env).0 ≡ (c, some x)
      → (second.prepare (run_clone codec fs now first js w).1.env).0 ≡ (c, some y)
      → (run_clone codec fs now second js' (run_clone codec fs now first js w).1).1.env
        ≡ (second.prepare (run_clone codec fs now first js w).1.env).1
  failed_prepare_stays first second c js js' w x y h k =
      run_clone-skipped second js' (run_clone codec fs now first js w).1 c y k
        (run_clone-noted first js w c x h)
