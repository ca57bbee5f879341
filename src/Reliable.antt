-- ===== src/Reliable.antt =====
-- internal/engine/reliable/reliable.go: storage backends and target adapters whose operations go through
-- the retry loop. A value that a closure assigns, as the named results of the operations, is carried
-- beside the world of the loop.
pub mod Executors
mod Tests
use portcloak.Base.{
  ℕ, Bool, true, false, List, [], ◌∷◌, ◌++◌, Option, none, some, String, is_some, if◌then◌else◌,
}
use portcloak.Base.Int.{pos}
use portcloak.Resil.Errors.{GoError}
use portcloak.Resil.Breaker.{Breaker, Registry, for_endpoint}
use portcloak.Resil.Retrier.{PolicyConfig, Retrier, Env, Run, new, breaker_for, run_op}
use portcloak.Blobs.{
  Access, access_none, ObjectInfo, Reach, PutOptions, PutResult, GetOptions, GetResult, Report,
  Uploaded, Reader, Answer, BlobStore, client_side,
}

-- `Options`, with whether there is a reporter in its place.
pub record Options : Type 0 where
  pub policy : PolicyConfig
  pub breakers : Option Registry
  pub has_reporter : Bool

-- `Options.doer`: the retrier, its breaker, and the registry afterwards.
unfoldable pub doer : Options → String → Retrier × Breaker × Option Registry
unfolding new breaker_for for_endpoint
doer o endpoint = elim o.breakers [
  | none ↦ (
    new endpoint o.policy o.has_reporter,
    breaker_for endpoint (record { threshold = pos 0; cooldown = pos 0 }) none,
    none,
  )
  | some registry ↦
      let (b, registry') = for_endpoint endpoint registry in
      (new endpoint o.policy o.has_reporter, b, some registry')
]

-- The world of the loop with the values that its closure assigns.
pub record Held (S A : Type 0) : Type 0 where
  pub world : S
  pub out : A

module _ {S A : Type 0} where
  abbrev pub holding : Env S → Env (Held S A)
  holding env = record {
    now = λ h. env.now h.world;
    ctx_err = λ h. env.ctx_err h.world;
    sleep = λ d h. let (e, s) = env.sleep d h.world in (e, record h { world = s });
    draw = λ d h. let (j, s) = env.draw d h.world in (j, record h { world = s });
    show = env.show;
  }

  -- The closure, on the world and the values.
  abbrev pub closing : (A → S → Answer S A) → Held S A → Option GoError × Held S A
  closing f h = let ((a, e), s) = f h.out h.world in (e, record { world = s; out = a })

  abbrev pub enter : A → Run S → Run (Held S A)
  enter a st = record {
    env = record { world = st.env; out = a };
    breaker = st.breaker;
    notices = st.notices;
    calls = st.calls;
  }

  abbrev pub leave : Run (Held S A) → Run S
  leave st = record {
    env = st.env.world;
    breaker = st.breaker;
    notices = st.notices;
    calls = st.calls;
  }

  -- `doer.Do` with a closure, and what the closure has assigned.
  unfoldable pub retried :
      Env S → Retrier → String → (A → S → Answer S A) → A → Run S → (A × Option GoError) × Run S
  unfolding run_op
  retried env r op f a st =
      let (e, st') = run_op (holding env) r op (closing f) (enter a st) in
      ((st'.env.out, e), leave st')

  -- A closure that only assigns the result of one call.
  abbrev pub assigning : (S → Answer S A) → A → S → Answer S A
  assigning f a s = f s

module _ {S : Type 0} where
  -- A closure without a result.
  abbrev pub plain : (S → Option GoError × S) → Unit {0} → S → Answer S (Unit {0})
  plain f u s = let (e, s') = f s in ((tt, e), s')

  -- One call of the backend that does not go through the loop.
  abbrev pub direct : {A : Type 0} → (S → Answer S A) → Run S → (A × Option GoError) × Run S
  direct f st = let (res, s) = f st.env in (res, record st { env = s })

-- `replayable` and `rewind`
unfoldable pub replayable : {S : Type 0} → Reader S → Bool
replayable r = is_some r.seek_start

unfoldable pub rewind : {S : Type 0} → Reader S → S → Option GoError × S
rewind r s = elim r.seek_start [ none ↦ (none, s) | some seek ↦ seek s ]

abbrev pub no_result : PutResult
no_result = record { key = ""; size = 0; digest = ""; etag = ""; is_resumed = false }

abbrev no_object : ObjectInfo
no_object = record { key = ""; size = 0; mod_time = 0; etag = "" }

-- What the closure of `Put` assigns: `attempt` and `out`; `told` are the calls of the caller's
-- `Checkpoint`.
pub record Upload : Type 0 where
  pub attempt : PutOptions
  pub told : List Report
  pub out : PutResult

-- `attempt.Checkpoint`, for each report in turn.
take_reports : Bool → List Report → Upload → Upload
take_reports calls_caller [] u = u
take_reports calls_caller ((written, state) ∷ more) u = take_reports calls_caller more (record u {
  attempt = record u.attempt { offset = written; hash_state = state };
  told = if calls_caller then u.told ++ (written, state) ∷ [] else u.told;
})

module _ {S : Type 0} (env : Env S) (r : Retrier) (inner : BlobStore S) where
  -- The closure of `Put`.
  put_attempt : String → Reader S → Bool → Upload → S → Answer S Upload
  unfolding rewind take_reports
  put_attempt key reader calls_caller u s =
      let (failed, s₁) = rewind reader s in
      elim failed [
        | some e ↦ ((u, some e), s₁)
        | none ↦
            let up = inner.put key reader u.attempt s₁ in
            (
              (record (take_reports calls_caller up.reports u) { out = up.result }, up.error),
              up.world,
            )
      ]

  first_upload : PutOptions → Upload
  first_upload o = record {
    attempt = record o { has_checkpoint = true };
    told = [];
    out = no_result;
  }

  -- `Store.Put`: the result and the error, the calls of the caller's `Checkpoint`, and the run.
  unfoldable pub put :
      String → Reader S → PutOptions → Run S → ((PutResult × Option GoError) × List Report) × Run S
  unfolding replayable put_attempt first_upload retried
  put key reader o st =
      if replayable reader
      then (let ((u, e), st') =
            retried env r "upload the snapshot" (put_attempt key reader o.has_checkpoint)
              (first_upload o) st in
          (((u.out, e), u.told), st'))
      else (let up = inner.put key reader o st.env in
          (
            ((up.result, up.error), if o.has_checkpoint then up.reports else []),
            record st { env = up.world },
          ))

  -- `Store.Probe`, which is not retried.
  unfoldable pub probe : Run S → (Reach × Option GoError) × Run S
  probe st = direct inner.probe st

  unfoldable pub stat : String → Run S → (ObjectInfo × Option GoError) × Run S
  unfolding retried
  stat key st = retried env r "read object metadata" (assigning (inner.stat key)) no_object st

  unfoldable pub get : String → GetOptions → Run S → (GetResult × Option GoError) × Run S
  unfolding retried
  get key o st =
      retried env r "download the snapshot" (assigning (inner.get key o))
        (record { size = 0; digest = "" }) st

  unfoldable pub list : String → Run S → (List ObjectInfo × Option GoError) × Run S
  unfolding retried
  list prefix st = retried env r "list the storage" (assigning (inner.list prefix)) [] st

  unfoldable pub delete : String → Run S → (Unit {0} × Option GoError) × Run S
  unfolding retried
  delete key st = retried env r "delete the snapshot" (plain (inner.delete key)) tt st
