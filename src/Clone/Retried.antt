-- ===== src/Clone/Retried.antt =====
-- internal/engine/target/clone/clone.go under internal/engine/reliable/reliable.go: the executor of a
-- clone as a target adapter, and its `Teardown` inside the retry loop.
use portcloak.Base.{◌≡◌, ap, ◌∙◌, ◌+◌, false, Option, none, some, String, arith}
use portcloak.Resil.Errors.{GoError, fatal, is_retryable}
use portcloak.Resil.Breaker.{is_open}
use portcloak.Resil.Retrier.{Retrier, Env, Run, classify}
use portcloak.Resil.Retrier.Attempts.{terminal_stops, terminal_leaves}
use portcloak.Reliable.{Held, holding, closing, enter, plain, retried}
use portcloak.Reliable.Executors
use portcloak.Reliable.Executors.{Types, Executor}
use portcloak.Clone.Derivation.{
  Platform, Cloned, PrepareOptions, ExecContext, Command, ExecResult, Orphan,
}
use portcloak.Clone.{
  probe, prepare, run, fetch_dir, push_file, teardown, find_orphans, remove_orphan, left_running,
}
use portcloak.Clone.Lifecycle.{IsHeld, destroyed, teardown-held, teardown-held_fails}

abbrev pub types : Type 0 → Type 0 → Types
types Facts Sink = record {
  Facts = Facts;
  PrepareOptions = PrepareOptions;
  ExecContext = ExecContext;
  Command = Command;
  ExecResult = ExecResult;
  Sink = Sink;
  Orphan = Orphan;
}

left_running-terminal :
    (r : Retrier) (op ref : String) (x : GoError)
    → is_retryable (some (classify r op (left_running ref x))) ≡ false
unfolding left_running classify is_retryable fatal
left_running-terminal r op ref x = ground arith

module _ {Facts Sink S : Type 0} (p : Platform Facts Sink S) (stamp : S → String) where
  -- `target.Executor` and `target.Sweeper` of a clone.
  abbrev pub executor : Executor (types Facts Sink) (Cloned S)
  executor = record {
    probe = probe p stamp;
    prepare = prepare p stamp;
    run = run p stamp;
    fetch_dir = fetch_dir p stamp;
    push_file = push_file p stamp;
    teardown = teardown p stamp;
    sweeper =
        some
          (record { find_orphans = find_orphans p stamp; remove_orphan = remove_orphan p stamp });
  }

  module _ (env : Env (Cloned S)) (r : Retrier) where
    abbrev closure : Held (Cloned S) (Unit {0}) → Option GoError × Held (Cloned S) (Unit {0})
    closure = closing (plain (teardown p stamp))

    -- Where the platform cannot destroy the clone, if only for now, the Teardown that retries runs the
    -- executor's once: the platform is asked once, the answer is an error, and the executor then takes
    -- its clone for torn down. The context is alive and the breaker closed.
    pub teardown_not_retried :
        (st : Run (Cloned S)) (x : GoError)
        → is_open (env.now st.env) st.breaker ≡ false
        → env.ctx_err st.env ≡ none
        → IsHeld p stamp st.env.clone
        → (p.destroy st.env.clone.ref st.env.world).0 ≡ some x
        → let (res, st') = Executors.teardown (types Facts Sink) env r executor st in
          (res.1
            ≡ some (classify r "destroy the ephemeral clone" (left_running st.env.clone.ref x)))
          × (st'.calls ≡ st.calls + 1)
          × (st'.env ≡ destroyed p stamp st.env)
    unfolding Executors.teardown retried
    teardown_not_retried st x closed alive held stays =
        let op : String = "destroy the ephemeral clone" in
        let fails = teardown-held_fails p stamp st.env x held stays in
        let (res, calls) =
          terminal_stops (holding env) r op closure (enter tt st) (left_running st.env.clone.ref x)
            closed alive fails (left_running-terminal r op st.env.clone.ref x) in
        let world =
          terminal_leaves (holding env) r op closure (enter tt st) (left_running st.env.clone.ref x)
            closed alive fails (left_running-terminal r op st.env.clone.ref x) in
        (
          res,
          calls,
          ap (λ (h : Held (Cloned S) (Unit {0})). h.world) world
              ∙ teardown-held p stamp st.env held,
        )
