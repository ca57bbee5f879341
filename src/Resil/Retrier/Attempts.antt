-- ===== src/Resil/Retrier/Attempts.antt =====
-- How often `Do` runs the operation.
use portcloak.Base.{
  ℕ, zero, suc, ◌+◌, ◌-◌, ◌≤◌, ◌<◌, ◌≡◌, refl, ap, ◌≢◌, ◌⊎◌, inl, inr, true, false, Option, none,
  some, String, arith, if◌then◌else◌,
}
use portcloak.Resil.Errors.{GoError, is_retryable}
use portcloak.Resil.Breaker.{allow, is_open, failure}
use portcloak.Resil.Retrier.{
  Retrier, Env, Run, Tried, after_call, ended, failed, admit, notify, try_once, wait, loop, run_op,
  classify, is_endpoint_fault, exhausted,
}

pub Tried-cases :
    {S : Type 0} (t : Tried S)
    → ((e : Option GoError) × (st : Run S) × (t ≡ ended e st))
      ⊎ ((e : GoError) × (st : Run S) × (t ≡ failed e st))
Tried-cases (ended e st) = inl (e, st, refl)
Tried-cases (failed e st) = inr (e, st, refl)

module _ {S : Type 0} (env : Env S) (r : Retrier) (op : String) (fn : S → Option GoError × S) where
  calls-admit : (st : Run S) → (admit env r st).1.calls ≡ st.calls
  unfolding admit
  calls-admit st = ground arith

  calls-wait :
      (attempt : ℕ) (last : GoError) (st : Run S)
      → (wait env r op attempt last st).1.calls ≡ st.calls
  unfolding wait notify
  calls-wait attempt last st = ground (arith, calls-admit st)

  abbrev pub run_of : Tried S → Run S
  run_of (ended e st) = st
  run_of (failed e st) = st

  calls-try_once : (st : Run S) → (run_of (try_once env r op fn st)).calls ≤ st.calls + 1
  unfolding try_once
  calls-try_once st = ground arith

  calls-loop :
      (left attempt : ℕ) (st : Run S)
      → (loop env r op fn left attempt st).1.calls ≤ st.calls + suc left
  unfolding loop
  calls-loop zero attempt st = ground (arith, calls-try_once st)
  calls-loop (suc left) attempt st = elim (Tried-cases (try_once env r op fn st)) [
    | inl (e, st', p) ↦ rw (p, loop) (omega (arith, rw p at (calls-try_once st)))
    | inr (e, st', p) ↦
        rw (p, loop)
          (ground (
            arith,
            rw p at (calls-try_once st),
            calls-wait attempt e st',
            calls-loop left (attempt + 1) (wait env r op attempt e st').1,
          ))
  ]

  -- Whatever the operation, the context, the clock and the breaker do, `Do` runs the operation at most
  -- `MaxAttempts` times.
  pub calls-run_op :
      (st : Run S)
      → 0 < r.max_attempts
      → (run_op env r op fn st).1.calls ≤ st.calls + r.max_attempts
  unfolding run_op
  calls-run_op st h =
      ground (arith, calls-admit st, calls-loop (r.max_attempts - 1) 1 (admit env r st).1)

  -- While the breaker refuses, `Do` returns an error, and has neither run the operation nor slept,
  -- nor changed the breaker.
  pub refused_runs_nothing :
      (st : Run S)
      → is_open (env.now st.env) st.breaker ≡ true
      → let (res, st') = run_op env r op fn st in
        (res ≢ none) × (st'.calls ≡ st.calls) × (st'.env ≡ st.env) × (st'.breaker ≡ st.breaker)
  unfolding run_op admit notify allow is_open
  refused_runs_nothing st h = (ground arith, ground arith, ground arith, ground arith)

  pub admit_closed :
      (st : Run S)
      → is_open (env.now st.env) st.breaker ≡ false
      → ((admit env r st).0 ≡ none)
        × ((admit env r st).1.env ≡ st.env)
        × ((admit env r st).1.calls ≡ st.calls)
  unfolding admit allow is_open
  admit_closed st h = (ground arith, ground arith, ground arith)

  pub loop_ended :
      (left attempt : ℕ) (st : Run S) {e : Option GoError} {st' : Run S}
      → try_once env r op fn st ≡ ended e st'
      → loop env r op fn left attempt st ≡ (e, st')
  unfolding loop
  loop_ended zero attempt st p = rw (p, loop)
  loop_ended (suc left) attempt st p = rw (p, loop)

  pub loop_spent :
      (attempt : ℕ) (st : Run S) {e : GoError} {st' : Run S}
      → try_once env r op fn st ≡ failed e st'
      → loop env r op fn zero attempt st ≡ (some (exhausted r op e), st')
  unfolding loop
  loop_spent attempt st p = rw (p, loop)

  pub loop_stopped :
      (left attempt : ℕ) (st : Run S) {e x : GoError} {st' : Run S}
      → try_once env r op fn st ≡ failed e st'
      → (wait env r op attempt e st').0 ≡ some x
      → loop env r op fn (suc left) attempt st ≡ (some x, (wait env r op attempt e st').1)
  unfolding loop
  loop_stopped left attempt st p w = rw (p, loop) (rw w refl)

  pub loop_again :
      (left attempt : ℕ) (st : Run S) {e : GoError} {st' : Run S}
      → try_once env r op fn st ≡ failed e st'
      → (wait env r op attempt e st').0 ≡ none
      → loop env r op fn (suc left) attempt st
        ≡ loop env r op fn left (attempt + 1) (wait env r op attempt e st').1
  unfolding loop
  loop_again left attempt st p w = rw (p, loop) (rw w refl)

  -- The state once the operation has run.
  abbrev pub called : Run S → Run S
  called st = record st { env = (fn st.env).1; calls = st.calls + 1 }

  abbrev faulted : Run S → GoError → Run S
  faulted st e =
      if is_endpoint_fault (classify r op e)
      then record st { breaker = failure (env.now st.env) st.breaker }
      else st

  try_once_terminal :
      (st : Run S) (e : GoError)
      → env.ctx_err st.env ≡ none
      → (fn st.env).0 ≡ some e
      → is_retryable (some (classify r op e)) ≡ false
      → try_once env r op fn st ≡ ended (some (classify r op e)) (faulted (called st) e)
  unfolding try_once
  try_once_terminal st e c f t = rw (c, try_once) (rw (f, after_call) (rw (t, after_call)))

  -- An error that is not worth another attempt ends `Do` at once: where the context and the breaker
  -- let the first attempt start and it fails so, the operation has run once and the result is what
  -- `classify` made of the error.
  pub terminal_stops :
      (st : Run S) (e : GoError)
      → is_open (env.now st.env) st.breaker ≡ false
      → env.ctx_err st.env ≡ none
      → (fn st.env).0 ≡ some e
      → is_retryable (some (classify r op e)) ≡ false
      → let (res, st') = run_op env r op fn st in
        (res ≡ some (classify r op e)) × (st'.calls ≡ st.calls + 1)
  unfolding run_op
  terminal_stops st e o c f t =
      let a = admit_closed st o in
      let st₁ = (admit env r st).1 in
      let ends = try_once_terminal st₁ e (rw (a.1) c) (rw (a.1) f) t in
      let stops = loop_ended (r.max_attempts - 1) 1 st₁ ends in
      (ground (arith, stops, a.0), ground (arith, stops, a.0, a.2))

  -- And leaves the world as that run of the operation left it.
  pub terminal_leaves :
      (st : Run S) (e : GoError)
      → is_open (env.now st.env) st.breaker ≡ false
      → env.ctx_err st.env ≡ none
      → (fn st.env).0 ≡ some e
      → is_retryable (some (classify r op e)) ≡ false
      → (run_op env r op fn st).1.env ≡ (fn st.env).1
  unfolding run_op
  terminal_leaves st e o c f t =
      let a = admit_closed st o in
      let st₁ = (admit env r st).1 in
      let ends = try_once_terminal st₁ e (rw (a.1) c) (rw (a.1) f) t in
      let stops = loop_ended (r.max_attempts - 1) 1 st₁ ends in
      ground (arith, stops, a.0, ap (λ (s : S). (fn s).1) a.1)
