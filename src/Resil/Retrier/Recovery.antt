-- ===== src/Resil/Retrier/Recovery.antt =====
-- internal/engine/resil/doer.go: `Do` on an operation that fails for a while, with errors worth
-- another attempt.
use portcloak.Base.{
  ℕ, zero, suc, ◌+◌, ◌-◌, ◌≤◌, ◌<◌, ◌≡◌, refl, ap, ◌∙◌, true, false, Option, none, some, String,
  arith,
}
use portcloak.Resil.Errors.{GoError, is_retryable}
use portcloak.Resil.Breaker.{Breaker, allow, failure, success}
use portcloak.Resil.Retrier.{
  Retrier, Env, Run, after_call, ended, failed, admit, notify, try_once, wait, loop, run_op,
  classify, ceiling,
}
use portcloak.Resil.Retrier.Attempts.{loop_ended, loop_again, called}

-- The operation fails `to_come s` more times from the state `s`, each time with an error that is
-- worth another attempt, and then succeeds; the context stays alive, and neither the draw nor the
-- sleep disturbs it.
pub record Fails {S : Type 0} (env : Env S) (r : Retrier) (op : String)
    (fn : S → Option GoError × S) (to_come : S → ℕ) : Type 0 where
  pub alive : (s : S) → env.ctx_err s ≡ none
  pub sleeps : (d : ℕ) (s : S) → (env.sleep d s).0 ≡ none
  pub sleep_keeps : (d : ℕ) (s : S) → to_come (env.sleep d s).1 ≡ to_come s
  pub draw_keeps : (d : ℕ) (s : S) → to_come (env.draw d s).1 ≡ to_come s
  pub succeeds : (s : S) → to_come s ≡ 0 → (fn s).0 ≡ none
  pub fails :
      (s : S) (n : ℕ)
      → to_come s ≡ suc n
      → (e : GoError) × ((fn s).0 ≡ some e)
        × (is_retryable (some (classify r op e)) ≡ true)
        × (to_come (fn s).1 ≡ n)

pub record HasRoom (b : Breaker) (n : ℕ) : Type 0 where
  pub not_opened : b.opened_at ≡ none
  pub not_probing : b.half_open ≡ false
  pub room : b.failures + n < b.threshold

module _ {S : Type 0} (env : Env S) (r : Retrier) (op : String) (fn : S → Option GoError × S) where
  abbrev after_failure : Run S → Run S
  after_failure st = record (called env r op fn st) {
    breaker = failure (env.now (fn st.env).1) st.breaker;
  }

  try_once_failed :
      (st : Run S) (e : GoError)
      → env.ctx_err st.env ≡ none
      → (fn st.env).0 ≡ some e
      → is_retryable (some (classify r op e)) ≡ true
      → try_once env r op fn st ≡ failed (classify r op e) (after_failure st)
  unfolding try_once
  try_once_failed st e c f t = rw (c, try_once) (rw (f, after_call) (rw (t, after_call)))

  try_once_succeeds :
      (st : Run S)
      → env.ctx_err st.env ≡ none
      → (fn st.env).0 ≡ none
      → try_once env r op fn st
        ≡ ended none (record (called env r op fn st) { breaker = success st.breaker })
  unfolding try_once
  try_once_succeeds st c f = rw (c, try_once) (rw (f, after_call))

  failure-HasRoom : (now n : ℕ) (b : Breaker) → HasRoom b (suc n) → HasRoom (failure now b) n
  unfolding failure
  failure-HasRoom now n b h = ground arith

  module _ {to_come : S → ℕ} (fails_first : Fails env r op fn to_come) where
    wait_passes :
        (attempt : ℕ) (e : GoError) (st : Run S)
        → st.breaker.opened_at ≡ none
        → ((wait env r op attempt e st).0 ≡ none)
          × (to_come (wait env r op attempt e st).1.env ≡ to_come st.env)
          × ((wait env r op attempt e st).1.breaker ≡ st.breaker)
          × ((wait env r op attempt e st).1.calls ≡ st.calls)
    unfolding wait admit notify allow
    wait_passes attempt e st h =
        let (d, s) = env.draw (ceiling r attempt) st.env in
        let woken = fails_first.sleeps d s in
        let slept = fails_first.sleep_keeps d s in
        let drawn = fails_first.draw_keeps (ceiling r attempt) st.env in
        (ground arith, ground arith, ground arith, ground arith)

    -- One failure and the wait after it, with an attempt left: what the next round starts from.
    next_round :
        (left attempt n k : ℕ) (st : Run S)
        → to_come st.env ≡ suc n
        → HasRoom st.breaker (suc k)
        → (st' : Run S) × (loop env r op fn (suc left) attempt st
            ≡ loop env r op fn left (attempt + 1) st')
          × (to_come st'.env ≡ n)
          × (st'.calls ≡ st.calls + 1)
          × HasRoom st'.breaker k
    next_round left attempt n k st p h =
        let (e, f, again, rest) = fails_first.fails st.env n p in
        let failing = try_once_failed st e (fails_first.alive st.env) f again in
        let st₁ = after_failure st in
        let room = failure-HasRoom (env.now (fn st.env).1) k st.breaker h in
        let (passes, keeps, same, count) =
          wait_passes attempt (classify r op e) st₁ room.not_opened in
        (
          (wait env r op attempt (classify r op e) st₁).1,
          loop_again env r op fn left attempt st failing passes,
          keeps ∙ rest,
          count,
          rw same room,
        )

    loop_recovers :
        (left attempt n k : ℕ) (st : Run S)
        → to_come st.env ≡ n
        → n ≤ left
        → HasRoom st.breaker (n + k)
        → ((loop env r op fn left attempt st).0 ≡ none)
          × ((loop env r op fn left attempt st).1.calls ≡ st.calls + suc n)
    loop_recovers left attempt zero k st p le h =
        let done =
          try_once_succeeds st (fails_first.alive st.env) (fails_first.succeeds st.env p) in
        rw (loop_ended env r op fn left attempt st done) (refl, omega arith)
    loop_recovers (suc left) attempt (suc n) k st p le h =
        let (st', same, q, count, room) = next_round left attempt n (n + k) st p (ground arith) in
        let (ok, calls) = loop_recovers left (attempt + 1) n k st' q (omega arith) room in
        rw same (ok, omega arith)
    loop_recovers zero attempt (suc n) k st p le h = absurd (omega arith)

    admit_passes :
        (st : Run S)
        → st.breaker.opened_at ≡ none
        → ((admit env r st).0 ≡ none)
          × ((admit env r st).1.env ≡ st.env)
          × ((admit env r st).1.breaker ≡ st.breaker)
          × ((admit env r st).1.calls ≡ st.calls)
    unfolding admit allow
    admit_passes st h = (ground arith, ground arith, ground arith, ground arith)

    -- An operation that fails fewer times than there are attempts, each time with an error worth
    -- another attempt, is carried to its success: where the breaker is closed and has room for the
    -- failures, `Do` returns nil after one run more than there were failures.
    pub recovers :
        (st : Run S)
        → to_come st.env < r.max_attempts
        → HasRoom st.breaker (to_come st.env)
        → ((run_op env r op fn st).0 ≡ none)
          × ((run_op env r op fn st).1.calls ≡ st.calls + suc (to_come st.env))
    unfolding run_op
    recovers st lt h =
        let (passes, same_env, same, calls) = admit_passes st h.not_opened in
        let st₁ = (admit env r st).1 in
        let (ok, count) =
          loop_recovers (r.max_attempts - 1) 1 (to_come st.env) 0 st₁ (ap to_come same_env)
            (omega arith) (rw same (ground arith)) in
        rw (passes, run_op) (ok, omega arith)
