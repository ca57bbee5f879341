-- ===== src/Resil/Retrier/Outcome.antt =====
-- internal/engine/resil/doer.go: how `Do` leaves the breaker.
use portcloak.Base.{
  ℕ, zero, suc, ◌+◌, ◌-◌, ◌≡◌, ap, ◌∙◌, inl, inr, false, Option, none, String, arith, Option-cases,
}
use portcloak.Resil.Errors.{GoError}
use portcloak.Resil.Breaker.{Breaker, success}
use portcloak.Resil.Retrier.{
  Retrier, Env, Run, after_call, ended, admit, try_once, wait, loop, run_op,
}
use portcloak.Resil.Retrier.Attempts.{Tried-cases, loop_ended, loop_spent, loop_stopped, loop_again}

pub record IsClosed (b : Breaker) : Type 0 where
  pub no_failures : b.failures ≡ 0
  pub not_opened : b.opened_at ≡ none
  pub not_probing : b.half_open ≡ false

module _ {S : Type 0} (env : Env S) (r : Retrier) (op : String) (fn : S → Option GoError × S) where
  try_once-IsClosed :
      (st st' : Run S) → try_once env r op fn st ≡ ended none st' → IsClosed st'.breaker
  unfolding try_once after_call success
  try_once-IsClosed st st' h = ground arith

  loop-IsClosed :
      (left attempt : ℕ) (st : Run S)
      → (loop env r op fn left attempt st).0 ≡ none
      → IsClosed (loop env r op fn left attempt st).1.breaker
  loop-IsClosed zero attempt st h = elim (Tried-cases (try_once env r op fn st)) [
    | inl (e, st', p) ↦
        let q = loop_ended env r op fn zero attempt st p in
        rw q (try_once-IsClosed st st' (p ∙ ap (λ x. ended x st') (rw q at h)))
    | inr (e, st', p) ↦ cc (h, loop_spent env r op fn attempt st p)
  ]
  loop-IsClosed (suc left) attempt st h = elim (Tried-cases (try_once env r op fn st)) [
    | inl (e, st', p) ↦
        let q = loop_ended env r op fn (suc left) attempt st p in
        rw q (try_once-IsClosed st st' (p ∙ ap (λ x. ended x st') (rw q at h)))
    | inr (e, st', p) ↦ elim (Option-cases (wait env r op attempt e st').0) [
      | inl w ↦
          let q = loop_again env r op fn left attempt st p w in
          rw q (loop-IsClosed left (attempt + 1) (wait env r op attempt e st').1 (rw q at h))
      | inr (x, w) ↦ cc (h, loop_stopped env r op fn left attempt st p w)
    ]
  ]

  -- Where `Do` returns nil, the operation has succeeded and the breaker is closed, with no failure
  -- counted and no probe pending.
  pub success_closes :
      (st : Run S) → (run_op env r op fn st).0 ≡ none → IsClosed (run_op env r op fn st).1.breaker
  unfolding run_op
  success_closes st h = ground (arith, loop-IsClosed (r.max_attempts - 1) 1 (admit env r st).1)
