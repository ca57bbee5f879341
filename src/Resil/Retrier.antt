-- ===== src/Resil/Retrier.antt =====
-- internal/engine/resil/doer.go: the policy and `Retrier.Do`, its loop over the attempts.
-- The world of a call is a state `S`, on which the clock, the context, the jitter and the operation
-- itself act. The notices are what the reporter is told.
pub mod Backoff
pub mod Attempts
pub mod Outcome
pub mod Recovery
use portcloak.Base.{
  ℕ, zero, suc, ◌+◌, ◌-◌, ◌*◌, ◌%◌, ◌^◌, Bool, true, false, ◌||◌, Option, none, some, List, [], ◌∷◌,
  ◌++◌, String, ltb, leb, ◌==◌, str_eq, if◌then◌else◌, concat, itoa,
}
use portcloak.Base.Int.{ℤ, nonpositive, pos_part}
use portcloak.Resil.Errors.{
  Class, Typed, GoError, typed, typed_by, retryable, as_typed, fields_of, is_class_retryable,
  is_retryable, classify_network, error_text,
}
use portcloak.Resil.Breaker.{
  Breaker, BreakerConfig, new_breaker, allow, success, failure, remaining, second,
}

-- `Policy` as a caller gives it.
pub record PolicyConfig : Type 0 where
  pub max_attempts : ℤ
  pub base_delay : ℤ
  pub max_delay : ℤ
  pub classifier : Option (GoError → Class)

-- `Policy` once `New` has filled in what was left out, with the endpoint, and with whether there is
-- a reporter. The clock and the jitter source are in `Env`.
pub record Retrier : Type 0 where
  pub max_attempts : ℕ
  pub base_delay : ℕ
  pub max_delay : ℕ
  pub classifier : GoError → Class
  pub endpoint : String
  pub has_reporter : Bool

-- `New`; a breaker of the caller's is shared, and otherwise there is one of its own.
unfoldable pub new : String → PolicyConfig → Bool → Retrier
new endpoint p has_reporter = record {
  max_attempts = if nonpositive p.max_attempts then 1 else pos_part p.max_attempts;
  base_delay = if nonpositive p.base_delay then 500000000 else pos_part p.base_delay;
  max_delay = if nonpositive p.max_delay then 30 * second else pos_part p.max_delay;
  classifier = elim p.classifier [ none ↦ (λ e. classify_network (some e)) | some c ↦ c ];
  endpoint = endpoint;
  has_reporter = has_reporter;
}

unfoldable pub breaker_for : String → BreakerConfig → Option Breaker → Breaker
breaker_for endpoint cfg none = new_breaker endpoint cfg
breaker_for endpoint cfg (some b) = b

-- What the retrier takes from outside: `Clock.Now`, `Clock.Sleep`, `ctx.Err`, and the jitter, which
-- is `time.Duration(rand() * float64(d))`. `show` is `Duration.String`.
pub record Env (S : Type 0) : Type 0 where
  pub now : S → ℕ
  pub ctx_err : S → Option GoError
  pub sleep : ℕ → S → Option GoError × S
  pub draw : ℕ → S → ℕ × S
  pub show : ℕ → String

pub data Notice : Type 0 where
  breaker_open : String → ℕ → Notice
  retrying : String → ℕ → ℕ → String → Notice

-- `calls` counts how often the operation was run.
pub record Run (S : Type 0) : Type 0 where
  pub env : S
  pub breaker : Breaker
  pub notices : List Notice
  pub calls : ℕ

-- How one attempt ended: `Do` returns, or a retryable failure goes on to the next step.
pub data Tried (S : Type 0) : Type 0 where
  ended : Option GoError → Run S → Tried S
  failed : GoError → Run S → Tried S

-- `BaseDelay << (attempt - 1)` on an int64, capped: what is past `MaxDelay`, or has overflowed to
-- zero or below, is `MaxDelay`.
pub ceiling : Retrier → ℕ → ℕ
ceiling r attempt =
    let d = (r.base_delay * 2 ^ (attempt - 1)) % 2 ^ 64 in
    if leb (2 ^ 63) d || d == 0 || ltb r.max_delay d then r.max_delay else d

-- `classify`: an `*Error` of the chain, which loses what stands around it and gets an endpoint, or
-- else a new one.
with_default_endpoint : String → GoError → GoError
with_default_endpoint p (typed t) =
    typed (if str_eq t.endpoint "" then record t { endpoint = p } else t)
with_default_endpoint p (typed_by t e) =
    typed_by (if str_eq t.endpoint "" then record t { endpoint = p } else t) e
with_default_endpoint p other = other

unfoldable pub classify : Retrier → String → GoError → GoError
unfolding with_default_endpoint error_text
classify r op e = elim (as_typed e) [
  | some t ↦ with_default_endpoint r.endpoint t
  | none ↦
      typed_by
        (record {
          op = op;
          message = concat (op ∷ " failed: " ∷ error_text e ∷ []);
          advice = "";
          endpoint = r.endpoint;
          class = r.classifier e;
        })
        e
]

-- `isEndpointFault`
unfoldable pub is_endpoint_fault : GoError → Bool
is_endpoint_fault e = elim (fields_of e) [ none ↦ false | some t ↦ is_class_retryable t.class ]

-- The error of a loop that has run out of attempts.
unfoldable pub exhausted : Retrier → String → GoError → GoError
unfolding error_text itoa
exhausted r op last =
    typed_by
      (record {
        op = op;
        message = concat (
            op
            ∷ " did not succeed after "
            ∷ itoa r.max_attempts
            ∷ " attempts. The last problem was: "
            ∷ error_text last
            ∷ []);
        advice =
            "The job kept its checkpoint, so resuming continues from where it stopped rather than starting over.";
        endpoint = r.endpoint;
        class = retryable;
      })
      last

module _ {S : Type 0} where
  -- A notice is sent where there is a reporter.
  unfoldable pub notify : Retrier → Notice → Run S → Run S
  notify r n st = if r.has_reporter then record st { notices = st.notices ++ n ∷ [] } else st

  -- `Allow` on the breaker, with the notice of a refusal.
  unfoldable pub admit : Env S → Retrier → Run S → Option GoError × Run S
  unfolding notify
  admit env r st =
      let (refused, b) = allow env.show (env.now st.env) st.breaker in
      let st' = record st { breaker = b } in
      elim refused [
        | none ↦ (none, st')
        | some e ↦ (some e, notify r (breaker_open r.endpoint (remaining (env.now st.env) b)) st')
      ]

  -- One round of the loop up to the test for the last attempt: `last` is what `classify` made of the
  -- operation's error.
  after_call : Env S → Retrier → String → Option GoError → Run S → Tried S
  after_call env r op none st = ended none (record st { breaker = success st.breaker })
  after_call env r op (some e) st =
      let last = classify r op e in
      let st' = record st { breaker = failure (env.now st.env) st.breaker } in
      if is_retryable (some last)
      then failed last st'
      else ended (some last) (if is_endpoint_fault last then st' else st)

  pub try_once : Env S → Retrier → String → (S → Option GoError × S) → Run S → Tried S
  unfolding after_call
  try_once env r op fn st = elim (env.ctx_err st.env) [
    | some e ↦ ended (some e) st
    | none ↦
        let (res, s) = fn st.env in
        after_call env r op res (record st { env = s; calls = st.calls + 1 })
  ]

  -- Between two attempts: the breaker, the backoff and the sleep. An error ends the loop.
  pub wait : Env S → Retrier → String → ℕ → GoError → Run S → Option GoError × Run S
  unfolding admit notify error_text
  wait env r op attempt last st =
      let (refused, st₁) = admit env r st in
      elim refused [
        | some e ↦ (some e, st₁)
        | none ↦
            let (delay, s) = env.draw (ceiling r attempt) st₁.env in
            let st₂ =
              notify r (retrying op attempt delay (error_text last)) (record st₁ { env = s }) in
            let (woken, s') = env.sleep delay st₂.env in (woken, record st₂ { env = s' })
      ]

  -- The loop, by the number of attempts that may follow the present one.
  pub loop :
      Env S → Retrier → String → (S → Option GoError × S) → ℕ → ℕ → Run S → Option GoError × Run S
  loop env r op fn zero attempt st = elim (try_once env r op fn st) [
    | ended e st' ↦ (e, st')
    | failed last st' ↦ (some (exhausted r op last), st')
  ]
  loop env r op fn (suc left) attempt st = elim (try_once env r op fn st) [
    | ended e st' ↦ (e, st')
    | failed last st' ↦
        let (stopped, st₂) = wait env r op attempt last st' in
        elim stopped [ some e ↦ (some e, st₂) | none ↦ loop env r op fn left (attempt + 1) st₂ ]
  ]

  -- `Do`; nil is `none`. `New` makes `MaxAttempts` at least 1.
  unfoldable pub run_op :
      Env S → Retrier → String → (S → Option GoError × S) → Run S → Option GoError × Run S
  unfolding loop try_once wait
  run_op env r op fn st =
      let (refused, st') = admit env r st in
      elim refused [ some e ↦ (some e, st') | none ↦ loop env r op fn (r.max_attempts - 1) 1 st' ]
