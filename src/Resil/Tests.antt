-- ===== src/Resil/Tests.antt =====
-- The retrier and the breaker on concrete runs: an operation that fails twice against an endpoint,
-- and a breaker of three failures and ten nanoseconds.
use portcloak.Base.{
  ℕ, zero, suc, ◌≤◌, ◌<◌, ◌≡◌, refl, true, false, Option, none, some, [], ◌∷◌, String, arith,
}
use portcloak.Base.Int.{pos}
use portcloak.Resil.Errors.{
  GoError, Typed, typed, terminal, retryable, is_retryable, classify_network,
}
use portcloak.Resil.Breaker.{Breaker, BreakerConfig}
use portcloak.Resil.Breaker.Laws.{succeeds, fails, allow_all, half_open_admits-All}
use portcloak.Resil.Retrier.{Retrier, PolicyConfig, Env, Run, run_op, classify}
use portcloak.Resil.Retrier.Attempts.{calls-run_op}
use portcloak.Resil.Retrier.Recovery.{Fails, HasRoom, recovers}

abbrev show : ℕ → String
show d = "a while"

abbrev cfg : BreakerConfig
cfg = record { threshold = pos 3; cooldown = pos 10 }

abbrev breaker : Breaker
breaker = record {
  endpoint = "s3";
  threshold = 3;
  cooldown = 10;
  failures = 0;
  opened_at = none;
  half_open = false;
}

-- Opened at 5, and waiting for its probe.
abbrev probing : Breaker
probing = record breaker { failures = 3; opened_at = some 5; half_open = true }

abbrev opened : Breaker
opened = record breaker { failures = 3; opened_at = some 5 }

abbrev fault : Typed
fault = record { op = "put"; message = "reset"; advice = ""; endpoint = ""; class = retryable }

abbrev refused_for_good : Typed
refused_for_good = record fault { message = "denied"; class = terminal }

abbrev policy : PolicyConfig
policy = record { max_attempts = pos 3; base_delay = pos 4; max_delay = pos 30; classifier = none }

abbrev retrier : Retrier
retrier = record {
  max_attempts = 3;
  base_delay = 4;
  max_delay = 30;
  classifier = λ e. classify_network (some e);
  endpoint = "s3";
  has_reporter = true;
}

-- The world is the number of failures to come; the clock stands at 7.
abbrev env : Env ℕ
env = record {
  now = λ s. 7;
  ctx_err = λ s. none;
  sleep = λ d s. (none, s);
  draw = λ d s. (d, s);
  show = show;
}

abbrev put : ℕ → Option GoError × ℕ
put zero = (none, zero)
put (suc n) = (some (typed fault), n)

abbrev denied : ℕ → Option GoError × ℕ
denied s = (some (typed refused_for_good), s)

abbrev start : ℕ → Breaker → Run ℕ
start to_come b = record { env = to_come; breaker = b; notices = []; calls = 0 }

put_fails :
    (s n : ℕ)
    → s ≡ suc n
    → (e : GoError) × ((put s).0 ≡ some e)
      × (is_retryable (some (classify retrier "put" e)) ≡ true)
      × ((put s).1 ≡ n)
unfolding classify is_retryable
put_fails zero n h = absurd (omega (arith, h))
put_fails (suc m) n h = (typed fault, refl, refl, omega (arith, h))

put_succeeds : (s : ℕ) → s ≡ 0 → (put s).0 ≡ none
put_succeeds zero h = refl
put_succeeds (suc m) h = absurd (omega (arith, h))

put-Fails : Fails env retrier "put" put (λ s. s)
put-Fails = record {
  alive = λ s. refl;
  sleeps = λ d s. refl;
  sleep_keeps = λ d s. refl;
  draw_keeps = λ d s. refl;
  succeeds = put_succeeds;
  fails = put_fails;
}

room : (n : ℕ) → n < 3 → HasRoom breaker n
room n h = record { not_opened = refl; not_probing = refl; room = omega (arith, h) }

recovers_example :
    ((run_op env retrier "put" put (start 2 breaker)).0 ≡ none)
    × ((run_op env retrier "put" put (start 2 breaker)).1.calls ≡ 3)
recovers_example =
    recovers env retrier "put" put put-Fails (start 2 breaker) (omega arith) (room 2 (omega arith))

calls-run_op_example : (run_op env retrier "put" put (start 9 breaker)).1.calls ≤ 3
calls-run_op_example = calls-run_op env retrier "put" put (start 9 breaker) (omega arith)

half_open_admits-All_example : allow_all show opened (15 ∷ 16 ∷ 17 ∷ []) ≡ true ∷ true ∷ true ∷ []
half_open_admits-All_example =
    half_open_admits-All show 5 10 opened (15 ∷ 16 ∷ 17 ∷ []) refl refl
      (omega arith, (omega arith, (omega arith, tt)))
