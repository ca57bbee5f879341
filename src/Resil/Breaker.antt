-- ===== src/Resil/Breaker.antt =====
-- internal/engine/resil/doer.go: the circuit breaker of one endpoint and the registry of breakers.
-- Times and durations are in nanoseconds. `openedAt` is `none` where the source has the zero time.
-- The mutex is left out: each method holds it from its first line to its last, so a method is one
-- step.
pub mod Laws
use portcloak.Base.{
  ℕ, ◌+◌, ◌-◌, ◌*◌, ◌%◌, Bool, true, false, Option, none, some, List, [], ◌∷◌, String, ltb, leb,
  str_eq, if◌then◌else◌, concat,
}
use portcloak.Base.Int.{ℤ, nonpositive, pos_part}
use portcloak.Resil.Errors.{Typed, GoError, typed, retryable}

-- `time.Second`, in nanoseconds.
abbrev pub second : ℕ
second = 1000000000

pub record BreakerConfig : Type 0 where
  pub threshold : ℤ
  pub cooldown : ℤ

pub record Breaker : Type 0 where
  pub endpoint : String
  pub threshold : ℕ
  pub cooldown : ℕ
  pub failures : ℕ
  pub opened_at : Option ℕ
  pub half_open : Bool

-- `NewBreaker`; the clock is an argument of the methods that read it.
unfoldable pub new_breaker : String → BreakerConfig → Breaker
new_breaker endpoint cfg = record {
  endpoint = endpoint;
  threshold = if nonpositive cfg.threshold then 5 else pos_part cfg.threshold;
  cooldown = if nonpositive cfg.cooldown then 30 * second else pos_part cfg.cooldown;
  failures = 0;
  opened_at = none;
  half_open = false;
}

-- `d.Round(m)`, which rounds half away from zero.
round : ℕ → ℕ → ℕ
round m d = let r = d % m in if ltb (r + r) m then d - r else d + m - r

unfoldable pub roundish : ℕ → ℕ
unfolding round
roundish d = if leb (60 * second) d then round second d else round 100000000 d

-- The refusal of `Allow`. `show` is `Duration.String`, of Go's `time`.
unfoldable pub refusal : (ℕ → String) → Breaker → ℕ → ℕ → GoError
refusal show b elapsed remaining = typed (record {
  op = "connect";
  message = concat (
      b.endpoint
      ∷ " has been unreachable for "
      ∷ show (roundish elapsed)
      ∷ ". PortCloak has paused rather than keep hammering it, and will try again in "
      ∷ show (roundish remaining)
      ∷ "."
      ∷ []);
  advice = "Nothing is lost. The job keeps its checkpoint and resumes from where it stopped.";
  endpoint = b.endpoint;
  class = retryable;
})

-- `elapsed < Cooldown` is `now < openedAt + Cooldown`.
unfoldable pub allow_at : (ℕ → String) → ℕ → Option ℕ → Breaker → Option GoError × Breaker
allow_at show now none b = (none, b)
allow_at show now (some opened) b =
    if ltb now (opened + b.cooldown)
    then (some (refusal show b (now - opened) (opened + b.cooldown - now)), b)
    else (none, record b { half_open = true })

-- `Allow`: nil where the attempt may proceed.
unfoldable pub allow : (ℕ → String) → ℕ → Breaker → Option GoError × Breaker
unfolding allow_at
allow show now b = allow_at show now b.opened_at b

-- `Success`
unfoldable pub success : Breaker → Breaker
success b = record b { failures = 0; opened_at = none; half_open = false }

-- `Failure`
unfoldable pub failure : ℕ → Breaker → Breaker
failure now b =
    if b.half_open then record b { half_open = false; opened_at = some now } else record b {
      failures = b.failures + 1;
      opened_at =
          if leb b.threshold (b.failures + 1)
          then elim b.opened_at [ none ↦ some now | some t ↦ some t ]
          else b.opened_at;
    }

-- `Open`
unfoldable pub is_open : ℕ → Breaker → Bool
is_open now b = elim b.opened_at [ none ↦ false | some t ↦ ltb now (t + b.cooldown) ]

-- `Remaining`; a difference below zero is returned as 0.
unfoldable pub remaining : ℕ → Breaker → ℕ
remaining now b = elim b.opened_at [ none ↦ 0 | some t ↦ t + b.cooldown - now ]

-- `Registry`: the breakers handed out so far, by endpoint. A method of a breaker acts on the one in
-- the registry, so that every job against the endpoint sees it.
pub record Registry : Type 0 where
  pub cfg : BreakerConfig
  pub breakers : List Breaker

find : String → List Breaker → Option Breaker
find e [] = none
find e (b ∷ bs) = let rest = find e bs in if str_eq b.endpoint e then some b else rest

-- `For`
unfoldable pub for_endpoint : String → Registry → Breaker × Registry
unfolding find
for_endpoint e r = elim (find e r.breakers) [
  | some b ↦ (b, r)
  | none ↦ (new_breaker e r.cfg, record r { breakers = new_breaker e r.cfg ∷ r.breakers })
]
