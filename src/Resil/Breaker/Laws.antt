-- ===== src/Resil/Breaker/Laws.antt =====
-- internal/engine/resil/doer.go: the circuit breaker over the sequences of calls that jobs make of it.
use portcloak.Base.{
  ℕ, ◌+◌, ◌≤◌, ◌<◌, ◌≡◌, refl, ap, ◌∙◌, ◌≢◌, ◌↔◌, Bool, true, false, not, ◌&&◌, ◌||◌, is_some, none,
  some, List, [], ◌∷◌, String, arith, map, length, All,
}
use portcloak.Resil.Breaker.{
  Breaker, BreakerConfig, new_breaker, allow, success, failure, is_open, remaining,
}

-- The calls that change a breaker, with the time that each reads.
pub data Call : Type 0 where
  allows : ℕ → Call
  succeeds : Call
  fails : ℕ → Call

abbrev pub step : (ℕ → String) → Breaker → Call → Breaker
step show b (allows now) = (allow show now b).1
step show b succeeds = success b
step show b (fails now) = failure now b

abbrev pub run : (ℕ → String) → Breaker → List Call → Breaker
run show b [] = b
run show b (c ∷ cs) = run show (step show b c) cs

pub record IsValid (b : Breaker) : Type 0 where
  pub has_threshold : 0 < b.threshold
  pub has_cooldown : 0 < b.cooldown
  pub closed_below : b.opened_at ≡ none → b.failures < b.threshold
  pub closed_of_below : b.failures < b.threshold → b.opened_at ≡ none
  pub half_open_opened : b.half_open ≡ true → b.opened_at ≢ none

pub new_breaker-IsValid : (e : String) (cfg : BreakerConfig) → IsValid (new_breaker e cfg)
unfolding new_breaker
new_breaker-IsValid e cfg = ground arith

pub step-IsValid :
    (show : ℕ → String) (b : Breaker) (c : Call) → IsValid b → IsValid (step show b c)
unfolding allow success failure
step-IsValid show b (allows now) h = ground arith
step-IsValid show b succeeds h = ground arith
step-IsValid show b (fails now) h = ground arith

run-IsValid :
    (show : ℕ → String) (b : Breaker) (cs : List Call) → IsValid b → IsValid (run show b cs)
run-IsValid show b [] h = h
run-IsValid show b (c ∷ cs) h = run-IsValid show (step show b c) cs (step-IsValid show b c h)

-- `Allow` refuses exactly while the breaker is open and its cooldown runs, which is what `Open`
-- reports; `Remaining` is then positive and otherwise 0; and the call changes nothing but that a breaker
-- which is open, and whose cooldown has run, now waits for its probe.
pub allow_iff_not_open :
    (show : ℕ → String) (now : ℕ) (b : Breaker)
    → (((allow show now b).0 ≡ none) ↔ (is_open now b ≡ false))
      × ((is_open now b ≡ false) ↔ (remaining now b ≡ 0))
      × ((allow show now b).1
          ≡ record b { half_open = b.half_open || (is_some b.opened_at && not (is_open now b)) })
unfolding allow is_open remaining
allow_iff_not_open show now b =
    ((ground arith, ground arith), (ground arith, ground arith), ground arith)

failure_counts :
    (t : ℕ) (b : Breaker)
    → b.half_open ≡ false
    → ((failure t b).half_open ≡ false)
      × ((failure t b).failures ≡ b.failures + 1)
      × ((failure t b).threshold ≡ b.threshold)
unfolding failure
failure_counts t b h = (ground arith, ground arith, ground arith)

fails-count :
    (show : ℕ → String) (b : Breaker) (ts : List ℕ)
    → b.half_open ≡ false
    → ((run show b (map fails ts)).failures ≡ b.failures + length ts)
      × ((run show b (map fails ts)).threshold ≡ b.threshold)
fails-count show b [] h = (omega arith, refl)
fails-count show b (t ∷ ts) h =
    let f = failure_counts t b h in
    let ih = fails-count show (failure t b) ts f.0 in (omega (arith, ih.0, f.1), ih.1 ∙ f.2)

-- Consecutive failures after a success open the breaker exactly when there are as many of them as
-- the threshold says.
opens_at_threshold :
    (show : ℕ → String) (b : Breaker) (ts : List ℕ)
    → IsValid b
    → let b' = run show (success b) (map fails ts) in
      (b'.opened_at ≡ none) ↔ (length ts < b.threshold)
opens_at_threshold show b ts h =
    let v = run-IsValid show (success b) (map fails ts) (step-IsValid show b succeeds h) in
    let c = fails-count show (success b) ts (unfold success in refl) in
    (
      unfold success in λ e. omega (arith, v.closed_below e, c.0, c.1),
      unfold success in λ l. v.closed_of_below (omega (arith, c.0, c.1)),
    )

-- A probe that fails puts the breaker back for a whole cooldown: every later `Allow` is refused
-- until the cooldown, counted from that failure, has run, and none after it.
probe_failure_restarts :
    (show : ℕ → String) (b : Breaker) (t now : ℕ)
    → b.half_open ≡ true
    → ((allow show now (failure t b)).0 ≡ none) ↔ (t + b.cooldown ≤ now)
unfolding allow failure
probe_failure_restarts show b t now h = (ground arith, ground arith)

-- Whether each of a row of `Allow` calls passes.
abbrev pub allow_all : (ℕ → String) → Breaker → List ℕ → List Bool
allow_all show b [] = []
allow_all show b (now ∷ nows) =
    not (is_some (allow show now b).0) ∷ allow_all show (allow show now b).1 nows

allow_passes :
    (show : ℕ → String) (now t c : ℕ) (b : Breaker)
    → b.opened_at ≡ some t
    → b.cooldown ≡ c
    → t + c ≤ now
    → ((allow show now b).0 ≡ none)
      × ((allow show now b).1.opened_at ≡ some t)
      × ((allow show now b).1.cooldown ≡ c)
unfolding allow
allow_passes show now t c b e k h = (ground arith, ground arith, ground arith)

-- Once the cooldown has run, every call of `Allow` passes and not one alone, as long as no call of
-- `Success` or `Failure` ends the probe.
pub half_open_admits-All :
    (show : ℕ → String) (t c : ℕ) (b : Breaker) (nows : List ℕ)
    → b.opened_at ≡ some t
    → b.cooldown ≡ c
    → All (λ now. t + c ≤ now) nows
    → allow_all show b nows ≡ map (λ _. true) nows
half_open_admits-All show t c b [] e k h = refl
half_open_admits-All show t c b (now ∷ nows) e k h =
    let p = allow_passes show now t c b e k h.0 in
    rw (p.0) (
      ap (λ (l : List Bool). true ∷ l)
        (half_open_admits-All show t c (allow show now b).1 nows p.1 p.2 h.1))
