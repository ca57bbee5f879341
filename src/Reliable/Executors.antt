-- ===== src/Reliable/Executors.antt =====
-- internal/engine/reliable/reliable.go: the target adapter whose remote operations go through the retry
-- loop. The types of a target's facts, contexts, commands and orphans are the target's.
use portcloak.Base.{ℕ, List, [], Option, none, some, String, if◌then◌else◌}
use portcloak.Resil.Errors.{GoError}
use portcloak.Resil.Retrier.{Retrier, Env, Run}
use portcloak.Blobs.{Reader, Answer}
use portcloak.Reliable.{retried, assigning, plain, direct, replayable, rewind}

pub record Types : Type 1 where
  pub Facts : Type 0
  pub PrepareOptions : Type 0
  pub ExecContext : Type 0
  pub Command : Type 0
  pub ExecResult : Type 0
  pub Sink : Type 0
  pub Orphan : Type 0

-- `target.Sweeper`, which some executors are.
pub record Sweeper (T : Types) (S : Type 0) : Type 0 where
  pub find_orphans : S → Answer S (List T.Orphan)
  pub remove_orphan : String → S → Option GoError × S

-- `target.Executor`
pub record Executor (T : Types) (S : Type 0) : Type 0 where
  pub probe : S → Answer S T.Facts
  pub prepare : T.PrepareOptions → S → Answer S T.ExecContext
  pub run : T.Command → S → Answer S T.ExecResult
  pub fetch_dir : String → T.Sink → S → Option GoError × S
  pub push_file : String → ℕ → Reader S → S → Option GoError × S
  pub teardown : S → Option GoError × S
  pub sweeper : Option (Sweeper T S)

module _ {S : Type 0} (T : Types) (env : Env S) (r : Retrier) (inner : Executor T S) where
  abbrev Ended : Type 0
  Ended = (Unit {0} × Option GoError) × Run S

  -- Not retried, as `Run` and `FetchDir`.
  unfoldable pub probe : Run S → (T.Facts × Option GoError) × Run S
  probe st = direct inner.probe st

  unfoldable pub run : T.Command → Run S → (T.ExecResult × Option GoError) × Run S
  run cmd st = direct (inner.run cmd) st

  unfoldable pub fetch_dir : String → T.Sink → Run S → Ended
  fetch_dir remote sink st = direct (plain (inner.fetch_dir remote sink) tt) st

  -- With the zero value of the context.
  unfoldable pub prepare :
      T.ExecContext → T.PrepareOptions → Run S → (T.ExecContext × Option GoError) × Run S
  unfolding retried
  prepare zero_context o st =
      retried env r "prepare the execution context" (assigning (inner.prepare o)) zero_context st

  push_attempt : String → ℕ → Reader S → S → Option GoError × S
  unfolding rewind
  push_attempt remote size reader s =
      let (failed, s₁) = rewind reader s in
      elim failed [ some e ↦ (some e, s₁) | none ↦ inner.push_file remote size reader s₁ ]

  unfoldable pub push_file : String → ℕ → Reader S → Run S → Ended
  unfolding push_attempt retried replayable
  push_file remote size reader st =
      if replayable reader
      then retried env r "send the file" (plain (push_attempt remote size reader)) tt st
      else direct (plain (inner.push_file remote size reader) tt) st

  unfoldable pub teardown : Run S → Ended
  unfolding retried
  teardown st = retried env r "destroy the ephemeral clone" (plain inner.teardown) tt st

  unfoldable pub find_orphans : Run S → (List T.Orphan × Option GoError) × Run S
  unfolding retried
  find_orphans st = elim inner.sweeper [
    | none ↦ (([], none), st)
    | some sweeper ↦
        retried env r "check for orphaned clones" (assigning sweeper.find_orphans) [] st
  ]

  unfoldable pub remove_orphan : String → Run S → Ended
  unfolding retried
  remove_orphan ref st = elim inner.sweeper [
    | none ↦ ((tt, none), st)
    | some sweeper ↦
        retried env r "remove an orphaned clone" (plain (sweeper.remove_orphan ref)) tt st
  ]
