-- ===== src/Blobs/Progress.antt =====
-- internal/engine/store/store.go: the writer of a transfer, which counts what the destination took and
-- reports checkpoints. The writer below it and the state of the hash are parameters on a world `S`; the
-- two callbacks are the lists of their calls, the latest first.
use portcloak.Base.{
  ◌≡◌, inl, inr, ℕ, ◌+◌, ◌-◌, ◌≤◌, ◌<◌, Bool, not, ◌&&◌, Option, none, some, List, [], ◌∷◌, ltb,
  arith, Option-cases, if◌then◌else◌,
}
use portcloak.Resil.Errors.{GoError}

-- The counters of a `ProgressWriter`, and the calls of its callbacks.
pub record Progress : Type 0 where
  pub written : ℕ
  pub checkpointed : ℕ
  pub reports : List ℕ
  pub checkpoints : List (ℕ × List ℕ)

-- Which of `OnWrite`, `OnCheckpoint` and `Hash` are set.
pub record Callbacks : Type 0 where
  pub on_write : Bool
  pub on_checkpoint : Bool
  pub has_hash : Bool

abbrev pub checkpoint_every : ℕ
checkpoint_every = 8388608

-- A writer that starts from an offset.
unfoldable pub new_progress : ℕ → Progress
new_progress offset = record { written = offset; checkpointed = 0; reports = []; checkpoints = [] }

-- The checkpoints, the latest first and at the given offset, are each a whole interval after the one
-- before, the first of them after the start of the object.
abbrev pub IsSpaced : ℕ → List (ℕ × List ℕ) → Type 0
IsSpaced at [] = at ≡ 0
IsSpaced at ((offset, state) ∷ rest) =
    (offset ≡ at) × ((before : ℕ) × (before + checkpoint_every ≤ at) × IsSpaced before rest)

abbrev pub IsClose : Progress → Type 0
IsClose p = p.written < p.checkpointed + checkpoint_every

module _ {S : Type 0} (ctx_err : S → Option GoError)
    (write_below : List ℕ → S → (ℕ × Option GoError) × S) (marshal_hash : S → List ℕ)
    (set : Callbacks) where
  -- The count and its report.
  reported : ℕ → Progress → Progress
  reported n p =
      let written = p.written + n in
      record p {
        written = written;
        reports = if set.on_write then written ∷ p.reports else p.reports;
      }

  -- The checkpoint, where one is due.
  checkpoint : List ℕ → Progress → Progress
  checkpoint state p =
      if set.on_checkpoint
        && set.has_hash
        && not (ltb (p.written - p.checkpointed) checkpoint_every)
      then record p { checkpointed = p.written; checkpoints = (p.written, state) ∷ p.checkpoints }
      else p

  -- `Write`
  unfoldable pub write : List ℕ → Progress → S → (ℕ × Option GoError) × Progress × S
  unfolding reported checkpoint
  write b p s = elim (ctx_err s) [
    | some e ↦ ((0, some e), p, s)
    | none ↦
        let (res, s') = write_below b s in
        (res, checkpoint (marshal_hash s') (reported res.0 p), s')
  ]

  -- A write adds to the count what it answers.
  pub written-write :
      (b : List ℕ) (p : Progress) (s : S)
      → let (res, p', s') = write b p s in p'.written ≡ p.written + res.0
  unfolding write reported checkpoint
  written-write b p s = elim (Option-cases (ctx_err s)) [
    | inr (e, over) ↦ rw (over, write) (omega arith)
    | inl alive ↦
        rw (alive, write)
          (counted (marshal_hash (write_below b s).1) (reported (write_below b s).0.0 p))
  ]
    where
      counted : (state : List ℕ) (q : Progress) → (checkpoint state q).written ≡ q.written
      counted state q = ground arith

  -- The writes of a transfer, one after the other, whatever they answer.
  unfoldable pub write_all : List (List ℕ) → Progress → S → Progress × S
  unfolding write
  write_all [] p s = (p, s)
  write_all (b ∷ bs) p s = let (res, p', s') = write b p s in write_all bs p' s'
