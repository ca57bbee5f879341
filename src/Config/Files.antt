-- ===== src/Config/Files.antt =====
-- internal/engine/config/store.go, `writeFileAtomic`: a file is written beside its place and renamed
-- into it. A directory is a dictionary from file names to contents; what a system call answers is
-- up to the environment.
use portcloak.Base.{
  ◌≡◌, ◌⊎◌, inl, inr, Bool, Option, none, some, List, [], ◌∷◌, String, Option-cases, if◌then◌else◌,
}
use portcloak.Base.Dict
use portcloak.Base.Dict.{Dict}
use portcloak.Base.Result.{Result, ok, err}

-- The calls of `writeFileAtomic` that may fail, in its order.
pub data WriteCall : Type 0 where
  mkdir_all create_temp chmod write sync close rename : WriteCall

pub data FileError : Type 0 where
  write_failed : WriteCall → String → FileError
  read_failed remove_failed stat_failed : String → FileError
  list_failed : FileError

-- Which calls fail, for which file.
pub record Faults : Type 0 where
  pub on_write : WriteCall → String → Bool
  pub on_read : String → Bool
  pub on_remove : String → Bool
  pub on_list : Bool

abbrev write_calls : List WriteCall
write_calls = mkdir_all ∷ create_temp ∷ chmod ∷ write ∷ sync ∷ close ∷ rename ∷ []

first_failing : (WriteCall → Bool) → List WriteCall → Option WriteCall
first_failing fails [] = none
first_failing fails (c ∷ cs) = let rest = first_failing fails cs in if fails c then some c else rest

module _ {ℓ} {V : Type ℓ} where
  -- The target is touched by the rename alone; the temporary file is removed on every path, and
  -- the sync of the directory that follows cannot fail the write.
  unfoldable pub write_atomic : Faults → Dict V → String → V → Result FileError (Unit {0}) × Dict V
  unfolding first_failing
  write_atomic fs dir name content = elim (first_failing (λ c. fs.on_write c name) write_calls) [
    | some c ↦ (err (write_failed c name), dir)
    | none ↦ (ok tt, Dict.put dir name content)
  ]

  -- A write either puts the whole content in place, or fails and leaves the directory as it was.
  pub write_atomic_cases :
      (fs : Faults) (dir : Dict V) (name : String) (v : V)
      → (write_atomic fs dir name v ≡ (ok tt, Dict.put dir name v))
        ⊎ ((e : FileError) × (write_atomic fs dir name v ≡ (err e, dir)))
  unfolding write_atomic
  write_atomic_cases fs dir name v =
      elim (Option-cases (first_failing (λ c. fs.on_write c name) write_calls)) [
        | inl e ↦ inl (rw (e, write_atomic))
        | inr (c, e) ↦ inr (write_failed c name, rw (e, write_atomic))
      ]
