-- ===== src/Blobs/Disk/Tests.antt =====
-- internal/engine/store/disk/disk.go: an upload of four bytes that goes on after two of them, with a hash
-- that adds up the bytes.
use portcloak.Base.{
  ◌≡◌, refl, ℕ, ◌+◌, Bool, true, false, Option, none, some, List, [], ◌∷◌, ◌++◌, itoa, path_join,
  take, ◌==◌, if◌then◌else◌,
}
use portcloak.Base.Dict
use portcloak.Base.Result.{Result, ok, err}
use portcloak.Resil.Errors.{GoError}
use portcloak.Blobs.{PutResult}
use portcloak.Blobs.Disk.{write_both, put}
use portcloak.Blobs.Disk.Resume.{
  DiskEnv, Sha, Source, WriteOptions, Writing, WriteFault, Files, path,
}
use portcloak.Blobs.Disk.Digest.{IsHash, IsWhole, put-IsWhole}

abbrev tally : List ℕ → ℕ → ℕ
tally [] n = n
tally (b ∷ bs) n = tally bs (n + b)

abbrev state_of : List ℕ → Option ℕ
state_of [] = none
state_of (n ∷ ns) = some n

abbrev sums : Sha ℕ
sums = record { fresh = 0; absorb = tally; sum = itoa; unmarshal = state_of; marshal = λ n. n ∷ [] }

tally-append : (a b : List ℕ) (n : ℕ) → tally (a ++ b) n ≡ tally b (tally a n)
tally-append [] b n = refl
tally-append (x ∷ a) b n = tally-append a b (n + x)

sums-IsHash : IsHash sums
sums-IsHash = record { absorb-append = tally-append; absorb-empty = λ n. refl }

abbrev env : DiskEnv
env = record {
  root = "/s";
  fails = λ call p. none;
  mod_time = λ p. 5;
  dir_of = λ p. "/s";
  quoted = λ s. s;
}

abbrev alive : Writing ℕ → Option GoError
alive s = none

abbrev whole : WriteFault
whole n = none

abbrev rest : ℕ → List (List ℕ) × Option GoError
rest n = (if n == 2 then (3 ∷ 4 ∷ []) ∷ [] else (1 ∷ 2 ∷ []) ∷ (3 ∷ 4 ∷ []) ∷ [], none)

abbrev bundle : Source
bundle = record { can_seek = true; refuses = λ n. none; position = 0; reads = rest }

abbrev options : List ℕ → WriteOptions
options state = record {
  digest = "10";
  offset = 4;
  hash_state = state;
  callbacks = record { on_write = false; on_checkpoint = false; has_hash = true };
}

abbrev interrupted : Files
interrupted = ("/s/a.part", 1 ∷ 2 ∷ []) ∷ ("/s/a", 9 ∷ []) ∷ []

abbrev run : List ℕ → Result GoError PutResult × Files
run state = put sums env alive whole "a" bundle (options state) interrupted

abbrev is_ok : Result GoError PutResult → Bool
is_ok (ok r) = true
is_ok (err e) = false

-- The destination holds less than the checkpoint, so the bytes it holds are hashed again.
resumed_run : (is_ok (run []).0 ≡ true) × (Dict.get (run []).1 "/s/a" ≡ some (1 ∷ 2 ∷ 3 ∷ 4 ∷ []))
unfolding put Dict.get Dict.put Dict.remove take write_both itoa path_join
resumed_run = (refl, refl)

-- With the state of the checkpoint, which is over all four bytes, the resumed write is refused.
stale_state_refused : is_ok (run (10 ∷ [])).0 ≡ false
unfolding put Dict.get write_both itoa path_join
stale_state_refused = refl

put-IsWhole_example : IsWhole sums sums-IsHash env alive whole "/s/a" (run [])
put-IsWhole_example =
    put-IsWhole sums sums-IsHash env alive whole "a" "/s/a" (options []) bundle interrupted
      (unfold path path_join in refl) refl
