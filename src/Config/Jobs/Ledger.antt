-- ===== src/Config/Jobs/Ledger.antt =====
-- What `Append` makes of the ledger of internal/engine/config/jobs.go, and `CompletePhase` and
-- `SkipPhase` of the lists of phases.
use portcloak.Base.{
  ◌+◌, ◌≤◌, ◌≡◌, refl, ap, Bool, true, false, ◌&&◌, Option, none, some, List, [], ◌∷◌, ◌++◌, String,
  str_eq, eq_iff, arith, if◌then◌else◌, any, length, Bool-cases, inl, inr,
}
use portcloak.Config.Jobs.{
  LedgerEntry, Job, append_entry, append, add_phase, complete_phase, skip_phase,
}

-- The entry of a line, by its phase and item.
abbrev pub find_line : List LedgerEntry → String → String → Option LedgerEntry
find_line [] p i = none
find_line (l ∷ ls) p i = if str_eq l.phase p && str_eq l.item i then some l else find_line ls p i

-- No line has two entries.
abbrev pub IsCollapsed : List LedgerEntry → Type 0
IsCollapsed [] = Unit
IsCollapsed (l ∷ ls) = (find_line ls l.phase l.item ≡ none) × IsCollapsed ls

find_line-append_entry :
    (ls : List LedgerEntry) (e : LedgerEntry) (p i : String)
    → find_line (append_entry ls e) p i
      ≡ (if str_eq e.phase p && str_eq e.item i then some e else find_line ls p i)
unfolding append_entry
find_line-append_entry [] e p i = refl
find_line-append_entry (l ∷ ls) e p i = ground (
  arith,
  find_line-append_entry ls e p i,
  eq_iff l.phase e.phase,
  eq_iff l.item e.item,
  eq_iff l.phase p,
  eq_iff l.item i,
  eq_iff e.phase p,
  eq_iff e.item i,
)

append_entry-IsCollapsed :
    (ls : List LedgerEntry) (e : LedgerEntry) → IsCollapsed ls → IsCollapsed (append_entry ls e)
unfolding append_entry
append_entry-IsCollapsed [] e h = (refl, tt)
append_entry-IsCollapsed (l ∷ ls) e h = ground (
  arith,
  append_entry-IsCollapsed ls e h.1,
  find_line-append_entry ls e l.phase l.item,
  eq_iff l.phase e.phase,
  eq_iff l.item e.item,
  eq_iff e.phase l.phase,
  eq_iff e.item l.item,
)

length-append_entry :
    (ls : List LedgerEntry) (e : LedgerEntry) → length (append_entry ls e) ≤ length ls + 1
unfolding append_entry
length-append_entry [] e = omega arith
length-append_entry (l ∷ ls) e = ground (arith, length-append_entry ls e)

-- `Append` makes the entry the only one of its line and leaves every other line as it was; it adds
-- at most one entry, and a ledger with one entry to a line stays so.
pub append_one_line :
    (j : Job) (e : LedgerEntry) (p i : String)
    → IsCollapsed j.ledger
    → (find_line (append j e).ledger p i
        ≡ (if str_eq e.phase p && str_eq e.item i then some e else find_line j.ledger p i))
      × IsCollapsed (append j e).ledger
      × (length (append j e).ledger ≤ length j.ledger + 1)
unfolding append
append_one_line j e p i h = (
  find_line-append_entry j.ledger e p i,
  append_entry-IsCollapsed j.ledger e h,
  length-append_entry j.ledger e,
)

abbrev pub has_phase : List String → String → Bool
has_phase ps q = any (λ p. str_eq p q) ps

-- No phase stands twice.
abbrev pub IsOnce : List String → Type 0
IsOnce [] = Unit
IsOnce (p ∷ ps) = (has_phase ps p ≡ false) × IsOnce ps

has_phase-append :
    (ps : List String) (q r : String)
    → has_phase (ps ++ q ∷ []) r ≡ (if str_eq q r then true else has_phase ps r)
has_phase-append [] q r = ground arith
has_phase-append (p ∷ ps) q r = ground (arith, has_phase-append ps q r)

append-IsOnce :
    (ps : List String) (q : String) → has_phase ps q ≡ false → IsOnce ps → IsOnce (ps ++ q ∷ [])
append-IsOnce [] q n h = (refl, tt)
append-IsOnce (p ∷ ps) q n h =
    ground (arith, append-IsOnce ps q, has_phase-append ps q p, eq_iff q p, eq_iff p q)

add_phase-IsOnce :
    (ps : List String) (q r : String)
    → IsOnce ps
    → (has_phase (add_phase ps q) r ≡ (if str_eq q r then true else has_phase ps r))
      × IsOnce (add_phase ps q)
      × (add_phase (add_phase ps q) q ≡ add_phase ps q)
unfolding add_phase
add_phase-IsOnce ps q r h = elim (Bool-cases (has_phase ps q)) [
  | inl old ↦ (ground (arith, eq_iff q r), rw old h, rw old (rw old refl))
  | inr new ↦ (
    ground (arith, has_phase-append ps q r),
    rw new (append-IsOnce ps q new h),
    rw new (ground (arith, has_phase-append ps q q, eq_iff q q)),
  )
]

-- `CompletePhase` records the phase, keeps the others, and records none of them twice; to record a
-- phase again changes nothing. `SkipPhase` does the same on its own list.
phases-IsOnce :
    (j : Job) (q r : String)
    → IsOnce j.completed_phases
    → IsOnce j.skipped_phases
    → let c = complete_phase j q in
      let s = skip_phase j q in
      (has_phase c.completed_phases r
        ≡ (if str_eq q r then true else has_phase j.completed_phases r))
      × IsOnce c.completed_phases
      × (complete_phase c q ≡ c)
      × (has_phase s.skipped_phases r ≡ (if str_eq q r then true else has_phase j.skipped_phases r))
      × IsOnce s.skipped_phases
      × (skip_phase s q ≡ s)
unfolding complete_phase skip_phase
phases-IsOnce j q r h k =
    let (has, once, twice) = add_phase-IsOnce j.completed_phases q r h in
    let (has', once', twice') = add_phase-IsOnce j.skipped_phases q r k in
    (
      has,
      once,
      ap (λ ps. record j { completed_phases = ps }) twice,
      has',
      once',
      ap (λ ps. record j { skipped_phases = ps }) twice',
    )
