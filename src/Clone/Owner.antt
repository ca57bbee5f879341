-- ===== src/Clone/Owner.antt =====
-- internal/engine/target/clone/clone.go: who a clone runs as, from the lines of `id -u; id -g`.
use portcloak.Base.{
  ℕ, zero, suc, ◌+◌, ◌-◌, ◌*◌, ◌^◌, ◌&&◌, List, [], ◌∷◌, ◌++◌, Option, none, some, String, leb, ltb,
  ◌==◌, codes, is_space, if◌then◌else◌,
}
use portcloak.Base.Int.{ℤ, pos, negsuc}

pub record FileOwner : Type 0 where
  pub uid : ℤ
  pub gid : ℤ

-- The word that a text starts with, up to white space, and the words after it.
push : List ℕ → List (List ℕ) → List (List ℕ)
push [] ws = ws
push (c ∷ w) ws = (c ∷ w) ∷ ws

words : List ℕ → List ℕ × List (List ℕ)
unfolding push is_space
words [] = ([], [])
words (c ∷ s) = let (w, ws) = words s in if is_space c then ([], push w ws) else (c ∷ w, ws)

-- `strings.Fields`
fields : List ℕ → List (List ℕ)
unfolding words push
fields s = let (w, ws) = words s in push w ws

digits : ℕ → List ℕ → Option ℕ
digits n [] = some n
digits n (c ∷ s) =
    let rest = digits (10 * n + (c - b'0')) s in if leb b'0' c && leb c b'9' then rest else none

natural : List ℕ → Option ℕ
unfolding digits
natural [] = none
natural (c ∷ s) = digits 0 (c ∷ s)

opposite : ℕ → ℤ
opposite zero = pos 0
opposite (suc n) = negsuc n

-- `strconv.Atoi` on an int64.
atoi : List ℕ → Option ℤ
unfolding natural opposite
atoi [] = none
atoi (c ∷ s) =
    if c == b'-'
    then elim (natural s) [
      | none ↦ none
      | some n ↦ if leb n (2 ^ 63) then some (opposite n) else none
    ]
    else elim (natural (if c == b'+' then s else c ∷ s)) [
      | none ↦ none
      | some n ↦ if ltb n (2 ^ 63) then some (pos n) else none
    ]

-- The lines, each followed by a space.
spaced : List String → List ℕ
spaced [] = []
spaced (l ∷ ls) = codes l ++ 32 ∷ spaced ls

abbrev pub root_owner : FileOwner
root_owner = record { uid = pos 0; gid = pos 0 }

unfoldable pub owner_of : List String → FileOwner
unfolding fields atoi spaced
owner_of lines = elim (fields (spaced lines)) [
  | u ∷ g ∷ more ↦ elim (atoi u) [
    | none ↦ root_owner
    | some uid ↦ elim (atoi g) [ none ↦ root_owner | some gid ↦ record { uid = uid; gid = gid } ]
  ]
  | _ ↦ root_owner
]
