-- ===== src/Orchestrator/Restore/Preview/Laws.antt =====
-- internal/engine/orchestrator/restore.go: what the rows of a dry run say.
use portcloak.Base.{
  ◌≡◌, inl, inr, ◌⊎◌, refl, ℕ, ◌+◌, ◌≤◌, true, false, List, [], ◌∷◌, String, length, ltb, str_eq,
  eq_iff, arith, Bool-cases,
}
use portcloak.Kc.{ImportStrategy}
use portcloak.Manifest.{Manifest}
use portcloak.Orchestrator.Restore.Preview.{
  RealmShape, DiffCategory, diff_row, diff_rows, min_int, over, strategy_skip,
}

-- The categories that are compared, with how many of each the snapshot brings and the destination has.
abbrev pub compared : Manifest → RealmShape → List (String × ℕ × ℕ)
compared m shape =
    let n = m.counts in
    ("Users", n.users, shape.users)
    ∷ ("Clients", n.clients, shape.clients)
    ∷ ("Key providers", n.key_providers, length shape.key_ids)
    ∷ ("Identity providers", n.identity_providers, shape.identity_providers)
    ∷ ("User federation", n.federations, shape.federations)
    ∷ (
      "Roles, groups, scopes, flows",
      n.realm_roles + n.client_roles + n.groups + n.client_scopes + n.auth_flows,
      shape.realm_roles + shape.groups + shape.client_scopes,
    )
    ∷ []

-- As many are met as the destination has, or all that come, and the others are created.
abbrev IsMet : ℕ → ℕ → ℕ → ℕ → Type 0
IsMet incoming existing created met =
    (created + met ≡ incoming) × (met ≤ existing) × ((created ≡ 0) ⊎ (met ≡ existing))

-- What a row says of a category. All is created where the realm does not exist. Else what the destination
-- has already is left alone under skip, and overwritten under every other strategy.
abbrev IsDiff : RealmShape → ImportStrategy → String × ℕ × ℕ → DiffCategory → Type 0
IsDiff shape strategy (name, incoming, existing) r =
    (r.category ≡ name)
    × (((shape.exists ≡ false) × (r.create ≡ incoming) × (r.overwrite ≡ 0) × (r.leave_alone ≡ 0))
        ⊎ (((shape.exists ≡ true)
              × (strategy ≡ strategy_skip)
              × (r.overwrite ≡ 0)
              × IsMet incoming existing r.create r.leave_alone)
            ⊎ ((shape.exists ≡ true)
                × (str_eq strategy strategy_skip ≡ false)
                × (r.leave_alone ≡ 0)
                × IsMet incoming existing r.create r.overwrite)))

-- The rows say this of the categories, each of its own and in their order.
abbrev pub AreDiffs :
    RealmShape → ImportStrategy → List (String × ℕ × ℕ) → List DiffCategory → Type 0
AreDiffs shape strategy [] [] = Unit {0}
AreDiffs shape strategy [] (r ∷ rs) = ⊥
AreDiffs shape strategy (c ∷ cs) [] = ⊥
AreDiffs shape strategy (c ∷ cs) (r ∷ rs) =
    IsDiff shape strategy c r × AreDiffs shape strategy cs rs

over_or_min :
    (incoming existing : ℕ)
    → IsMet incoming existing (over incoming existing) (min_int incoming existing)
unfolding over min_int
over_or_min incoming existing = elim (Bool-cases (ltb incoming existing)) [
  | inl less ↦ rw less (ground (arith, less), ground (arith, less), inl (ground (arith, less)))
  | inr more ↦ rw more (ground (arith, more), omega arith, inr refl)
]

diff_row-IsDiff :
    (shape : RealmShape) (strategy : ImportStrategy) (category : String) (incoming existing : ℕ)
    (note level : String)
    → IsDiff shape strategy
        (category, incoming, existing)
        (diff_row shape strategy category incoming existing note level)
unfolding diff_row
diff_row-IsDiff shape strategy category incoming existing note level =
    elim (Bool-cases shape.exists) [
      | inr new ↦ rw (new, diff_row) (refl, inl (refl, refl, refl, refl))
      | inl there ↦ elim (Bool-cases (str_eq strategy strategy_skip)) [
        | inl skip ↦
            rw (there, skip, diff_row)
              (
                refl,
                inr (
                    inl (
                      refl,
                      (eq_iff strategy strategy_skip).0 skip,
                      refl,
                      over_or_min incoming existing,
                    )),
              )
        | inr other ↦
            rw (there, other, diff_row)
              (refl, inr (inr (refl, refl, refl, over_or_min incoming existing)))
      ]
    ]

-- A dry run has a row for each of the six categories that are compared, in their order. Where the realm does
-- not exist, a row creates all that the snapshot brings of its category. Where it does, what comes is met by
-- what the destination has, until either is used up, and the rest is created; what is met is left alone
-- under skip, and overwritten under every other strategy.
pub diff_rows_lem :
    (m : Manifest) (shape : RealmShape) (strategy : ImportStrategy)
    → AreDiffs shape strategy (compared m shape) (diff_rows m shape strategy)
unfolding diff_rows
diff_rows_lem m shape strategy =
    let row = diff_row-IsDiff shape strategy in
    (
      row _ _ _ _ _,
      (row _ _ _ _ _, (row _ _ _ _ _, (row _ _ _ _ _, (row _ _ _ _ _, (row _ _ _ _ _, tt))))),
    )
