-- ===== src/Snapshot/Integrity.antt =====
-- internal/engine/snapshot/integrity.go: what `Verify` answers.
use portcloak.Base.{
  ◌≡◌, refl, sym, ap, ◌∙◌, ◌≢◌, ◌⊎◌, inl, inr, ◌↔◌, Bool, true, false, ◌&&◌, List, [], ◌∷◌, ◌++◌,
  Option, none, some, String, str_eq, eq_iff, eq_refl, ne-false, str_eq-false, All, All-In, All-of,
  All-map, All-sort_by, In, here, there, IsDistinct, Apart, arith, Bool-cases, Option-cases,
  sort_by, In-sort_by, IsDistinct-sort_by,
}
use portcloak.Base.Dict
use portcloak.Base.Dict.{Dict, get-put, get-remove}
use portcloak.Snapshot.{
  ArtifactDigest, IntegrityTree, ArtifactResult, name_less, seen_all, check_leaf, check_leaves,
  unlisted, all_ok, new_integrity_tree, verify,
}

abbrev pub name_of : ArtifactDigest → String
name_of a = a.name

-- What `seen` holds of a leaf: an artifact of its name with its digest.
abbrev IsHeld : Dict ArtifactDigest → ArtifactDigest → Type 0
IsHeld seen want =
    (got : ArtifactDigest) × (Dict.get seen want.name ≡ some got) × (got.sha256 ≡ want.sha256)

seen_all-miss :
    (seen : Dict ArtifactDigest) (os : List ArtifactDigest) (n : String)
    → All (λ (o : ArtifactDigest). n ≢ o.name) os
    → Dict.get (seen_all seen os) n ≡ Dict.get seen n
unfolding seen_all
seen_all-miss seen [] n a = refl
seen_all-miss seen (o ∷ os) n a =
    seen_all-miss (Dict.put seen o.name o) os n (a.1)
    ∙ (get-put seen o.name n o ∙ rw (ne-false o.name n (λ e. a.0 (sym e))) refl)

seen_all-hit :
    (seen : Dict ArtifactDigest) (os : List ArtifactDigest) (o : ArtifactDigest)
    → IsDistinct name_of os
    → In o os
    → Dict.get (seen_all seen os) o.name ≡ some o
unfolding seen_all
seen_all-hit seen [] o d m = elim m [ ]
seen_all-hit seen (x ∷ os) o d (there m) = seen_all-hit (Dict.put seen x.name x) os o (d.1) m
seen_all-hit seen (x ∷ os) o d (here e) = rw e (
    seen_all-miss (Dict.put seen x.name x) os x.name (d.0)
    ∙ (get-put seen x.name x.name x ∙ rw (eq_refl x.name) refl))

seen_all-from :
    (seen : Dict ArtifactDigest) (os : List ArtifactDigest) (n : String) (o : ArtifactDigest)
    → Dict.get (seen_all seen os) n ≡ some o
    → (In o os × (o.name ≡ n)) ⊎ (Dict.get seen n ≡ some o)
unfolding seen_all
seen_all-from seen [] n o h = inr h
seen_all-from seen (x ∷ os) n o h = elim (seen_all-from (Dict.put seen x.name x) os n o h) [
  | inl (m, e) ↦ inl (there m, e)
  | inr g ↦ elim (Bool-cases (str_eq x.name n)) [
    | inl e ↦
        let same : x ≡ o = ground (arith, get-put seen x.name n x, e, g) in
        inl (here (sym same), ap name_of (sym same) ∙ (eq_iff x.name n).0 e)
    | inr f ↦ inr (sym (get-put seen x.name n x ∙ rw f refl) ∙ g)
  ]
]

-- A leaf passes exactly where it is held.
check_leaf-ok :
    (want : ArtifactDigest) (o : Option ArtifactDigest)
    → (check_leaf want o).is_ok ≡ true
    → (got : ArtifactDigest) × (o ≡ some got) × (got.sha256 ≡ want.sha256)
unfolding check_leaf
check_leaf-ok want none h = absurd (ground (arith, h))
check_leaf-ok want (some got) h = elim (Bool-cases (str_eq got.sha256 want.sha256)) [
  | inl e ↦ (got, refl, (eq_iff got.sha256 want.sha256).0 e)
  | inr f ↦ absurd (ground (arith, h, f))
]

check_leaf-held :
    (seen : Dict ArtifactDigest) (want : ArtifactDigest)
    → IsHeld seen want
    → (check_leaf want (Dict.get seen want.name)).is_ok ≡ true
unfolding check_leaf
check_leaf-held seen want (got, g, e) = ground (arith, g, (eq_iff got.sha256 want.sha256).1 e)

-- Removing another name changes nothing for a leaf.
IsHeld-remove :
    (seen : Dict ArtifactDigest) (n : String) (want : ArtifactDigest)
    → n ≢ want.name
    → IsHeld (Dict.remove seen n) want ↔ IsHeld seen want
IsHeld-remove seen n want a =
    let same : Dict.get (Dict.remove seen n) want.name ≡ Dict.get seen want.name =
      get-remove seen n want.name ∙ rw (ne-false n want.name a) refl in
    (λ (got, g, e). (got, sym same ∙ g, e), λ (got, g, e). (got, same ∙ g, e))

both : (a b : Bool) → a && b ≡ true → (a ≡ true) × (b ≡ true)
both true true h = (refl, refl)
both true false h = absurd (ground (arith, h))
both false b h = absurd (ground (arith, h))

IsHeld-elsewhere :
    (seen : Dict ArtifactDigest) (w : ArtifactDigest) (ws : List ArtifactDigest)
    → Apart name_of w ws
    → All (IsHeld (Dict.remove seen w.name)) ws
    → All (IsHeld seen) ws
IsHeld-elsewhere seen w [] a h = tt
IsHeld-elsewhere seen w (x ∷ ws) a h =
    ((IsHeld-remove seen w.name x (a.0)).0 (h.0), IsHeld-elsewhere seen w ws (a.1) (h.1))

IsHeld-without :
    (seen : Dict ArtifactDigest) (w : ArtifactDigest) (ws : List ArtifactDigest)
    → Apart name_of w ws
    → All (IsHeld seen) ws
    → All (IsHeld (Dict.remove seen w.name)) ws
IsHeld-without seen w [] a h = tt
IsHeld-without seen w (x ∷ ws) a h =
    ((IsHeld-remove seen w.name x (a.0)).1 (h.0), IsHeld-without seen w ws (a.1) (h.1))

check_leaves-ok :
    (ws : List ArtifactDigest) (seen : Dict ArtifactDigest)
    → IsDistinct name_of ws
    → (all_ok (check_leaves seen ws).0 ≡ true) ↔ All (IsHeld seen) ws
unfolding check_leaves all_ok
check_leaves-ok [] seen d = (λ _. tt, λ _. refl)
check_leaves-ok (w ∷ ws) seen d =
    let rest = check_leaves-ok ws (Dict.remove seen w.name) (d.1) in
    let first = (check_leaf w (Dict.get seen w.name)).is_ok in
    let others = all_ok (check_leaves (Dict.remove seen w.name) ws).0 in
    (
      λ h.
          let (here_ok, rest_ok) = both first others h in
          (
            check_leaf-ok w (Dict.get seen w.name) here_ok,
            IsHeld-elsewhere seen w ws (d.0) (rest.0 rest_ok),
          ),
      λ (held, more).
          rw (check_leaf-held seen w held) (rest.1 (IsHeld-without seen w ws (d.0) more)),
    )

get-empty : (d : Dict ArtifactDigest) → ((n : String) → Dict.get d n ≡ none) → d ≡ []
unfolding Dict.get
get-empty [] h = refl
get-empty ((k, v) ∷ d) h = absurd (ground (arith, h k, eq_refl k))

-- A leaf of the given name.
abbrev pub IsListed : List ArtifactDigest → String → Type 0
IsListed ws n = (w : ArtifactDigest) × In w ws × (w.name ≡ n)

IsListed-tail :
    (w : ArtifactDigest) (ws : List ArtifactDigest) (n : String)
    → IsListed ws n
    → IsListed (w ∷ ws) n
IsListed-tail w ws n (x, m, e) = (x, there m, e)

not_first :
    (w : ArtifactDigest) (ws : List ArtifactDigest) (n : String)
    → str_eq w.name n ≡ false
    → (IsListed ws n → ⊥)
    → IsListed (w ∷ ws) n
    → ⊥
not_first w ws n f l (x, there m, e) = l (x, m, e)
not_first w ws n f l (x, here m, e) = str_eq-false w.name n f (ap name_of (sym m) ∙ e)

-- What is left once the leaves are checked.
check_leaves-left :
    (ws : List ArtifactDigest) (seen : Dict ArtifactDigest) (n : String)
    → ((Dict.get (check_leaves seen ws).1 n ≡ Dict.get seen n) × (IsListed ws n → ⊥))
      ⊎ ((Dict.get (check_leaves seen ws).1 n ≡ none) × IsListed ws n)
unfolding check_leaves
check_leaves-left [] seen n = inl (refl, λ (w, m, e). elim m [ ])
check_leaves-left (w ∷ ws) seen n =
    let rest = check_leaves-left ws (Dict.remove seen w.name) n in
    let removed = get-remove seen w.name n in
    elim (Bool-cases (str_eq w.name n)) [
      | inl e ↦ inr (
        elim rest [ inl (g, _) ↦ g ∙ (removed ∙ rw e refl) | inr (g, _) ↦ g ],
        (w, here refl, (eq_iff w.name n).0 e),
      )
      | inr f ↦ elim rest [
        | inl (g, l) ↦ inl (g ∙ (removed ∙ rw f refl), not_first w ws n f l)
        | inr (g, l) ↦ inr (g, IsListed-tail w ws n l)
      ]
    ]

all_ok-append : (xs ys : List ArtifactResult) → all_ok (xs ++ ys) ≡ all_ok xs && all_ok ys
unfolding all_ok
all_ok-append [] ys = refl
all_ok-append (x ∷ xs) ys = ground (arith, all_ok-append xs ys)

all_ok-unlisted : (d : Dict ArtifactDigest) → all_ok (unlisted d) ≡ true → d ≡ []
unfolding all_ok unlisted
all_ok-unlisted [] h = refl
all_ok-unlisted ((n, o) ∷ d) h = absurd (ground (arith, h))

module _ (sha256_hex : String → String) where
  -- A leaf stands among the observed artifacts, with its digest.
  abbrev pub IsAmong : List ArtifactDigest → ArtifactDigest → Type 0
  IsAmong observed want =
      (got : ArtifactDigest) × In got observed × (got.name ≡ want.name) × (got.sha256 ≡ want.sha256)

  -- Each leaf stands among the observed artifacts with its digest, each observed artifact is a leaf,
  -- and the observed artifacts have the root of the tree.
  abbrev pub IsIntact : IntegrityTree → List ArtifactDigest → Type 0
  IsIntact t observed =
      All (IsAmong observed) t.artifacts
      × All (λ (o : ArtifactDigest). IsListed t.artifacts o.name) observed
      × ((new_integrity_tree sha256_hex observed).root ≡ t.root)

  found :
      (observed : List ArtifactDigest) (want : ArtifactDigest)
      → IsHeld (seen_all [] observed) want
      → IsAmong observed want
  unfolding Dict.get
  found observed want (got, g, e) = elim (seen_all-from [] observed want.name got g) [
    | inl (m, n) ↦ (got, m, n, e)
    | inr nothing ↦ absurd (ground (arith, nothing))
  ]

  IsHeld-of :
      (observed : List ArtifactDigest) (want : ArtifactDigest)
      → IsDistinct name_of observed
      → IsAmong observed want
      → IsHeld (seen_all [] observed) want
  IsHeld-of observed want d (got, m, n, e) =
      (got, ap (Dict.get (seen_all [] observed)) (sym n) ∙ seen_all-hit [] observed got d m, e)

  -- Nothing is left exactly where each observed artifact is a leaf.
  nothing_left :
      (ws observed : List ArtifactDigest)
      → All (λ (o : ArtifactDigest). IsListed ws o.name) observed
      → (check_leaves (seen_all [] observed) ws).1 ≡ []
  unfolding Dict.get
  nothing_left ws observed listed =
      let seen = seen_all [] observed in
      get-empty (check_leaves seen ws).1 (λ n. elim (check_leaves-left ws seen n) [
        | inr (g, _) ↦ g
        | inl (g, unknown) ↦ elim (Option-cases (Dict.get seen n)) [
          | inl miss ↦ g ∙ miss
          | inr (o, hit) ↦ elim (seen_all-from [] observed n o hit) [
            | inr nothing ↦ absurd (ground (arith, nothing))
            | inl (m, e) ↦
                let (w, k, q) =
                  All-In (λ (x : ArtifactDigest). IsListed ws x.name) observed listed m in
                absurd (unknown (w, k, q ∙ e))
          ]
        ]
      ])

  All-IsListed :
      (ws observed : List ArtifactDigest)
      → IsDistinct name_of observed
      → (check_leaves (seen_all [] observed) ws).1 ≡ []
      → All (λ (o : ArtifactDigest). IsListed ws o.name) observed
  unfolding Dict.get
  All-IsListed ws observed d empty =
      let seen = seen_all [] observed in
      All-of (λ (o : ArtifactDigest). IsListed ws o.name) observed
        (λ o m. elim (check_leaves-left ws seen o.name) [
          | inr (_, l) ↦ l
          | inl (g, _) ↦ absurd (ground (arith, g, empty, seen_all-hit [] observed o d m))
        ])

  IsIntact-of :
      (t : IntegrityTree) (observed : List ArtifactDigest)
      → IsDistinct name_of t.artifacts
      → IsDistinct name_of observed
      → (verify sha256_hex t observed).is_ok ≡ true
      → IsIntact t observed
  unfolding verify
  IsIntact-of t observed d d' h =
      let seen = seen_all [] observed in
      let (results, root) = both _ _ h in
      let (checked, rest) =
        both _ _ (sym (all_ok-append (check_leaves seen t.artifacts).0 _) ∙ results) in
      let held = (check_leaves-ok t.artifacts seen d).0 checked in
      (
        All-map (IsHeld seen) (IsAmong observed) t.artifacts (found observed) held,
        All-IsListed t.artifacts observed d' (all_ok-unlisted _ rest),
        (eq_iff _ _).0 root,
      )

  IsIntact-ok :
      (t : IntegrityTree) (observed : List ArtifactDigest)
      → IsDistinct name_of t.artifacts
      → IsDistinct name_of observed
      → IsIntact t observed
      → (verify sha256_hex t observed).is_ok ≡ true
  unfolding verify
  IsIntact-ok t observed d d' (among, listed, root) =
      let seen = seen_all [] observed in
      let held =
        All-map (IsAmong observed) (IsHeld seen) t.artifacts (λ w. IsHeld-of observed w d') among in
      let checked = (check_leaves-ok t.artifacts seen d).1 held in
      let left = nothing_left t.artifacts observed listed in
      rw
        (
          all_ok-append (check_leaves seen t.artifacts).0
              (unlisted (check_leaves seen t.artifacts).1),
          checked,
          left,
        )
        ((eq_iff _ _).1 root)

  -- For a tree and observed artifacts with distinct names, Verify answers OK exactly where each leaf
  -- stands among the observed artifacts with its digest, each observed artifact is a leaf, and the
  -- observed artifacts have the tree's root.
  pub verify_iff :
      (t : IntegrityTree) (observed : List ArtifactDigest)
      → IsDistinct name_of t.artifacts
      → IsDistinct name_of observed
      → ((verify sha256_hex t observed).is_ok ≡ true) ↔ IsIntact t observed
  verify_iff t observed d d' = (IsIntact-of t observed d d', IsIntact-ok t observed d d')

  -- Artifacts with distinct names verify against the tree that was built over them.
  pub verify-new_integrity_tree :
      (artifacts : List ArtifactDigest)
      → IsDistinct name_of artifacts
      → (verify sha256_hex (new_integrity_tree sha256_hex artifacts) artifacts).is_ok ≡ true
  unfolding new_integrity_tree
  verify-new_integrity_tree artifacts d =
      IsIntact-ok (new_integrity_tree sha256_hex artifacts) artifacts
        (IsDistinct-sort_by name_of name_less artifacts d) d
        (
          All-sort_by name_less (IsAmong artifacts) artifacts
              (All-of (IsAmong artifacts) artifacts (λ a m. (a, m, refl, refl))),
          All-of (λ (o : ArtifactDigest). IsListed (sort_by name_less artifacts) o.name) artifacts
              (λ o m. (o, In-sort_by name_less m, refl)),
          refl,
        )
