-- ===== src/Blobs/Disk/Sources.antt =====
-- internal/engine/store/disk/disk.go: where the source of a `Put` is read from.
use portcloak.Base.{
  ◌≡◌, refl, sym, ◌∙◌, ◌⊎◌, inl, inr, ℕ, true, false, none, some, String, ltb, ◌==◌, arith,
  Bool-cases, Option-cases, subst, subst⁻¹, subst⁻¹,
}
use portcloak.Base.Result.{ok, ok-inj}
use portcloak.Resil.Errors.{GoError}
use portcloak.Blobs.Disk.Resume.{DiskEnv, Source, plain, seek_to, positioned, rewound}

-- The source, read from `n`, or where nothing is kept from where it stands.
abbrev pub IsMoved : Source → ℕ → Source → Type 0
IsMoved r n r' = (r'.reads ≡ r.reads) × ((r'.position ≡ n) ⊎ ((n ≡ 0) × (r'.position ≡ r.position)))

seek_to_cases :
    (r : Source) (n : ℕ)
    → ((r' : Source) × (seek_to r n ≡ (none, r')) × IsMoved r n r')
      ⊎ ((e : GoError) × (seek_to r n ≡ (some e, r)))
unfolding seek_to
seek_to_cases r n = elim (Bool-cases r.can_seek) [
  | inr fixed ↦ elim (Bool-cases (n == 0)) [
    | inl start ↦
        inl (r, rw (fixed, start, seek_to) refl, (refl, inr (ground (arith, start), refl)))
    | inr on ↦ inr (plain "this source cannot be repositioned", ground (arith, fixed, on))
  ]
  | inl seeks ↦ elim (Option-cases (r.refuses n)) [
    | inl fine ↦ inl (record r { position = n }, ground (arith, seeks, fine), (refl, inl refl))
    | inr (e, refused) ↦ inr (e, ground (arith, seeks, refused))
  ]
]

positioned_there :
    (env : DiskEnv) (r r' : Source) (n : ℕ)
    → (n == 0) ≡ false
    → seek_to r n ≡ (none, r')
    → positioned env r n ≡ (n, r')
unfolding positioned
positioned_there env r r' n on q = ground (arith, on, q)

positioned_back :
    (env : DiskEnv) (r : Source) (n : ℕ) (e : GoError)
    → (n == 0) ≡ false
    → seek_to r n ≡ (some e, r)
    → positioned env r n ≡ (0, r)
unfolding positioned
positioned_back env r n e on q = ground (arith, on, q)

positioned_start :
    (env : DiskEnv) (r : Source) (n : ℕ) → (n == 0) ≡ true → positioned env r n ≡ (0, r)
unfolding positioned
positioned_start env r n start = rw start refl

positioned-IsMoved :
    (env : DiskEnv) (r : Source) (n : ℕ) → IsMoved r (positioned env r n).0 (positioned env r n).1
positioned-IsMoved env r n = elim (Bool-cases (n == 0)) [
  | inl start ↦
      subst⁻¹ (λ (x : ℕ × Source). IsMoved r x.0 x.1) (positioned_start env r n start)
        (refl, inr (refl, refl))
  | inr on ↦ elim (seek_to_cases r n) [
    | inl (r', q, moved) ↦
        subst⁻¹ (λ (x : ℕ × Source). IsMoved r x.0 x.1) (positioned_there env r r' n on q) moved
    | inr (e, q) ↦
        subst⁻¹ (λ (x : ℕ × Source). IsMoved r x.0 x.1) (positioned_back env r n e on q)
          (refl, inr (refl, refl))
  ]
]

IsMoved-trans :
    (r r₁ r₂ : Source) (n : ℕ) → n ≡ 0 → IsMoved r n r₁ → IsMoved r₁ 0 r₂ → IsMoved r n r₂
IsMoved-trans r r₁ r₂ n start (same, inl at) (same', inr (z, stays)) =
    (same' ∙ same, inl (stays ∙ at))
IsMoved-trans r r₁ r₂ n start (same, inr (y, at)) (same', inr (z, stays)) =
    (same' ∙ same, inr (start, stays ∙ at))
IsMoved-trans r r₁ r₂ n start (same, at) (same', inl back) = (same' ∙ same, inl (back ∙ sym start))

rewound_back :
    (env : DiskEnv) (key : String) (r r' : Source) (offset n : ℕ)
    → (n == 0) ≡ true
    → seek_to r 0 ≡ (none, r')
    → rewound env key r offset n ≡ ok r'
unfolding rewound
rewound_back env key r r' offset n start q = ground (arith, start, q)

rewound_stays :
    (env : DiskEnv) (key : String) (r r' : Source) (offset n : ℕ) (e : GoError)
    → (n == 0) ≡ true
    → seek_to r 0 ≡ (some e, r)
    → rewound env key r offset n ≡ ok r'
    → r ≡ r'
unfolding rewound
rewound_stays env key r r' offset n e start q h = elim (Bool-cases (ltb 0 offset)) [
  | inl resumes ↦ ground (arith, start, q, h, resumes)
  | inr fresh ↦ ground (arith, start, q, h, fresh)
]

rewound_on :
    (env : DiskEnv) (key : String) (r r' : Source) (offset n : ℕ)
    → (n == 0) ≡ false
    → rewound env key r offset n ≡ ok r'
    → r ≡ r'
unfolding rewound
rewound_on env key r r' offset n on h = ground (arith, on, h)

rewound-IsMoved :
    (env : DiskEnv) (key : String) (r r₁ r' : Source) (offset n : ℕ)
    → IsMoved r n r₁
    → rewound env key r₁ offset n ≡ ok r'
    → IsMoved r n r'
rewound-IsMoved env key r r₁ r' offset n moved h = elim (Bool-cases (n == 0)) [
  | inr on ↦ subst (IsMoved r n) (rewound_on env key r₁ r' offset n on h) moved
  | inl start ↦ elim (seek_to_cases r₁ 0) [
    | inl (r₂, q, again) ↦
        subst (IsMoved r n) (ok-inj (sym (rewound_back env key r₁ r₂ offset n start q) ∙ h))
          (IsMoved-trans r r₁ r₂ n (ground (arith, start)) moved again)
    | inr (e, q) ↦ subst (IsMoved r n) (rewound_stays env key r₁ r' offset n e start q h) moved
  ]
]

-- The source that `Put` copies from.
pub source-IsMoved :
    (env : DiskEnv) (key : String) (r r' : Source) (offset n : ℕ)
    → rewound env key (positioned env r n).1 offset (positioned env r n).0 ≡ ok r'
    → IsMoved r (positioned env r n).0 r'
source-IsMoved env key r r' offset n h =
    rewound-IsMoved env key r (positioned env r n).1 r' offset (positioned env r n).0
      (positioned-IsMoved env r n) h
