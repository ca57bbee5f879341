-- ===== src/Blobs/Disk/Copied.antt =====
-- internal/engine/store/disk/disk.go: what the copy of `Put` writes when it ends without an error.
use portcloak.Base.{
  append_nil, append_assoc, ◌≡◌, refl, sym, ap, ◌∙◌, inl, inr, ℕ, Option, none, some, List, [], ◌∷◌,
  ◌++◌, length, Option-cases,
}
use portcloak.Resil.Errors.{GoError}
use portcloak.Blobs.Progress.{Progress, Callbacks, write}
use portcloak.Blobs.Disk.{write_both, copy}
use portcloak.Blobs.Disk.Resume.{DiskEnv, Sha, Writing, WriteFault}

-- The pieces, one after the other.
abbrev pub joined : List (List ℕ) → List ℕ
joined [] = []
joined (b ∷ bs) = b ++ joined bs

module _ {H : Type 0} (sha : Sha H) (env : DiskEnv) (ctx_err : Writing H → Option GoError)
    (fault : WriteFault) where
  pub told_both :
      (b : List ℕ) (s : Writing H)
      → (write_both sha env ctx_err fault b s).0.1 ≡ none
      → let ((n, e), s') = write_both sha env ctx_err fault b s in
        (n ≡ length b) × (s'.part ≡ s.part ++ b) × (s'.hash ≡ sha.absorb b s.hash)
  unfolding write_both
  told_both b s h = elim (Option-cases (fault (length s.part))) [
    | inl fine ↦ rw (fine, write_both) (refl, refl, refl)
    | inr ((n, e), short) ↦
        let left : (write_both sha env ctx_err fault b s).0.1 ≡ some e =
          rw (short, write_both) refl in
        cc
  ]

  abbrev below : List ℕ → Writing H → (ℕ × Option GoError) × Writing H
  below = write_both sha env ctx_err fault

  abbrev writing :
      Callbacks → List ℕ → Progress → Writing H → (ℕ × Option GoError) × Progress × Writing H
  writing set = write ctx_err below (λ x. sha.marshal x.hash) set

  pub passed :
      (set : Callbacks) (b : List ℕ) (p : Progress) (s : Writing H)
      → (writing set b p s).0.1 ≡ none
      → ((writing set b p s).0 ≡ (below b s).0) × ((writing set b p s).2 ≡ (below b s).1)
  unfolding write
  passed set b p s h = elim (Option-cases (ctx_err s)) [
    | inl alive ↦ rw (alive, write) (refl, refl)
    | inr (e, over) ↦ let left : (writing set b p s).0.1 ≡ some e = rw (over, write) refl in cc
  ]

  -- All that was read is in the file, behind what was there.
  abbrev pub IsCopied :
      List (List ℕ) → Option GoError → Writing H → Option GoError × Progress × Writing H → Type 0
  IsCopied bs last s (some e, p, s') = Unit {0}
  IsCopied bs last s (none, p, s') = (last ≡ none) × (s'.part ≡ s.part ++ joined bs)

  behind :
      (b : List ℕ) (bs : List (List ℕ)) (last : Option GoError) (s s' : Writing H)
      (end : Option GoError × Progress × Writing H)
      → s'.part ≡ s.part ++ b
      → IsCopied bs last s' end
      → IsCopied (b ∷ bs) last s end
  behind b bs last s s' (some e, p, t) grown c = tt
  behind b bs last s s' (none, p, t) grown (ended, all) =
      (ended, all ∙ ap (λ x. x ++ joined bs) grown ∙ append_assoc s.part b (joined bs))

  pub copy-IsCopied :
      (set : Callbacks) (bs : List (List ℕ)) (last : Option GoError) (p : Progress) (s : Writing H)
      → IsCopied bs last s (copy sha env ctx_err fault set bs last p s)
  unfolding copy
  copy-IsCopied set [] none p s = (refl, sym (append_nil s.part))
  copy-IsCopied set [] (some e) p s = tt
  copy-IsCopied set (b ∷ bs) last p s = elim (Option-cases (writing set b p s).0.1) [
    | inr (e, failed) ↦ rw (failed, copy) tt
    | inl taken ↦
        let (same, there) = passed set b p s taken in
        let (all, grown, absorbed) =
          told_both b s (ap (λ (x : ℕ × Option GoError). x.1) (sym same) ∙ taken) in
        rw (taken, copy)
          (behind b bs last s (writing set b p s).2 _ (ap (λ (x : Writing H). x.part) there ∙ grown)
            (copy-IsCopied set bs last (writing set b p s).1 (writing set b p s).2))
  ]
