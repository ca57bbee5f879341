-- ===== src/Orchestrator/Request/Checks.antt =====
-- internal/engine/orchestrator/capture.go: what a request has passed once its jobs are queued.
use portcloak.Base.{
  subst, ◌/◌, ◌≡◌, refl, sym, ap, ◌∙◌, ◌⊎◌, inl, inr, ℕ, suc, ◌≤◌, Bool, true, false, not, ◌&&◌,
  ◌||◌, none, some, List, [], ◌∷◌, String, str_eq, is_blank, trim_space, map, All, arith,
  Bool-cases, Option-cases, if◌then◌else◌,
}
use portcloak.Base.Int.{pos}
use portcloak.Base.Result.{Result, ok, err, ok-inj, Result-cases}
use portcloak.Config.Files.{Faults}
use portcloak.Config.Jobs.{Job, queued}
use portcloak.Config.Jobs.Store.{Codec}
use portcloak.Config.Model.{Config, Environment, Storage, environment_by_name, storage_by_name}
use portcloak.Crypto.{
  Encryption, no_recipients, mode_passphrase, mode_recipients, first_refused, validate_encryption,
}
use portcloak.Kc.{clamp_users_per_file}
use portcloak.Snapshot.Ids.{new_id}
use portcloak.Orchestrator.{World, save_job}
use portcloak.Orchestrator.Request.{
  CaptureRequest, Batch, RequestError, encryption_required, encryption_refused, no_realm,
  capture_job, settled, queue_all, ids_of, queue_batch, check_request, queue_capture,
}

-- Each of the texts is a public key, but for the white space at its ends.
abbrev all_keys : (String → Bool) → List String → Bool
all_keys is_public_key [] = true
all_keys is_public_key (r ∷ rs) = is_public_key (trim_space r) && all_keys is_public_key rs

abbrev is_empty : List String → Bool
is_empty [] = true
is_empty (r ∷ rs) = false

-- Somebody can open what is encrypted with these settings.
abbrev pub can_open : (String → Bool) → Encryption → Bool
can_open is_public_key c =
    not c.enabled
    || (str_eq c.mode mode_passphrase && not (is_blank c.passphrase))
    || (str_eq c.mode mode_recipients
        && (not (is_empty c.recipients) && all_keys is_public_key c.recipients))

module _ (is_public_key : String → Bool) where
  first_refused-none :
      (rs : List String) → first_refused is_public_key rs ≡ none → all_keys is_public_key rs ≡ true
  unfolding first_refused
  first_refused-none [] h = refl
  first_refused-none (r ∷ rs) h = elim (Bool-cases (is_public_key (trim_space r))) [
    | inl good ↦ rw good (first_refused-none rs (ground (arith, h, good)))
    | inr bad ↦ absurd (ground (arith, h, bad))
  ]

  opened_by_keys :
      (rs : List String)
      → elim rs [ [] ↦ some no_recipients | r ∷ more ↦ first_refused is_public_key (r ∷ more) ]
        ≡ none
      → not (is_empty rs) && all_keys is_public_key rs ≡ true
  opened_by_keys [] h = absurd (ground (arith, h))
  opened_by_keys (r ∷ rs) h = first_refused-none (r ∷ rs) h

  passed-can_open :
      (c : Encryption)
      → validate_encryption is_public_key c ≡ none
      → can_open is_public_key c ≡ true
  unfolding validate_encryption
  passed-can_open c h = elim (Bool-cases c.enabled) [
    | inr off ↦ rw off refl
    | inl on ↦ elim (Bool-cases (str_eq c.mode mode_passphrase)) [
      | inl secret ↦ ground (arith, h, on, secret)
      | inr other ↦ elim (Bool-cases (str_eq c.mode mode_recipients)) [
        | inr neither ↦ absurd (ground (arith, h, on, other, neither))
        | inl keys ↦
            let listed = opened_by_keys c.recipients (ground (arith, h, on, other, keys)) in
            ground (arith, keys, listed)
      ]
    ]
  ]

-- A job as it waits for its batch.
abbrev pub IsQueuedFor : Environment → Storage → Encryption → Job → Type 0
IsQueuedFor env st enc j =
    (j.state ≡ queued)
    × (j.encrypted ≡ enc.enabled)
    × (j.environment ≡ env.name)
    × (j.storage ≡ st.name)

module _ (is_public_key : String → Bool) (cfg : Config) (req : CaptureRequest) where
  -- What `Capture` has checked.
  abbrev pub IsChecked : Environment → Storage → Type 0
  IsChecked env st =
      (environment_by_name cfg req.environment ≡ some env)
      × (storage_by_name cfg req.storage ≡ some st)
      × (not st.encryption_required || req.encryption.enabled ≡ true)
      × (can_open is_public_key req.encryption ≡ true)
      × (is_empty req.realms ≡ false)

  -- The check of the encryption, which comes last.
  abbrev check_encryption : Environment → Storage → Result RequestError (Environment × Storage)
  check_encryption env st =
      if st.encryption_required && not req.encryption.enabled
      then err (encryption_required st.name)
      else elim (validate_encryption is_public_key req.encryption) [
        | some e ↦ err (encryption_refused e)
        | none ↦ ok (env, st)
      ]

  abbrev check_realms :
      List String
      → Result RequestError (Environment × Storage)
      → Result RequestError (Environment × Storage)
  check_realms rs next = elim rs [ [] ↦ err no_realm | r ∷ more ↦ next ]

  check_realms-ok :
      (rs : List String) (next : Result RequestError (Environment × Storage))
      (p : Environment × Storage)
      → check_realms rs next ≡ ok p
      → (is_empty rs ≡ false) × (next ≡ ok p)
  check_realms-ok [] next p h = absurd (ground (arith, h))
  check_realms-ok (r ∷ rs) next p h = (refl, h)

  check_encryption-ok :
      (env : Environment) (st : Storage) (p : Environment × Storage)
      → check_encryption env st ≡ ok p
      → ((env, st) ≡ p)
        × (not st.encryption_required || req.encryption.enabled ≡ true)
        × (validate_encryption is_public_key req.encryption ≡ none)
  check_encryption-ok env st p h =
      elim (Bool-cases (st.encryption_required && not req.encryption.enabled)) [
        | inl barred ↦ absurd (ground (arith, h, barred))
        | inr free ↦ elim (Option-cases (validate_encryption is_public_key req.encryption)) [
          | inr (e, bad) ↦ absurd (ground (arith, h, free, bad))
          | inl good ↦ (
            ok-inj {E = RequestError} (ground (arith, h, free, good)),
            ground (arith, free),
            good,
          )
        ]
      ]

  check_request-step :
      (env : Environment) (st : Storage)
      → environment_by_name cfg req.environment ≡ some env
      → storage_by_name cfg req.storage ≡ some st
      → check_request is_public_key cfg req ≡ check_realms req.realms (check_encryption env st)
  unfolding check_request
  check_request-step env st e s = rw (e, s, check_request) refl

  check_request-IsChecked :
      (env : Environment) (st : Storage)
      → check_request is_public_key cfg req ≡ ok (env, st)
      → IsChecked env st
  unfolding check_request
  check_request-IsChecked env st h = elim (Option-cases (environment_by_name cfg req.environment)) [
    | inl nowhere ↦ absurd (ground (arith, h, nowhere))
    | inr (env', e) ↦ elim (Option-cases (storage_by_name cfg req.storage)) [
      | inl nowhere ↦ absurd (ground (arith, h, e, nowhere))
      | inr (st', s) ↦
          let (some_realm, rest) =
            check_realms-ok req.realms (check_encryption env' st') (env, st)
              (sym (check_request-step env' st' e s) ∙ h) in
          let (same, allowed, valid) = check_encryption-ok env' st' (env, st) rest in
          let same_env : env' ≡ env = ap (λ (p : Environment × Storage). p.0) same in
          let same_st : st' ≡ st = ap (λ (p : Environment × Storage). p.1) same in
          (
            e ∙ ap some same_env,
            s ∙ ap some same_st,
            subst (λ (x : Storage). not x.encryption_required || req.encryption.enabled ≡ true)
                same_st allowed,
            passed-can_open is_public_key req.encryption valid,
            some_realm,
          )
    ]
  ]

  settled-bounds : (n : ℕ) × ((settled cfg req).users_per_file ≡ pos n) × (10 ≤ n) × (n ≤ 1000)
  unfolding settled clamp_users_per_file
  settled-bounds = (_, refl, ground arith, ground arith)

module _ {S Bytes : Type 0} (codec : Codec Bytes) (fs : Faults) (now : ℕ)
    (is_public_key : String → Bool) (random : ℕ → List ℕ) (cfg : Config)
    (req : CaptureRequest) where
  queue_all-IsQueuedFor :
      (env : Environment) (st : Storage) (ids : ℕ → String) (n : ℕ) (rs : List String)
      (w : World S Bytes)
      → let job_of : ℕ → String → Job = λ k r. capture_job now env st req.encryption (ids k) r in
        let js = (queue_all codec fs now is_public_key random job_of n rs w).0 in
        (map (λ (j : Job). j.realm) js ≡ rs)
        × (map (λ (j : Job). j.id) js ≡ ids_of js)
        × All (IsQueuedFor env st req.encryption) js
  unfolding queue_all save_job capture_job ids_of
  queue_all-IsQueuedFor env st ids n [] w = (refl, refl, tt)
  queue_all-IsQueuedFor env st ids n (r ∷ rs) w =
      let (a, b, c) = queue_all-IsQueuedFor env st ids (suc n) rs _ in
      (ap (λ rs. r ∷ rs) a, ap (λ is. ids n ∷ is) b, ((refl, refl, refl, refl), c))

  -- A request is refused and nothing changes, or it has passed the checks: its environment and storage are
  -- configured, a realm is named, the encryption is on where the storage requires it, and somebody can
  -- open what it writes. Then a job is queued for each realm, in order and under the identifiers of
  -- the handle, and the page size is in its range.
  pub queue_capture_lem :
      (w : World S Bytes)
      → let (res, w') = queue_capture codec fs now is_public_key random cfg req w in
        ((e : RequestError) × (res ≡ err e) × (w' ≡ w))
        ⊎ ((b : Batch) × (res ≡ ok b)
            × IsChecked is_public_key cfg req b.environment b.storage
            × (map (λ (j : Job). j.realm) b.jobs ≡ req.realms)
            × (map (λ (j : Job). j.id) b.jobs ≡ b.handle.job_ids)
            × All (IsQueuedFor b.environment b.storage req.encryption) b.jobs
            × ((n : ℕ) × (b.request.users_per_file ≡ pos n) × (10 ≤ n) × (n ≤ 1000)))
  unfolding queue_capture queue_batch
  queue_capture_lem w = elim (Result-cases (check_request is_public_key cfg req)) [
    | inr (e, refused) ↦ inl (e, rw (refused, queue_capture) refl, rw (refused, queue_capture) refl)
    | inl ((env, st), passed) ↦
        let ids : ℕ → String = λ n. new_id (now / 1000000) (random n) in
        let (realms, named, waiting) = queue_all-IsQueuedFor env st ids 0 req.realms w in
        inr (
          (queue_batch codec fs now is_public_key random cfg req env st w).0,
          rw (passed, queue_capture) refl,
          check_request-IsChecked is_public_key cfg req env st passed,
          realms,
          named,
          waiting,
          settled-bounds is_public_key cfg req,
        )
  ]
