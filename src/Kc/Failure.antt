-- ===== src/Kc/Failure.antt =====
-- internal/engine/kc/kc.go: what a failed run of kc.sh means.
-- The sentence and its advice are a value, `Reason`, which holds what is put into them; the third
-- result of `ClassifyFailure`, whether another try may help, is kept beside it. The parsing of the
-- streams into an `Outcome` rests on regular expressions.
use portcloak.Base.{
  ◌≡◌, ◌⊎◌, Bool, true, false, not, ◌&&◌, ◌||◌, List, [], ◌∷◌, String, str_eq, any, concat,
  contains, contains_fold, if◌then◌else◌, arith,
}
use portcloak.Base.Int.{ℤ}

pub record Outcome : Type 0 where
  pub exit_code : ℤ
  pub warnings : List String
  pub errors : List String
  pub bind_conflict : Bool
  pub transaction_timeout : Bool
  pub rejected_option : String
  pub rejected_command : String

pub data Reason : Type 0 where
  option_rejected : String → String → Reason
  ports_taken transaction_too_long : Reason
  no_such_realm : String → Reason
  disk_full database_unreachable permission_refused option_unknown : Reason
  reported : String → Reason
  exited : ℤ → Reason

looks_like_bind_conflict : String → Bool
unfolding contains
looks_like_bind_conflict s = any (contains s) (
    "Address already in use" ∷ "address already in use" ∷ "java.net.BindException"
    ∷ "Unable to start HTTP server" ∷ "Port already bound" ∷ [])

looks_like_transaction_timeout : String → Bool
unfolding contains_fold
looks_like_transaction_timeout s =
    any (contains_fold s) (
      "transaction was rolled back" ∷ "transaction timeout" ∷ "transactionreaper" ∷ "arjuna012"
      ∷ [])

-- `strings.Join(parts, " ")`
spaced : List String → String
spaced [] = ""
spaced (s ∷ []) = s
spaced (s ∷ t ∷ more) = concat (s ∷ " " ∷ spaced (t ∷ more) ∷ [])

-- The text that the phrases are looked for in.
unfoldable pub joined_errors : Outcome → String → String
unfolding spaced
joined_errors o stderr = concat (stderr ∷ " " ∷ spaced o.errors ∷ [])

last_resort : Outcome → Reason × Bool
last_resort o = elim o.errors [ [] ↦ (exited o.exit_code, false) | e ∷ more ↦ (reported e, false) ]

-- `ClassifyFailure`
unfoldable pub classify_failure : String → Outcome → String → Reason × Bool
unfolding joined_errors contains_fold last_resort
classify_failure realm o stderr =
    let text = joined_errors o stderr in
    if not (str_eq o.rejected_option "")
    then (option_rejected o.rejected_command o.rejected_option, false)
    else if o.bind_conflict
    then (ports_taken, true)
    else if o.transaction_timeout
    then (transaction_too_long, false)
    else if contains_fold text "realm" && contains_fold text "not found"
    then (no_such_realm realm, false)
    else if contains_fold text "no space left"
    then (disk_full, false)
    else if contains_fold text "connection" && contains_fold text "refused"
    then (database_unreachable, true)
    else if contains_fold text "access denied" || contains_fold text "permission denied"
    then (permission_refused, false)
    else if contains_fold text "unrecognized option" || contains_fold text "unknown option"
    then (option_unknown, false)
    else last_resort o

-- Another try is offered only for ports that were taken and for a database out of reach: the option
-- was not rejected, and there is a bind conflict, or there is neither that nor a transaction that ran
-- out of time and the output speaks of a refused connection.
pub retryable_failure :
    (realm : String) (o : Outcome) (stderr : String)
    → (classify_failure realm o stderr).1 ≡ true
    → (str_eq o.rejected_option "" ≡ true)
      × (((o.bind_conflict ≡ true) × ((classify_failure realm o stderr).0 ≡ ports_taken))
          ⊎ ((o.transaction_timeout ≡ false)
              × (contains_fold (joined_errors o stderr) "connection" ≡ true)
              × (contains_fold (joined_errors o stderr) "refused" ≡ true)
              × ((classify_failure realm o stderr).0 ≡ database_unreachable)))
unfolding classify_failure last_resort
retryable_failure realm o stderr h = ground arith
