-- ===== src/Resil/Errors/Laws.antt =====
-- internal/engine/resil/errors.go: the classification of a chain of errors.
use portcloak.Base.{◌≡◌, true, false, some, List, [], ◌∷◌, arith}
use portcloak.Resil.Errors.{
  GoError, Foreign, Typed, terminal, wrapped, typed_by, is_context, is_retryable, classify_network,
}

-- One more error around a chain: another package's, or an `*Error` with the chain for its cause.
pub data Layer : Type 0 where
  by_wrap : Foreign → Layer
  by_error : Typed → Layer

abbrev pub wrap_in : List Layer → GoError → GoError
wrap_in [] e = e
wrap_in (by_wrap f ∷ ls) e = wrapped f (wrap_in ls e)
wrap_in (by_error t ∷ ls) e = typed_by t (wrap_in ls e)

is_context-wrap_in :
    (ls : List Layer) (e : GoError) → is_context e ≡ true → is_context (wrap_in ls e) ≡ true
is_context-wrap_in [] e h = h
is_context-wrap_in (by_wrap f ∷ ls) e h = is_context-wrap_in ls e h
is_context-wrap_in (by_error t ∷ ls) e h = is_context-wrap_in ls e h

-- However many errors stand around a cancelled or expired context, of whatever class, the chain
-- is not retryable, and `ClassifyNetwork` calls it terminal.
context_never_retried :
    (ls : List Layer) (e : GoError)
    → is_context e ≡ true
    → (is_retryable (some (wrap_in ls e)) ≡ false)
      × (classify_network (some (wrap_in ls e)) ≡ terminal)
unfolding is_retryable classify_network
context_never_retried ls e h = let c = is_context-wrap_in ls e h in (ground arith, ground arith)
