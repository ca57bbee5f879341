-- ===== src/Resil/Errors.antt =====
-- internal/engine/resil/errors.go: the operator-facing error, and which errors are worth another
-- attempt. An `error` value is a chain: `errors.Is` and `errors.As` walk it from the outside in.
pub mod Laws
use portcloak.Base.{
  ℕ, Bool, true, false, ◌&&◌, ◌||◌, not, Option, none, some, List, [], ◌∷◌, String, leb, ◌==◌,
  str_eq, if◌then◌else◌, concat, contains_fold, any, is_some,
}

pub data Class : Type 0 where
  retryable terminal : Class

-- The errors of the standard library that `ClassifyNetwork` compares with, by identity.
pub data Sentinel : Type 0 where
  unexpected_eof : Sentinel
  econnreset econnrefused econnaborted epipe etimedout ehostunreach enetunreach enetdown : Sentinel

pub record Dns : Type 0 where
  pub is_temporary : Bool
  pub is_timeout : Bool

-- What an error of another package shows to this one: its text, the sentinel that it is, what its
-- `Timeout()` says where it is a `net.Error`, and its flags where it is a `*net.DNSError`.
pub record Foreign : Type 0 where
  pub text : String
  pub sentinel : Option Sentinel
  pub timeout : Option Bool
  pub dns : Option Dns

-- The fields of `Error` but its cause.
pub record Typed : Type 0 where
  pub op : String
  pub message : String
  pub advice : String
  pub endpoint : String
  pub class : Class

-- `typed` is an `*Error` with no cause and `typed_by` one with a cause; `wrapped` is any other error
-- that unwraps to the one inside it.
pub data GoError : Type 0 where
  canceled deadline_exceeded : GoError
  foreign : Foreign → GoError
  wrapped : Foreign → GoError → GoError
  typed : Typed → GoError
  typed_by : Typed → GoError → GoError

-- `Error()` of a chain; the method of `*Error` prefers the message to the cause.
unfoldable pub error_text : GoError → String
error_text canceled = "context canceled"
error_text deadline_exceeded = "context deadline exceeded"
error_text (foreign f) = f.text
error_text (wrapped f e) = f.text
error_text (typed t) = if str_eq t.message "" then t.op else t.message
error_text (typed_by t e) =
    if str_eq t.message "" then concat (t.op ∷ ": " ∷ error_text e ∷ []) else t.message

-- `Retry` and `Fatal`; a nil cause is `none`.
unfoldable pub with_cause : Typed → Option GoError → GoError
with_cause t none = typed t
with_cause t (some e) = typed_by t e

unfoldable pub retry : String → String → Option GoError → GoError
unfolding with_cause
retry op message cause =
    with_cause
      (record { op = op; message = message; advice = ""; endpoint = ""; class = retryable }) cause

unfoldable pub fatal : String → String → Option GoError → GoError
unfolding with_cause
fatal op message cause =
    with_cause (record { op = op; message = message; advice = ""; endpoint = ""; class = terminal })
      cause

-- `WithAdvice` and `WithEndpoint` are methods of `*Error`; no other error has them.
unfoldable pub with_advice : String → GoError → GoError
with_advice a (typed t) = typed (record t { advice = a })
with_advice a (typed_by t e) = typed_by (record t { advice = a }) e
with_advice a other = other

unfoldable pub with_endpoint : String → GoError → GoError
with_endpoint p (typed t) = typed (record t { endpoint = p })
with_endpoint p (typed_by t e) = typed_by (record t { endpoint = p }) e
with_endpoint p other = other

-- `errors.Is(err, context.Canceled) || errors.Is(err, context.DeadlineExceeded)`
abbrev pub is_context : GoError → Bool
is_context canceled = true
is_context deadline_exceeded = true
is_context (foreign f) = false
is_context (wrapped f e) = is_context e
is_context (typed t) = false
is_context (typed_by t e) = is_context e

-- `errors.As(err, &e)` for an `*Error`: the outermost one, with what it wraps.
abbrev pub as_typed : GoError → Option GoError
as_typed canceled = none
as_typed deadline_exceeded = none
as_typed (foreign f) = none
as_typed (wrapped f e) = as_typed e
as_typed (typed t) = some (typed t)
as_typed (typed_by t e) = some (typed_by t e)

abbrev pub fields_of : GoError → Option Typed
fields_of (typed t) = some t
fields_of (typed_by t e) = some t
fields_of (wrapped f e) = fields_of e
fields_of other = none

abbrev pub is_class_retryable : Class → Bool
is_class_retryable retryable = true
is_class_retryable terminal = false

class_of : Option Typed → Bool
class_of none = false
class_of (some t) = is_class_retryable t.class

-- `IsRetryable`; nil is `none`.
unfoldable pub is_retryable : Option GoError → Bool
unfolding class_of
is_retryable none = false
is_retryable (some e) = if is_context e then false else class_of (fields_of e)

unfoldable pub hint : GoError → String
hint e = elim (fields_of e) [ none ↦ "" | some t ↦ t.advice ]

unfoldable pub endpoint : GoError → String
endpoint e = elim (fields_of e) [ none ↦ "" | some t ↦ t.endpoint ]

-- `errors.Is` against the nine transport sentinels.
abbrev pub has_sentinel : GoError → Bool
has_sentinel (foreign f) = is_some f.sentinel
has_sentinel (wrapped f e) = is_some f.sentinel || has_sentinel e
has_sentinel (typed_by t e) = has_sentinel e
has_sentinel other = false

-- `errors.As` for a `net.Error`: the outermost one decides. The context's deadline error is one too.
net_timeout : GoError → Bool
net_timeout canceled = false
net_timeout deadline_exceeded = true
net_timeout (foreign f) = elim f.timeout [ none ↦ false | some b ↦ b ]
net_timeout (wrapped f e) = let rest = net_timeout e in elim f.timeout [ none ↦ rest | some b ↦ b ]
net_timeout (typed t) = false
net_timeout (typed_by t e) = net_timeout e

as_dns : GoError → Option Dns
as_dns (foreign f) = f.dns
as_dns (wrapped f e) = let rest = as_dns e in elim f.dns [ none ↦ rest | some d ↦ some d ]
as_dns (typed_by t e) = as_dns e
as_dns other = none

abbrev transport_phrases : List String
transport_phrases =
    "connection reset" ∷ "connection refused" ∷ "broken pipe" ∷ "i/o timeout" ∷ "unexpected eof"
    ∷ "use of closed network connection" ∷ "no route to host" ∷ "tls handshake timeout"
    ∷ "server misbehaving" ∷ "temporary failure" ∷ "network is unreachable" ∷ "operation timed out"
    ∷ "eof" ∷ []

class_by_text : String → Class
class_by_text s = if any (contains_fold s) transport_phrases then retryable else terminal

class_by_dns : Option Dns → String → Class
unfolding class_by_text
class_by_dns (some d) s = if d.is_temporary || d.is_timeout then retryable else terminal
class_by_dns none s = class_by_text s

-- `ClassifyNetwork`
unfoldable pub classify_network : Option GoError → Class
unfolding net_timeout as_dns class_by_dns error_text
classify_network none = terminal
classify_network (some e) =
    if is_context e
    then terminal
    else if has_sentinel e
    then retryable
    else if net_timeout e
    then retryable
    else class_by_dns (as_dns e) (error_text e)

-- `ClassifyHTTPStatus`
unfoldable pub classify_http_status : ℕ → Class
classify_http_status code =
    if code == 408 || code == 425 || code == 429
    then retryable
    else if leb 500 code && not (code == 501)
    then retryable
    else terminal
