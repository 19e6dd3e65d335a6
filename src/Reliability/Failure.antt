-- ===== src/Reliability/Failure.antt =====
-- `is_retryable_exception` and `safe_failure_from_exception` of reliability.py. The class tests of an
-- exception are its answers to `isinstance`, since most of the classes are httpx's.
use wikipedia_rag.Common.{
  ℕ, max, String, Bool, true, false, ◌||◌, Option, none, some, ◌≡◌, ◌≤◌, ◌⊎◌, inl, inr, refl, ◌==◌,
  nat_eq, if◌then◌else◌, Bool-cases, arith,
}
use wikipedia_rag.Common.Int.{ℤ, pos_part}
use wikipedia_rag.Common.Text.{is_empty}
use wikipedia_rag.Reliability.Deadline.{Deadline, remaining_ms}

pub data ExceptionClass : Type 0 where
  deadline_exceeded circuit_open cancelled_error value_error permission_error : ExceptionClass
  timeout_error connect_error connect_timeout read_timeout read_error pool_timeout : ExceptionClass
  http_status_error timeout_exception network_error : ExceptionClass

-- `response_status` is read of an HTTPStatusError only; `status_code` is the attribute, if it is an int.
pub record Raised : Type 0 where
  pub is_a : ExceptionClass → Bool
  pub response_status : ℕ
  pub status_code : Option ℕ

-- The attributes that are there and have the type that the code asks for.
pub record Failing : Type 0 where
  pub raised : Raised
  pub safe_code : Option String
  pub code : Option String
  pub metadata_code : Option String
  pub retryable : Option Bool
  pub cause : Option Raised

pub record SafeFailure : Type 0 where
  pub error_code : String
  pub stage : String
  pub retryable : Bool
  pub attempt : ℕ
  pub request_id : String
  pub operation_id : String
  pub deadline_remaining_ms : Option ℕ

-- `status in {429, 502, 503, 504}`
unfoldable pub is_transient_status : ℕ → Bool
is_transient_status n = n == 429 || n == 502 || n == 503 || n == 504

unfoldable pub is_retryable_exception : Raised → Bool
is_retryable_exception e =
    if e.is_a deadline_exceeded
      || e.is_a cancelled_error
      || e.is_a value_error
      || e.is_a permission_error
    then false
    else if e.is_a timeout_error
    then true
    else if e.is_a connect_error
        || e.is_a connect_timeout
        || e.is_a read_timeout
        || e.is_a read_error
        || e.is_a pool_timeout
    then true
    else if e.is_a http_status_error
    then is_transient_status e.response_status
    else elim e.status_code [ none ↦ false | some n ↦ is_transient_status n ]

-- The code that the class alone gives.
unfoldable pub class_code : Raised → String
class_code e =
    if e.is_a circuit_open
    then "DEPENDENCY_CIRCUIT_OPEN"
    else if e.is_a deadline_exceeded
    then "DEPENDENCY_TIMEOUT"
    else if e.is_a cancelled_error
    then "CANCELLED"
    else if e.is_a timeout_exception
    then "DEPENDENCY_TIMEOUT"
    else if e.is_a timeout_error
    then "DEPENDENCY_TIMEOUT"
    else if e.is_a network_error
    then "DEPENDENCY_UNAVAILABLE"
    else if e.is_a http_status_error
    then (if is_transient_status e.response_status
        then "DEPENDENCY_UNAVAILABLE"
        else "INTERNAL_ERROR")
    else "INTERNAL_ERROR"

-- `isinstance(value, str) and value`, or the next choice.
unfoldable pub or_code : Option String → String → String
or_code none next = next
or_code (some s) next = if is_empty s then next else s

unfoldable pub safe_error_code : Failing → String
safe_error_code f =
    or_code f.safe_code (or_code f.code (or_code f.metadata_code (class_code f.raised)))

unfoldable pub safe_retryable : Failing → Bool
safe_retryable f = elim f.retryable [
  | some explicit ↦ explicit
  | none ↦ elim f.cause [
    | some cause ↦ is_retryable_exception cause
    | none ↦ is_retryable_exception f.raised
  ]
]

-- `attempt` is signed; `now` is the clock that `remaining_ms` reads.
unfoldable pub safe_failure_from_exception :
    Failing → String → ℤ → String → String → Option Deadline → ℕ → SafeFailure
safe_failure_from_exception f stage attempt request_id operation_id deadline now = record {
  error_code = safe_error_code f;
  stage = stage;
  retryable = safe_retryable f;
  attempt = max 1 (pos_part attempt);
  request_id = request_id;
  operation_id = operation_id;
  deadline_remaining_ms = elim deadline [ none ↦ none | some d ↦ some (remaining_ms d now) ];
}

-- Without an explicit `retryable`, a failure whose cause (or, with no cause, the exception itself) is
-- an exhausted deadline, a cancellation, a bad value or a missing permission is never reported as
-- retryable, whatever else it is.
pub safe_failure_retryable :
    (f : Failing) (e : Raised) (stage : String) (attempt : ℤ) (request operation : String)
    (deadline : Option Deadline) (now : ℕ)
    → f.retryable ≡ none
    → (f.cause ≡ some e) ⊎ ((f.cause ≡ none) × (f.raised ≡ e))
    → (e.is_a deadline_exceeded
        || e.is_a cancelled_error
        || e.is_a value_error
        || e.is_a permission_error)
      ≡ true
    → (safe_failure_from_exception f stage attempt request operation deadline now).retryable ≡ false
unfolding safe_failure_from_exception is_retryable_exception safe_retryable
safe_failure_retryable f e stage attempt request operation deadline now r c h = ground arith

is_empty-or_code :
    (o : Option String) (next : String) → is_empty next ≡ false → is_empty (or_code o next) ≡ false
unfolding or_code
is_empty-or_code none next h = h
is_empty-or_code (some s) next h = elim (Bool-cases (is_empty s)) [
  | inl e ↦ rw e h
  | inr e ↦ rw (e, e)
]

is_empty-if :
    (b : Bool) (s t : String)
    → is_empty (if b then s else t) ≡ (if b then is_empty s else is_empty t)
is_empty-if true s t = refl
is_empty-if false s t = refl

is_empty-class_code : (e : Raised) → is_empty (class_code e) ≡ false
unfolding class_code
is_empty-class_code e = simp is_empty-if (ground arith)

-- The public failure always has a code that is not empty and an attempt of at least one.
pub safe_failure_coded :
    (f : Failing) (stage : String) (attempt : ℤ) (request operation : String)
    (deadline : Option Deadline) (now : ℕ)
    → let failure = safe_failure_from_exception f stage attempt request operation deadline now in
      (is_empty failure.error_code ≡ false) × (1 ≤ failure.attempt)
unfolding safe_failure_from_exception safe_error_code
safe_failure_coded f stage attempt request operation deadline now = (
  is_empty-or_code f.safe_code _ (
      is_empty-or_code f.code _
        (is_empty-or_code f.metadata_code _ (is_empty-class_code f.raised))),
  omega arith,
)
