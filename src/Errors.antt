-- ===== src/Errors.antt =====
-- errors.go: the sentinel errors, the structured errors and the problem-details document.
-- A Go `error` is a tree: `fmt.Errorf` with %w wraps, `errors.Join` joins. `is` is `errors.Is`
-- and `as_validation` is `errors.As` at `*ssf.ValidationError`. Of a message only its own text is
-- kept, not the values that it formats nor the text that a printing of the whole chain would give.
pub mod Document
pub mod Message
use go_ssf.Prelude.Int64.{Int64}
use go_ssf.Prelude.{◌≡◌, refl, ◌⊎◌, inl, inr, ℕ, Bool, false, ◌||◌, Option, none, some, String, eqb}

-- The `Err…` sentinels of errors.go, `receiver.ErrPermanent`, the two of `context`, and the
-- unexported ones of set.go.
pub data Sentinel : Type 0 where
  stream_not_found unauthorized invalid_config method_reserved unsupported_delivery : Sentinel
  unsupported_event verification_timeout not_implemented : Sentinel
  permanent_sink canceled deadline_exceeded alg_none missing_typ : Sentinel

-- Each sentinel is one allocated value: two are equal when they are the same variable.
abbrev identity : Sentinel → ℕ
identity stream_not_found = 0
identity unauthorized = 1
identity invalid_config = 2
identity method_reserved = 3
identity unsupported_delivery = 4
identity unsupported_event = 5
identity verification_timeout = 6
identity not_implemented = 7
identity permanent_sink = 8
identity canceled = 9
identity deadline_exceeded = 10
identity alg_none = 11
identity missing_typ = 12

pub record ValidationError : Type 0 where
  pub rule : String
  pub field : String
  pub reason : String

pub record ProblemDetails : Type 0 where
  pub type_uri : String
  pub title : String
  pub status : Int64
  pub detail : String
  pub instance_uri : String
  pub extensions : Option String

pub record HttpError : Type 0 where
  pub status_code : ℕ
  pub body : String
  pub rfc7807 : Option ProblemDetails

pub data Error : Type 0 where
  sentinel : Sentinel → Error
  message : String → Error
  wrap : String → Error → Error
  join : Error → Error → Error
  validation : ValidationError → Error
  http : HttpError → Error
  -- `pushHTTPError` of transmitter/pushdriver.go
  push_http : ℕ → String → Error
  -- `permanentError` of transmitter/pushdriver.go, which unwraps to what it marks
  permanent : Error → Error

-- `errors.Is(e, target)`
unfoldable pub is : Error → Sentinel → Bool
is (sentinel s) t = eqb (identity s) (identity t)
is (message m) t = false
is (wrap m e) t = is e t
is (join d e) t = is d t || is e t
is (validation v) t = false
is (http h) t = false
is (push_http s b) t = false
is (permanent e) t = is e t

abbrev pub or_else {ℓ} : {A : Type ℓ} → Option A → Option A → Option A
or_else (some a) o = some a
or_else none o = o

-- `errors.As(e, &ve)`: the first validation error of the chain
unfoldable pub as_validation : Error → Option ValidationError
as_validation (sentinel s) = none
as_validation (message m) = none
as_validation (wrap m e) = as_validation e
as_validation (join d e) = or_else (as_validation d) (as_validation e)
as_validation (validation v) = some v
as_validation (http h) = none
as_validation (push_http s b) = none
as_validation (permanent e) = as_validation e

-- `errors.As(e, &perm)` of transmitter/pushdriver.go: what the first mark of the chain marks
unfoldable pub as_permanent : Error → Option Error
as_permanent (sentinel s) = none
as_permanent (message m) = none
as_permanent (wrap m e) = as_permanent e
as_permanent (join d e) = or_else (as_permanent d) (as_permanent e)
as_permanent (validation v) = none
as_permanent (http h) = none
as_permanent (push_http s b) = none
as_permanent (permanent e) = some e

-- What a Go function with an `error` result returns.
pub data Result {ℓ} (A : Type ℓ) : Type ℓ where
  ok : A → Result A
  err : Error → Result A

pub Result-cases {ℓ} :
    {A : Type ℓ} (r : Result A) → ((e : Error) × (r ≡ err e)) ⊎ ((a : A) × (r ≡ ok a))
Result-cases (ok a) = inr (a, refl)
Result-cases (err e) = inl (e, refl)

-- The call failed, and `errors.Is` finds the sentinel in its error.
abbrev pub fails_with {ℓ} : {A : Type ℓ} → Result A → Sentinel → Bool
fails_with (ok a) t = false
fails_with (err e) t = is e t

infixl 10 ◌>>=◌
abbrev pub ◌>>=◌ {ℓ κ} : {A : Type ℓ} {B : Type κ} → Result A → (A → Result B) → Result B
ok a >>= f = f a
err e >>= f = err e
