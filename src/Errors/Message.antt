-- ===== src/Errors/Message.antt =====
-- errors.go and transmitter/pushdriver.go: the texts of the structured errors. The quoting of `%q`, the trimming
-- of spaces, and the length and the first bytes of a text in bytes are parameters.
use Prim.Native.String.{◌++◌}
use go_ssf.Prelude.{ℕ, ◌+◌, ◌≤◌, Option, none, some, String, ◌≡◌, ltb, ◌==◌, if◌then◌else◌, arith}
use go_ssf.Prelude.Decimal.{decimal}
use go_ssf.Errors.{ValidationError, HttpError, ProblemDetails}

pub record ByteText : Type 0 where
  pub quote : String → String
  pub trim : String → String
  pub len : String → ℕ
  pub first : ℕ → String → String

-- `len` counts, and a first part is no longer than asked.
pub record Counts (b : ByteText) : Type 0 where
  pub len-append : (s t : String) → b.len (s ++ t) ≡ b.len s + b.len t
  pub len-first : (n : ℕ) (s : String) → b.len (b.first n s) ≤ n

-- The first bytes of a text that has no more are the text.
abbrev pub KeepsShort : ByteText → Type 0
KeepsShort b = (n : ℕ) (s : String) → b.len s ≤ n → b.first n s ≡ s

abbrev pub body_limit : ℕ
body_limit = 256

module _ (b : ByteText) where
  -- `ValidationError.Error`
  unfoldable pub validation_text : ValidationError → String
  validation_text e =
      "ssf: validation failed: rule="
      ++ (b.quote e.rule ++ (" field=" ++ (b.quote e.field ++ (": " ++ e.reason))))

  -- The body in a message, cut at the limit.
  unfoldable pub shown_body : String → String
  shown_body body = if ltb body_limit (b.len body) then b.first body_limit body ++ "..." else body

  unfoldable pub body_text : ℕ → String → String
  unfolding shown_body
  body_text status body =
      if body == ""
      then "ssf: http " ++ decimal status
      else "ssf: http " ++ (decimal status ++ (": " ++ shown_body body))

  abbrev pub title_of : Option ProblemDetails → String
  title_of none = ""
  title_of (some p) = p.title

  -- `HTTPError.Error`
  unfoldable pub http_text : HttpError → String
  unfolding body_text
  http_text e =
      if title_of e.rfc7807 == ""
      then body_text e.status_code e.body
      else "ssf: http " ++ (decimal e.status_code ++ (": " ++ title_of e.rfc7807))

  -- `pushHTTPError.Error`
  unfoldable pub push_http_text : ℕ → String → String
  push_http_text status body =
      if body == ""
      then "push endpoint returned status " ++ decimal status
      else "push endpoint returned status " ++ (decimal status ++ (": " ++ b.trim body))

  -- Of a body a message shows no more than the limit and the three dots.
  shown_body-le : (body : String) → Counts b → b.len (shown_body body) ≤ body_limit + b.len "..."
  unfolding shown_body
  shown_body-le body c =
      ground (arith, c.len-append (b.first body_limit body) "...", c.len-first body_limit body)
