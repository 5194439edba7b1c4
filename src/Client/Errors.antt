-- ===== src/Client/Errors.antt =====
-- client/errors.go: what the client makes of a response. The reading of a media type and the decoding
-- of a problem document are parameters.
pub mod Crossing
pub mod Structured
mod Examples
use go_ssf.Prelude.{
  ℕ, Bool, true, false, ◌&&◌, Option, none, some, String, ltb, leb, eqb, ◌==◌, if◌then◌else◌,
}
use go_ssf.Errors.Message.{ByteText}
use go_ssf.Errors.{
  Error, Result, ok, err, http, join, sentinel, wrap, Sentinel, ProblemDetails, HttpError,
  unauthorized, stream_not_found, not_implemented,
}

-- `mime.ParseMediaType` and `ProblemDetails.UnmarshalJSON`; `none` for an error.
pub record Decoding : Type 0 where
  pub media_type : String → Option String
  pub problem : String → Option ProblemDetails

-- A response: its status, its Content-Type, and what reading its body up to the cap gives.
pub record Response : Type 0 where
  pub status_code : ℕ
  pub content_type : String
  pub body : Result String

abbrev pub problem_details_media_type : String
problem_details_media_type = "application/problem+json"

-- `maxErrorBodyBytes`
abbrev pub max_error_body_bytes : ℕ
max_error_body_bytes = 262144

-- What `io.ReadAll` of the `io.LimitReader` gives of a body that arrives whole.
abbrev pub limited_body : ByteText → String → Result String
limited_body b bytes = ok (b.first max_error_body_bytes bytes)

-- `mapStatusToSentinel`
unfoldable pub map_status_to_sentinel : ℕ → Option Sentinel
map_status_to_sentinel status =
    if eqb status 401
    then some unauthorized
    else if eqb status 404
    then some stream_not_found
    else if eqb status 501
    then some not_implemented
    else none

is_problem_type : Option String → Bool
is_problem_type none = false
is_problem_type (some t) = t == problem_details_media_type

-- `isProblemDetails`
unfoldable pub is_problem_details : Decoding → String → Bool
unfolding is_problem_type
is_problem_details d content_type =
    if content_type == "" then false else is_problem_type (d.media_type content_type)

-- `parseProblemDetails`
unfoldable pub parse_problem_details : Decoding → String → Option ProblemDetails
parse_problem_details d body = if body == "" then none else d.problem body

abbrev pub with_sentinel : Error → Option Sentinel → Error
with_sentinel e none = e
with_sentinel e (some s) = join e (sentinel s)

unfoldable pub by_body : Decoding → Response → Result String → Error
unfolding is_problem_details parse_problem_details map_status_to_sentinel
by_body d r (err e) = wrap "ssf: read error response body" e
by_body d r (ok body) =
    with_sentinel
      (http (record {
        status_code = r.status_code;
        body = body;
        rfc7807 =
            if is_problem_details d r.content_type then parse_problem_details d body else none;
      }))
      (map_status_to_sentinel r.status_code)

-- `ParseHTTPError`; no error is nil.
unfoldable pub parse_http_error : Decoding → Response → Option Error
unfolding by_body
parse_http_error d r =
    if leb 200 r.status_code && ltb r.status_code 300 then none else some (by_body d r r.body)
