-- ===== src/Receiver/PushHandler.antt =====
-- receiver/push.go: the handler of pushed SETs. What `strings` and `net/http` make of texts and of
-- the body is a parameter; the Sink is a function on a state of its own.
pub mod Delivered
mod Examples
use go_ssf.Receiver.Sink.{Sink}
use Prim.Native.String.{◌++◌}
use go_ssf.Prelude.{
  ℕ, Bool, true, false, Option, none, some, List, [], ◌∷◌, String, ◌==◌, if◌then◌else◌,
}
use go_ssf.Prelude.Int64.{Int64, slt}
use go_ssf.Errors.{Error, Result, ok, err, is, permanent_sink, ProblemDetails}

abbrev pub push_media_type : String
push_media_type = "application/secevent+jwt"

abbrev pub default_max_push_bytes : Int64
default_max_push_bytes = 1048576

-- `PushOption`: WithMaxBytes is the only one.
pub data PushOption : Type 0 where
  with_max_bytes : Int64 → PushOption

-- The value that is left of the options in order.
unfoldable pub max_bytes_of : Int64 → List PushOption → Int64
max_bytes_of n [] = n
max_bytes_of n (with_max_bytes m ∷ os) = max_bytes_of m os

-- What `io.ReadAll` gives: the body, a `MaxBytesError`, or another error, by their texts.
pub data BodyRead : Type 0 where
  whole : String → BodyRead
  too_large : String → BodyRead
  unreadable : String → BodyRead

-- A request; its body is read under a cap, or without one.
pub record PushRequest : Type 0 where
  pub method : String
  pub content_type : String
  pub body : Option Int64 → BodyRead

-- `strings.TrimSpace`, the text before the first `;` if there is one, and `strings.EqualFold`.
pub record TextReading : Type 0 where
  pub trim : String → String
  pub before_semicolon : String → String
  pub equal_fold : String → String → Bool

pub record PushResponse : Type 0 where
  pub status : ℕ
  pub allow : Option String
  pub problem : Option ProblemDetails

module _ {S : Type 0} (text : TextReading) (error_text : Error → String)
    (verify : String → Result String) (deliver_set : Sink S) (os : List PushOption) where
  -- `writeProblem`
  unfoldable pub write_problem : Option String → ℕ → String → String → PushResponse
  write_problem allow status title detail = record {
    status = status;
    allow = allow;
    problem = some (record {
      type_uri = "";
      title = title;
      status = status;
      detail = text.trim detail;
      instance_uri = "";
      extensions = none;
    });
  }

  -- `hasPushMediaType`
  unfoldable pub has_push_media_type : String → Bool
  has_push_media_type header =
      text.equal_fold (text.trim (text.before_semicolon header)) push_media_type

  unfoldable pub answer_sink : Option Error → PushResponse
  unfolding write_problem
  answer_sink none = record { status = 202; allow = none; problem = none }
  answer_sink (some e) =
      if is e permanent_sink
      then write_problem none 400 "Permanent Sink Failure" (error_text e)
      else write_problem none 503 "Transient Sink Failure" (error_text e)

  unfoldable pub answer_verify : S → Result String → PushResponse × S
  unfolding answer_sink write_problem
  answer_verify s (err e) =
      (write_problem none 400 "Invalid Security Event Token" (error_text e), s)
  answer_verify s (ok payload) = let (o, s') = deliver_set s payload in (answer_sink o, s')

  unfoldable pub answer_body : S → BodyRead → PushResponse × S
  unfolding answer_verify write_problem
  answer_body s (too_large e) = (write_problem none 413 "Request Body Too Large" e, s)
  answer_body s (unreadable e) =
      (write_problem none 400 "Bad Request" ("read request body: " ++ e), s)
  answer_body s (whole body) =
      if text.trim body == ""
      then (
        write_problem none 400 "Empty Request Body"
            "the push endpoint requires a compact-serialized JWS in the body",
        s,
      )
      else answer_verify s (verify (text.trim body))

  -- `readPushBody`
  unfoldable pub read_push_body : PushRequest → BodyRead
  read_push_body r =
      let n = max_bytes_of default_max_push_bytes os in r.body (if slt 0 n then some n else none)

  -- The handler of `PushHandler`
  unfoldable pub push_handler : S → PushRequest → PushResponse × S
  unfolding answer_body write_problem
  push_handler s r =
      if r.method == "POST"
      then if has_push_media_type r.content_type then answer_body s (read_push_body r) else (
        write_problem none 415 "Unsupported Media Type"
            "Content-Type must be \"application/secevent+jwt\" (rfc 8935 §2)",
        s,
      )
      else (
        write_problem (some "POST") 405 "Method Not Allowed" "the push endpoint accepts POST only",
        s,
      )
