-- ===== src/Transmitter/Http.antt =====
-- transmitter/handlers.go and transmitter/auth.go: what the handlers share, the request and the
-- response, authorization, and the JSON bodies. `encoding/json` is a parameter, a `Coding` for each type;
-- a query is what `URL.Query` gives, and a body what `io.ReadAll` gives under the limit.
use Prim.Native.String.{◌++◌}
use go_ssf.Prelude.{ℕ, Bool, Option, none, some, List, String, ◌==◌, if◌then◌else◌}
use go_ssf.Prelude.Map.{Map, get}
use go_ssf.Errors.{Error, Result, ok, err, wrap, validation, sentinel, unauthorized, ProblemDetails}
use go_ssf.Wire.{
  RawMessage, StreamConfig, StatusResponse, StatusUpdateRequest, AddSubjectRequest,
  RemoveSubjectRequest, VerificationRequest, PollRequest, PollResponse,
}
use go_ssf.Transmitter.Problem.{
  Texts, ProblemResponse, write_problem, write_problem_status, default_401_handler,
}

pub record Request : Type 0 where
  pub method : String
  pub path : String
  pub query : Map String
  pub authorization : Option String
  pub content_type : Option String
  pub body : Result String

abbrev pub or_empty : Option String → String
or_empty none = ""
or_empty (some v) = v

-- `r.URL.Query().Get(key)`
abbrev pub query_get : Request → String → String
query_get r key = or_empty (get r.query key)

pub record HttpResponse : Type 0 where
  pub status : ℕ
  pub allow : Option String
  pub content_type : String
  pub body : String

-- `json.Marshal`, `json.Unmarshal`, and `Decode` of a `json.Decoder` on a body, at a type.
pub record Coding (A : Type 0) : Type 0 where
  pub marshal : A → Result String
  pub unmarshal : String → Result A
  pub decode : Result String → Result A

-- `listConfigResponse`
pub record ListConfigResponse : Type 0 where
  pub streams : Option (List StreamConfig)
  pub next_page_token : String

pub record Codings (Identifier : Type 0) : Type 0 where
  pub config : Coding StreamConfig
  pub listing : Coding ListConfigResponse
  pub status : Coding StatusResponse
  pub status_update : Coding StatusUpdateRequest
  pub adding : Coding (AddSubjectRequest Identifier)
  pub removing : Coding (RemoveSubjectRequest Identifier)
  pub verification : Coding VerificationRequest
  pub polling : Coding PollRequest
  pub batch : Coding PollResponse
  pub problem : ProblemDetails → Result String
  pub valid : String → Bool

-- What the handlers take from outside.
pub record Library (Identifier : Type 0) : Type 0 where
  pub texts : Texts
  pub codings : Codings Identifier

abbrev pub content_type_json : String
content_type_json = "application/json; charset=utf-8"

abbrev pub content_type_problem : String
content_type_problem = "application/problem+json"

pub record StreamScope : Type 0 where
  pub stream_id : String
  pub subject : RawMessage

-- A nil `AuthFunc` is `none`.
abbrev pub AuthFunc : Type 0
AuthFunc = Option (Request → Result StreamScope)

abbrev pub always_reject : AuthFunc
always_reject = some (λ r. err (sentinel unauthorized))

abbrev pub always_allow : AuthFunc
always_allow = some (λ r. ok (record { stream_id = ""; subject = none }))

-- `missingStreamIDErr`
abbrev pub missing_stream_id_err : Error
missing_stream_id_err = validation (record {
  rule = "stream_id required";
  field = "stream_id";
  reason = "stream_id query parameter is required";
})

abbrev pub text_or_empty : Result String → String
text_or_empty (err e) = ""
text_or_empty (ok t) = t

module _ {Identifier : Type 0} (lib : Library Identifier) where
  -- The bytes that go with a problem document.
  unfoldable pub problem_response : ProblemResponse → HttpResponse
  problem_response a = record {
    status = a.status;
    allow = none;
    content_type = content_type_problem;
    body = text_or_empty (lib.codings.problem a.problem);
  }

  -- `writeProblem`, with its bytes
  unfoldable pub problem : Error → HttpResponse
  problem e = problem_response (write_problem lib.texts e)

  unfoldable pub by_text : ℕ → Result String → HttpResponse
  unfolding problem
  by_text status (err e) = problem (wrap "marshal response" e)
  by_text status (ok body) = record {
    status = status;
    allow = none;
    content_type = content_type_json;
    body = body;
  }

  -- `writeJSON`
  unfoldable pub write_json : {A : Type 0} → Coding A → ℕ → A → HttpResponse
  unfolding by_text
  write_json c status v = by_text status (c.marshal v)

  -- `writeEmptyJSON`
  unfoldable pub write_empty_json : ℕ → HttpResponse
  write_empty_json status = record {
    status = status;
    allow = none;
    content_type = content_type_json;
    body = "{}";
  }

  -- `writeMethodNotAllowed`
  unfoldable pub write_method_not_allowed : String → HttpResponse
  write_method_not_allowed allow =
      record (problem_response
        (write_problem_status lib.texts 405 "Method Not Allowed" ("allowed methods: " ++ allow))) {
          allow = some allow;
        }

  unfoldable pub decoded : {A : Type 0} → Result A → Result A
  decoded (err e) = err (
      validation
        (record { rule = "JSON body decode"; field = "body"; reason = lib.texts.error_text e }))
  decoded (ok v) = ok v

  -- `decodeJSONBody`
  unfoldable pub decode_json_body : {A : Type 0} → Coding A → Result String → Result A
  unfolding decoded
  decode_json_body c (err e) = err (
      validation
        (record { rule = "JSON body size"; field = "body"; reason = lib.texts.error_text e }))
  decode_json_body c (ok body) =
      if body == ""
      then err (
          validation (record {
            rule = "JSON body decode";
            field = "body";
            reason = "request body is empty";
          }))
      else decoded (c.unmarshal body)

  unfoldable pub by_scope : Result StreamScope → Option HttpResponse
  by_scope (err e) = some (problem_response (default_401_handler lib.texts e))
  by_scope (ok scope) = none

  -- `runAuth`: the response of a request that is rejected
  unfoldable pub run_auth : AuthFunc → Request → Option HttpResponse
  unfolding by_scope
  run_auth none r = some (problem_response (default_401_handler lib.texts (sentinel unauthorized)))
  run_auth (some auth) r = by_scope (auth r)
