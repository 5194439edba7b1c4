-- ===== src/Transmitter/Problem.antt =====
-- transmitter/handlers.go and transmitter/auth.go: the answer of a handler to an error. The text of
-- an error, the trimming of spaces and the quoting of `%q` are parameters.
use Prim.Native.String.{◌++◌}
use go_ssf.Prelude.{Option, none, some, String, ℕ, ◌==◌, if◌then◌else◌}
use go_ssf.Errors.{
  Error, ValidationError, ProblemDetails, is, as_validation, unauthorized, stream_not_found,
  invalid_config, not_implemented,
}

pub record Texts : Type 0 where
  pub error_text : Error → String
  pub trim : String → String
  pub quote : String → String

-- A response with a problem document, of the media type application/problem+json.
pub record ProblemResponse : Type 0 where
  pub status : ℕ
  pub problem : ProblemDetails

abbrev pub unauthorized_problem_type : String
unauthorized_problem_type = "about:blank"

module _ (texts : Texts) where
  -- `writeProblemStatus`
  unfoldable pub write_problem_status : ℕ → String → String → ProblemResponse
  write_problem_status status title detail = record {
    status = status;
    problem = record {
      type_uri = unauthorized_problem_type;
      title = title;
      status = status;
      detail = texts.trim detail;
      instance_uri = "";
      extensions = none;
    };
  }

  -- `Default401Handler`, of an error that is not nil; `writeAuthProblem` is a call of it.
  unfoldable pub default_401_handler : Error → ProblemResponse
  default_401_handler e = record {
    status = 401;
    problem = record {
      type_uri = unauthorized_problem_type;
      title = "Unauthorized";
      status = 401;
      detail = texts.error_text e;
      instance_uri = "";
      extensions = none;
    };
  }

  unfoldable pub validation_detail : ValidationError → String
  validation_detail v =
      if v.rule == ""
      then v.reason
      else v.reason
        ++ (" (rule=" ++ (texts.quote v.rule ++ (" field=" ++ (texts.quote v.field ++ ")"))))

  unfoldable pub by_sentinel : Error → ProblemResponse
  unfolding write_problem_status default_401_handler
  by_sentinel e =
      if is e unauthorized
      then default_401_handler e
      else if is e stream_not_found
      then write_problem_status 404 "Stream Not Found" (texts.error_text e)
      else if is e invalid_config
      then write_problem_status 400 "Invalid Configuration" (texts.error_text e)
      else if is e not_implemented
      then write_problem_status 501 "Not Implemented" (texts.error_text e)
      else write_problem_status 500 "Internal Server Error" (texts.error_text e)

  unfoldable pub by_validation : Error → Option ValidationError → ProblemResponse
  unfolding by_sentinel write_problem_status validation_detail
  by_validation e (some v) = write_problem_status 400 "Validation Failed" (validation_detail v)
  by_validation e none = by_sentinel e

  -- `writeProblem`
  unfoldable pub write_problem : Error → ProblemResponse
  unfolding by_validation
  write_problem e = by_validation e (as_validation e)
