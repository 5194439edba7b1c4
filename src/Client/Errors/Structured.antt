-- ===== src/Client/Errors/Structured.antt =====
-- client/errors.go, transmitter/handlers.go and errors.go: the problem document of a handler's answer as
-- the client's caller gets it, with the codec of ProblemDetails on both sides.
use mathlib.Core.List.{append-nil}
use go_ssf.Prelude.{[], true, Option, none, some, String, ◌≡◌, ◌≤◌, refl, ap, ◌∙◌, arith}
use go_ssf.Errors.{Error, Result, ok, err, as_validation, ProblemDetails, http, ValidationError}
use go_ssf.Errors.Document.{JsonCodec, marshal_problem, unmarshal_problem}
use go_ssf.Errors.Document.Written.{object_text, object_filled}
use go_ssf.Errors.Document.Read.{ReadsObject}
use go_ssf.Errors.Document.RoundTrip.{
  Codes, registered_members, marshal_problem_lem, unmarshal-marshal,
}
use go_ssf.Transmitter.Problem.{
  Texts, write_problem, by_validation, by_sentinel, write_problem_status, default_401_handler,
}
use go_ssf.Transmitter.Http.{text_or_empty}
use go_ssf.Errors.Message.{ByteText, KeepsShort}
use go_ssf.Client.Errors.{
  max_error_body_bytes, Decoding, parse_http_error, by_body, with_sentinel,
  problem_details_media_type, is_problem_details, parse_problem_details, is_problem_type,
}
use go_ssf.Client.Errors.Crossing.{sent, carried, status_carried}

abbrev to_option : {A : Type 0} → Result A → Option A
to_option (ok a) = some a
to_option (err e) = none

module _ (texts : Texts) where
  sentinel_plain : (e : Error) → (by_sentinel texts e).problem.extensions ≡ none
  unfolding by_sentinel write_problem_status default_401_handler
  sentinel_plain e = ground arith

  validation_plain :
      (e : Error) (v : Option ValidationError) → (by_validation texts e v).problem.extensions ≡ none
  unfolding by_validation write_problem_status
  validation_plain e (some v) = refl
  validation_plain e none = sentinel_plain e

  problem_plain : (e : Error) → (write_problem texts e).problem.extensions ≡ none
  unfolding write_problem
  problem_plain e = validation_plain e (as_validation e)

module _ (json : JsonCodec) (codes : Codes json) (texts : Texts) where
  -- The client's decoding, with the package's own codec of a problem document.
  abbrev pub decoding_by : (String → Option String) → Decoding
  decoding_by media_type = record {
    media_type = media_type;
    problem = λ s. to_option (unmarshal_problem json s);
  }

  -- The bytes of a handler's problem document.
  abbrev pub document_of : Error → String
  document_of e = text_or_empty (marshal_problem json (write_problem texts e).problem)

  written :
      (p : ProblemDetails)
      → p.extensions ≡ none
      → marshal_problem json p ≡ ok (object_text (registered_members json codes p))
  written p plain = marshal_problem_lem json codes p [] (rw plain refl) ∙ rw append-nil refl

  read_back :
      (media_type : String → Option String) (p : ProblemDetails)
      → p.extensions ≡ none
      → ReadsObject json (text_or_empty (marshal_problem json p)) (registered_members json codes p)
      → parse_problem_details (decoding_by media_type) (text_or_empty (marshal_problem json p))
        ≡ some p
  unfolding parse_problem_details
  read_back media_type p plain reads =
      let ms = registered_members json codes p in
      let again =
        unmarshal-marshal json codes p [] plain tt (rw plain refl)
          (rw append-nil (rw (written p plain) at reads)) in
      rw (written p plain, object_filled ms) (ap to_option (rw (written p plain) at again))

  typed :
      (media_type : String → Option String)
      → media_type problem_details_media_type ≡ some problem_details_media_type
      → is_problem_details (decoding_by media_type) problem_details_media_type ≡ true
  unfolding is_problem_details is_problem_type
  typed media_type m = rw m refl

  -- The document of a handler's answer to an error, which a Decoder reads as what it is and which is no longer
  -- than the client's limit of 256 KiB, comes to the client's caller as it was: the error that the caller gets has the answer's status, the bytes of the document and
  -- the document itself, and is joined with the sentinel that the handler's error carries, if any.
  pub problem_read_back :
      (media_type : String → Option String) (b : ByteText) (e : Error)
      → media_type problem_details_media_type ≡ some problem_details_media_type
      → KeepsShort b
      → b.len (document_of e) ≤ max_error_body_bytes
      → let a = write_problem texts e in
        ReadsObject json (document_of e) (registered_members json codes a.problem)
        → parse_http_error (decoding_by media_type) (sent b a (document_of e))
          ≡ some (
              with_sentinel
                (http (record {
                  status_code = a.status;
                  body = document_of e;
                  rfc7807 = some a.problem;
                }))
                (carried e))
  unfolding parse_http_error by_body is_problem_details parse_problem_details
  problem_read_back media_type b e m keeps short reads =
      let a = write_problem texts e in
      let status = status_carried texts (decoding_by media_type) e in
      rw
        (
          keeps max_error_body_bytes (document_of e) short,
          status.1,
          typed media_type m,
          read_back media_type a.problem (problem_plain texts e) reads,
          status.0,
        )
        refl
