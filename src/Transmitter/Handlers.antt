-- ===== src/Transmitter/Handlers.antt =====
-- transmitter/handlers.go: the six handlers, over an implementation of the Transmitter interface and
-- the state that its calls change.
pub mod Guard
mod Examples
use go_ssf.Prelude.{Bool, Option, none, some, List, [], String, ◌==◌, not, if◌then◌else◌}
use go_ssf.Errors.{Error, Result, ok, err, validation}
use go_ssf.Wire.{
  StreamConfig, StatusUpdateRequest, AddSubjectRequest, RemoveSubjectRequest, VerificationRequest,
  PollRequest,
}
use go_ssf.Transmitter.Interface.{Transmitter, Page, Done}
use go_ssf.Transmitter.Http.{
  Request, query_get, HttpResponse, Coding, ListConfigResponse, Library, AuthFunc, problem,
  write_json, write_empty_json, write_method_not_allowed, missing_stream_id_err, decode_json_body,
  run_auth,
}

-- A request that is answered without the implementation.
abbrev pub guarded : {S : Type 0} → Option HttpResponse → S → HttpResponse × S → HttpResponse × S
guarded (some refusal) s rest = (refusal, s)
guarded none s rest = rest

-- An empty slice in place of a nil one.
abbrev pub not_nil : Page → ListConfigResponse
not_nil (none, token) = record { streams = some []; next_page_token = token }
not_nil (some configs, token) = record { streams = some configs; next_page_token = token }

abbrev invalid_subject : Error
invalid_subject = validation (record {
  rule = "subject is JSON";
  field = "subject";
  reason = "subject query parameter is not valid JSON";
})

module _ {Identifier S : Type 0} (lib : Library Identifier) where
  -- `writeProblem` for an error, else the status with the value.
  unfoldable pub reply : {A : Type 0} → Coding A → Result A × S → HttpResponse × S
  reply c (err e, s) = (problem lib e, s)
  reply c (ok v, s) = (write_json lib c 200 v, s)

  unfoldable pub reply_created : {A : Type 0} → Coding A → Result A × S → HttpResponse × S
  reply_created c (err e, s) = (problem lib e, s)
  reply_created c (ok v, s) = (write_json lib c 201 v, s)

  unfoldable pub reply_empty : Result Done × S → HttpResponse × S
  reply_empty (err e, s) = (problem lib e, s)
  reply_empty (ok d, s) = (write_empty_json lib 200, s)

  unfoldable pub reply_deleted : Result Done × S → HttpResponse × S
  reply_deleted (err e, s) = (problem lib e, s)
  reply_deleted (ok d, s) = (record { status = 204; allow = none; content_type = ""; body = "" }, s)

  unfoldable pub reply_listing : Result Page × S → HttpResponse × S
  reply_listing (err e, s) = (problem lib e, s)
  reply_listing (ok page, s) = (write_json lib lib.codings.listing 200 (not_nil page), s)

  -- The decoded body handed on, or the answer to its error.
  unfoldable pub with_body : {A : Type 0} → Result A → S → (A → HttpResponse × S) → HttpResponse × S
  with_body (err e) s k = (problem lib e, s)
  with_body (ok v) s k = k v

  unfoldable pub with_stream : Request → S → (String → HttpResponse × S) → HttpResponse × S
  with_stream r s k =
      if query_get r "stream_id" == ""
      then (problem lib (missing_stream_id_err), s)
      else k (query_get r "stream_id")

module _ {Identifier S : Type 0} (lib : Library Identifier) (t : Transmitter Identifier S) where
  unfoldable pub handle_list_config : S → Request → HttpResponse × S
  handle_list_config s r = reply_listing lib (t.list_config s (query_get r "page_token"))

  unfoldable pub handle_get_config : S → String → HttpResponse × S
  handle_get_config s id = reply lib lib.codings.config (t.get_config s id)

  unfoldable pub handle_create_config : S → Request → HttpResponse × S
  handle_create_config s r =
      with_body lib (decode_json_body lib lib.codings.config r.body) s
        (λ cfg. reply_created lib lib.codings.config (t.create_config s (some cfg)))

  unfoldable pub handle_update_config : S → Request → HttpResponse × S
  handle_update_config s r = with_stream lib r s (λ id.
      with_body lib (decode_json_body lib lib.codings.config r.body) s (λ cfg.
        reply lib lib.codings.config (t.update_config s (some (record cfg { stream_id = id })))))

  unfoldable pub handle_delete_config : S → Request → HttpResponse × S
  handle_delete_config s r = with_stream lib r s (λ id. reply_deleted lib (t.delete_config s id))

  -- The `switch` of `ConfigHandler`
  unfoldable pub config_methods : S → Request → HttpResponse × S
  config_methods s r =
      if r.method == "GET"
      then if query_get r "stream_id" == ""
        then handle_list_config s r
        else handle_get_config s (query_get r "stream_id")
      else if r.method == "POST"
      then handle_create_config s r
      else if r.method == "PATCH"
      then handle_update_config s r
      else if r.method == "DELETE"
      then handle_delete_config s r
      else (write_method_not_allowed lib "GET, POST, PATCH, DELETE", s)

  unfoldable pub config_handler : AuthFunc → S → Request → HttpResponse × S
  config_handler auth s r = guarded (run_auth lib auth r) s (config_methods s r)

  unfoldable pub handle_get_status : S → Request → String → HttpResponse × S
  handle_get_status s r id =
      if query_get r "subject" == ""
      then reply lib lib.codings.status (t.get_status s id none)
      else if lib.codings.valid (query_get r "subject")
      then reply lib lib.codings.status (t.get_status s id (some (query_get r "subject")))
      else (problem lib invalid_subject, s)

  unfoldable pub handle_update_status : S → Request → String → HttpResponse × S
  handle_update_status s r id =
      with_body lib (decode_json_body lib lib.codings.status_update r.body) s
        (λ req. reply lib lib.codings.status (t.update_status s id (some req)))

  unfoldable pub status_methods : S → Request → String → HttpResponse × S
  status_methods s r id =
      if r.method == "GET"
      then handle_get_status s r id
      else if r.method == "POST"
      then handle_update_status s r id
      else (write_method_not_allowed lib "GET, POST", s)

  unfoldable pub status_handler : AuthFunc → S → Request → HttpResponse × S
  status_handler auth s r =
      guarded (run_auth lib auth r) s (with_stream lib r s (λ id. status_methods s r id))

  -- The handlers that take a POST for a stream.
  unfoldable pub posted_for :
      AuthFunc → S → Request → (String → HttpResponse × S) → HttpResponse × S
  posted_for auth s r k = guarded (run_auth lib auth r) s (
      if r.method == "POST"
      then with_stream lib r s k
      else (write_method_not_allowed lib "POST", s))

  unfoldable pub add_subject_handler : AuthFunc → S → Request → HttpResponse × S
  add_subject_handler auth s r = posted_for auth s r (λ id.
      with_body lib (decode_json_body lib lib.codings.adding r.body) s
        (λ req. reply_empty lib (t.add_subject s id (some req))))

  unfoldable pub remove_subject_handler : AuthFunc → S → Request → HttpResponse × S
  remove_subject_handler auth s r = posted_for auth s r (λ id.
      with_body lib (decode_json_body lib lib.codings.removing r.body) s
        (λ req. reply_empty lib (t.remove_subject s id (some req))))

  unfoldable pub verification_handler : AuthFunc → S → Request → HttpResponse × S
  verification_handler auth s r = posted_for auth s r (λ id.
      with_body lib (decode_json_body lib lib.codings.verification r.body) s
        (λ req. reply_empty lib (t.verify s id (some req))))

  unfoldable pub poll_handler : AuthFunc → S → Request → HttpResponse × S
  poll_handler auth s r = posted_for auth s r (λ id.
      with_body lib (decode_json_body lib lib.codings.polling r.body) s
        (λ req. reply lib lib.codings.batch (t.poll_events s id (some req))))
