-- ===== src/Client/Errors/Crossing.antt =====
-- client/errors.go and transmitter/handlers.go: what of a handler's error reaches the client's caller.
use go_ssf.Prelude.{
  Bool, false, ◌&&◌, Option, none, some, String, ◌≡◌, refl, ap, ◌∙◌, ltb, leb, is_some,
  if◌then◌else◌, Bool-cases, inl, inr,
}
use go_ssf.Errors.{
  Error, Sentinel, ok, is, as_validation, unauthorized, stream_not_found, invalid_config,
  not_implemented, sentinel, ValidationError, http, HttpError,
}
use go_ssf.Transmitter.Problem.{
  Texts, ProblemResponse, write_problem, by_validation, by_sentinel, write_problem_status,
  default_401_handler,
}
use go_ssf.Errors.Message.{ByteText}
use go_ssf.Client.Errors.{
  limited_body, Decoding, Response, map_status_to_sentinel, parse_http_error, by_body,
  with_sentinel, problem_details_media_type,
}

-- The sentinel that an error carries over the wire, if any: validation errors come first and invalid
-- configurations share their status, so neither has one.
abbrev pub carried : Error → Option Sentinel
carried e =
    if is_some (as_validation e)
    then none
    else if is e unauthorized
    then some unauthorized
    else if is e stream_not_found
    then some stream_not_found
    else if is e invalid_config
    then none
    else if is e not_implemented
    then some not_implemented
    else none

abbrev pub finds : Option Error → Sentinel → Bool
finds none t = false
finds (some e) t = is e t

abbrev pub just : Option Sentinel → Option Error
just none = none
just (some s) = some (sentinel s)

-- The response as the client sees it, with what it reads of the document.
abbrev pub seen : ProblemResponse → String → Response
seen a bytes = record {
  status_code = a.status;
  content_type = problem_details_media_type;
  body = ok bytes;
}

-- The same for a document that arrives whole, of which the client reads the bytes up to its limit.
abbrev pub sent : ByteText → ProblemResponse → String → Response
sent b a bytes = record (seen a bytes) { body = limited_body b bytes }

found :
    (h : HttpError) (s : Option Sentinel) (t : Sentinel)
    → is (with_sentinel (http h) s) t ≡ finds (just s) t
unfolding is
found h none t = refl
found h (some s) t = refl

module _ (texts : Texts) (d : Decoding) where
  -- The status of a sentinel's answer, by the tests in their order.
  sentinel_carried :
      (e : Error)
      → let status = (by_sentinel texts e).status in
        (map_status_to_sentinel status ≡ (
          if is e unauthorized
          then some unauthorized
          else if is e stream_not_found
          then some stream_not_found
          else if is e invalid_config
          then none
          else if is e not_implemented
          then some not_implemented
          else none))
        × ((leb 200 status && ltb status 300) ≡ false)
  unfolding by_sentinel write_problem_status default_401_handler map_status_to_sentinel
  sentinel_carried e = elim (Bool-cases (is e unauthorized)) [
    | inl a ↦ rw a (refl, refl)
    | inr not_a ↦ rw not_a (elim (Bool-cases (is e stream_not_found)) [
      | inl b ↦ rw b (refl, refl)
      | inr not_b ↦ rw not_b (elim (Bool-cases (is e invalid_config)) [
        | inl c ↦ rw c (refl, refl)
        | inr not_c ↦ rw not_c (elim (Bool-cases (is e not_implemented)) [
          | inl last ↦ rw last (refl, refl)
          | inr other ↦ rw other (refl, refl)
        ])
      ])
    ])
  ]

  validation_carried :
      (e : Error) (v : Option ValidationError)
      → as_validation e ≡ v
      → let status = (by_validation texts e v).status in
        (map_status_to_sentinel status ≡ carried e) × ((leb 200 status && ltb status 300) ≡ false)
  unfolding by_validation write_problem_status map_status_to_sentinel
  validation_carried e (some v) h = rw h (refl, refl)
  validation_carried e none h = rw h (sentinel_carried e)

  pub status_carried :
      (e : Error)
      → let status = (write_problem texts e).status in
        (map_status_to_sentinel status ≡ carried e) × ((leb 200 status && ltb status 300) ≡ false)
  unfolding write_problem
  status_carried e = validation_carried e (as_validation e) refl

  -- The error that the client's caller gets for a handler's error matches, of all sentinels, exactly
  -- the one that the error carries over the wire: unauthorized, stream not found or not implemented, in
  -- this order, and none for a validation error or an invalid configuration.
  pub sentinels_cross :
      (e : Error) (bytes : String) (t : Sentinel)
      → finds (parse_http_error d (seen (write_problem texts e) bytes)) t
        ≡ finds (just (carried e)) t
  unfolding parse_http_error by_body
  sentinels_cross e bytes t = rw (status_carried e).1 (
      found _ (map_status_to_sentinel (write_problem texts e).status) t
      ∙ ap (λ s. finds (just s) t) (status_carried e).0)
