-- ===== src/Receiver/PushHandler/Delivered.antt =====
-- receiver/push.go: what an answer of the handler means, to a reader of the protocol and to the push
-- driver of transmitter/pushdriver.go.
use go_ssf.Receiver.Sink.{Sink}
use go_ssf.Prelude.{
  ℕ, ◌≤◌, true, false, Option, none, some, List, String, ◌≡◌, ◌⊎◌, inl, inr, refl, ap, arith, ◌==◌,
  if◌then◌else◌, Bool-cases,
}
use go_ssf.Prelude.Int64.{Int64}
use go_ssf.Errors.{
  Error, Result, ok, err, is, permanent_sink, push_http, ProblemDetails, as_permanent,
}
use go_ssf.RetryAfter.{HeaderReading, push_retry_after}
use go_ssf.Transmitter.Push.{
  Round, response, Verdict, delivered, rejected, transient, verdict, attempt, classify_status,
}
use go_ssf.Receiver.PushHandler.{
  PushOption, BodyRead, whole, too_large, unreadable, PushRequest, TextReading, PushResponse,
  write_problem, has_push_media_type, answer_sink, answer_verify, answer_body, read_push_body,
  push_handler,
}

-- A success without a document, or a failure with a document that repeats its status.
abbrev pub IsDocumented : PushResponse → Type 0
IsDocumented a =
    ((a.status ≡ 202) × (a.problem ≡ none))
    ⊎ ((p : ProblemDetails) × (a.problem ≡ some p) × (p.status ≡ a.status) × (400 ≤ a.status))

-- A round of the driver that gets a status and no Retry-After.
abbrev pub answered : ℕ → String → (Int64 → Int64) → (Int64 → Option Error) → Round
answered status body jitter sleep = record {
  ctx_err = none;
  build_err = none;
  reply = response status "" body;
  jitter = jitter;
  sleep = sleep;
}

module _ {S : Type 0} (text : TextReading) (error_text : Error → String)
    (verify : String → Result String) (deliver_set : Sink S) (os : List PushOption) where
  sink-IsDocumented :
      (o : Option Error) → IsDocumented (answer_sink text error_text verify deliver_set os o)
  unfolding answer_sink write_problem
  sink-IsDocumented none = inl (refl, refl)
  sink-IsDocumented (some e) = elim (Bool-cases (is e permanent_sink)) [
    | inl final ↦ rw final (inr (_, refl, refl, omega arith))
    | inr brief ↦ rw brief (inr (_, refl, refl, omega arith))
  ]

  verify-IsDocumented :
      (s : S) (v : Result String)
      → IsDocumented (answer_verify text error_text verify deliver_set os s v).0
  unfolding answer_verify write_problem
  verify-IsDocumented s (err e) = inr (_, refl, refl, omega arith)
  verify-IsDocumented s (ok payload) = sink-IsDocumented (deliver_set s payload).0

  body-IsDocumented :
      (s : S) (b : BodyRead)
      → IsDocumented (answer_body text error_text verify deliver_set os s b).0
  unfolding answer_body write_problem
  body-IsDocumented s (too_large e) = inr (_, refl, refl, omega arith)
  body-IsDocumented s (unreadable e) = inr (_, refl, refl, omega arith)
  body-IsDocumented s (whole body) = elim (Bool-cases (text.trim body == "")) [
    | inl blank ↦ rw blank (inr (_, refl, refl, omega arith))
    | inr given ↦ rw given (verify-IsDocumented s (verify (text.trim body)))
  ]

  -- Every answer of the handler is a 202 without a body, or a failure status with a problem document
  -- that repeats the status.
  handler-IsDocumented :
      (s : S) (r : PushRequest)
      → IsDocumented (push_handler text error_text verify deliver_set os s r).0
  unfolding push_handler write_problem
  handler-IsDocumented s r = elim (Bool-cases (r.method == "POST")) [
    | inl post ↦
        rw post
          (elim (Bool-cases
            (has_push_media_type text error_text verify deliver_set os r.content_type)) [
              | inl typed ↦
                  rw typed
                    (body-IsDocumented s (read_push_body text error_text verify deliver_set os r))
              | inr other ↦ rw other (inr (_, refl, refl, omega arith))
            ])
    | inr other ↦ rw other (inr (_, refl, refl, omega arith))
  ]

  -- What a pushed SET comes to, for a driver that reads the answer: delivered when the Sink took it,
  -- to be tried again when the Sink refused it for now, and given up when the Sink refused it for good
  -- or the verifier rejected it.
  abbrev pub by_answer : String → Option Error → Verdict
  by_answer body none = delivered
  by_answer body (some e) =
      if is e permanent_sink
      then rejected (push_http 400 body)
      else transient 0 (push_http 503 body)

  abbrev pub outcome : S → String → Result String → Verdict
  outcome s body (err e) = rejected (push_http 400 body)
  outcome s body (ok payload) = by_answer body (deliver_set s payload).0

  sink-outcome :
      (std : HeaderReading) (o : Option Error) (body : String) (jitter : Int64 → Int64)
      (sleep : Int64 → Option Error)
      → std.trim "" ≡ ""
      → verdict std
          (answered (answer_sink text error_text verify deliver_set os o).status body jitter sleep)
        ≡ by_answer body o
  unfolding answer_sink write_problem verdict attempt classify_status push_retry_after as_permanent
  sink-outcome std none body jitter sleep blank = refl
  sink-outcome std (some e) body jitter sleep blank = elim (Bool-cases (is e permanent_sink)) [
    | inl final ↦ rw final refl
    | inr brief ↦ rw brief (rw (blank, push_retry_after) refl)
  ]

  verify-outcome :
      (std : HeaderReading) (s : S) (v : Result String) (body : String) (jitter : Int64 → Int64)
      (sleep : Int64 → Option Error)
      → std.trim "" ≡ ""
      → verdict std (
          answered
            (answer_verify text error_text verify deliver_set os s v).0.status
            body
            jitter
            sleep)
        ≡ outcome s body v
  unfolding answer_verify write_problem verdict attempt classify_status as_permanent
  verify-outcome std s (err e) body jitter sleep blank = refl
  verify-outcome std s (ok payload) body jitter sleep blank =
      sink-outcome std (deliver_set s payload).0 body jitter sleep blank

  -- Where a handler gets a POST of the right media type with a token in it, the driver that posted it
  -- reads the handler's status as what became of the token.
  pub driver_reads_handler :
      (std : HeaderReading) (s : S) (r : PushRequest) (token body : String) (jitter : Int64 → Int64)
      (sleep : Int64 → Option Error)
      → std.trim "" ≡ ""
      → (r.method == "POST") ≡ true
      → has_push_media_type text error_text verify deliver_set os r.content_type ≡ true
      → read_push_body text error_text verify deliver_set os r ≡ whole token
      → (text.trim token == "") ≡ false
      → verdict std (
          answered
            (push_handler text error_text verify deliver_set os s r).0.status
            body
            jitter
            sleep)
        ≡ outcome s body (verify (text.trim token))
  unfolding push_handler answer_body
  driver_reads_handler std s r token body jitter sleep blank post typed read given =
      rw (post, typed)
        (rw (read, answer_body)
          (rw given (verify-outcome std s (verify (text.trim token)) body jitter sleep blank)))

  taken_sink :
      (o : Option Error)
      → (answer_sink text error_text verify deliver_set os o).status ≡ 202
      → o ≡ none
  unfolding answer_sink write_problem
  taken_sink none h = refl
  taken_sink (some e) h = elim (Bool-cases (is e permanent_sink)) [
    | inl final ↦ ground (arith, rw final at h)
    | inr brief ↦ ground (arith, rw brief at h)
  ]

  taken_verify :
      (s : S) (v : Result String)
      → (answer_verify text error_text verify deliver_set os s v).0.status ≡ 202
      → (payload : String) × (v ≡ ok payload)
        × (deliver_set s payload
            ≡ (none, (answer_verify text error_text verify deliver_set os s v).1))
  unfolding answer_verify write_problem
  taken_verify s (err e) h = ground (arith, h)
  taken_verify s (ok payload) h = (
    payload,
    refl,
    ap (λ o. (o, (deliver_set s payload).1)) (taken_sink (deliver_set s payload).0 h),
  )

  taken_body :
      (s : S) (b : BodyRead)
      → (answer_body text error_text verify deliver_set os s b).0.status ≡ 202
      → (token payload : String) × (b ≡ whole token)
        × (verify (text.trim token) ≡ ok payload)
        × (deliver_set s payload
            ≡ (none, (answer_body text error_text verify deliver_set os s b).1))
  unfolding answer_body write_problem
  taken_body s (too_large e) h = ground (arith, h)
  taken_body s (unreadable e) h = ground (arith, h)
  taken_body s (whole token) h = elim (Bool-cases (text.trim token == "")) [
    | inl blank ↦ ground (arith, rw blank at h)
    | inr given ↦
        let (payload, valid, took) = taken_verify s (verify (text.trim token)) (rw given at h) in
        rw given (token, payload, refl, valid, took)
  ]

  -- A 202 is given only for a POST of the right media type whose body is a token that the verifier
  -- accepts and whose payload the Sink took.
  pub accepted_means_taken :
      (s : S) (r : PushRequest)
      → (push_handler text error_text verify deliver_set os s r).0.status ≡ 202
      → (r.method == "POST") ≡ true
        × has_push_media_type text error_text verify deliver_set os r.content_type ≡ true
        × ((token payload : String) × (read_push_body text error_text verify deliver_set os r
              ≡ whole token)
            × (verify (text.trim token) ≡ ok payload)
            × (deliver_set s payload
                ≡ (none, (push_handler text error_text verify deliver_set os s r).1)))
  unfolding push_handler write_problem
  accepted_means_taken s r h = elim (Bool-cases (r.method == "POST")) [
    | inl post ↦
        elim (Bool-cases
          (has_push_media_type text error_text verify deliver_set os r.content_type)) [
            | inl typed ↦
                rw (post, typed)
                  (
                    refl,
                    refl,
                    taken_body s (read_push_body text error_text verify deliver_set os r)
                        (rw (post, typed) at h),
                  )
            | inr other ↦ ground (arith, rw (post, other) at h)
          ]
    | inr other ↦ ground (arith, rw other at h)
  ]
