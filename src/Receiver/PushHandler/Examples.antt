-- ===== src/Receiver/PushHandler/Examples.antt =====
-- receiver/push.go: the theorems on a handler that is given a POST of a token, with a Sink that is busy
-- or that takes it.
use go_ssf.Prelude.{true, Option, none, some, List, [], ◌∷◌, String, ◌≡◌, refl, ◌==◌}
use go_ssf.Errors.{Error, message, Result, ok, is, push_http}
use go_ssf.RetryAfter.{HeaderReading}
use go_ssf.Transmitter.Push.{verdict, transient}
use go_ssf.Receiver.PushHandler.{
  whole, PushRequest, TextReading, has_push_media_type, read_push_body, push_handler, max_bytes_of,
  answer_body, answer_verify, answer_sink, push_media_type,
}
use go_ssf.Receiver.PushHandler.Delivered.{answered, driver_reads_handler, accepted_means_taken}

abbrev text : TextReading
text = record { trim = λ t. t; before_semicolon = λ t. t; equal_fold = λ a b. a == b }

abbrev error_text : Error → String
error_text e = "failed"

abbrev verify : String → Result String
verify token = ok token

abbrev busy : List String → String → Option Error × List String
busy seen payload = (some (message "database down"), seen)

abbrev ready : List String → String → Option Error × List String
ready seen payload = (none, payload ∷ seen)

abbrev pushed : PushRequest
pushed = record { method = "POST"; content_type = push_media_type; body = λ cap. whole "a.b.c" }

abbrev std : HeaderReading
std = record { trim = λ t. t; atoi = λ t. none; until = λ t. none }

driver_reads_handler_example :
    verdict std (
      answered
        (push_handler text error_text verify busy [] [] pushed).0.status
        "busy"
        (λ d. d)
        (λ d. none))
    ≡ transient 0 (push_http 503 "busy")
unfolding is has_push_media_type read_push_body max_bytes_of
driver_reads_handler_example =
    driver_reads_handler text error_text verify busy [] std [] pushed "a.b.c" "busy" (λ d. d)
      (λ d. none) refl refl refl refl refl

accepted_means_taken_example :
    ((pushed.method == "POST") ≡ true)
    × (has_push_media_type text error_text verify ready [] pushed.content_type ≡ true)
    × ((token payload : String) × (read_push_body text error_text verify ready [] pushed
          ≡ whole token)
        × (verify token ≡ ok payload)
        × (ready [] payload ≡ (none, (push_handler text error_text verify ready [] [] pushed).1)))
unfolding push_handler has_push_media_type read_push_body max_bytes_of answer_body answer_verify
    answer_sink
accepted_means_taken_example = accepted_means_taken text error_text verify ready [] [] pushed refl
