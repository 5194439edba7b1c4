-- ===== src/Client/Remote/Streams.antt =====
-- client/client.go against transmitter/handlers.go: the calls on a stream through the client.
use go_ssf.Prelude.{true, false, none, some, [], ◌∷◌, String, ◌==◌, ◌≡◌, refl}
use go_ssf.Prelude.Map.{get}
use go_ssf.Wire.{
  RawMessage, StatusUpdateRequest, AddSubjectRequest, RemoveSubjectRequest, VerificationRequest,
  PollRequest,
}
use go_ssf.Transmitter.Http.{Request, run_auth}
use go_ssf.Transmitter.Mux.{serve}
use go_ssf.Transmitter.Handlers.{
  status_handler, status_methods, handle_get_status, handle_update_status, posted_for,
  add_subject_handler, remove_subject_handler, verification_handler, poll_handler, with_stream,
  with_body,
}
use go_ssf.Client.Requests.{marshalled}
use go_ssf.Client.Methods.{
  call, http_client, zero_status, zero_batch, post_body, zero_config, zero_listing, page_query,
  for_stream,
}
use go_ssf.Client.Methods
use go_ssf.Client.Remote.{
  Call, IsSendable, IsAnswerable, Loopback, remote, IsMirrored, Reaches, loopback_client,
}
use go_ssf.Client.Remote.Answers.{reply_read, reply_empty_read}
use go_ssf.Client.Remote.Exchange.{request_of, exchange, marshalled_as, decoded_as}

module _ {Identifier S : Type 0} (x : Loopback Identifier S)
    (allows : (r : Request) → run_auth x.lib (some x.auth) r ≡ none) where
  status_asked :
      (id subject : String) (s : S)
      → Reaches x.net x.base "/streams/status"
      → (id == "") ≡ false
      → (subject == "") ≡ false
      → x.lib.codings.valid subject ≡ true
      → IsAnswerable x.read x.lib.codings
          (Call.get_status id (some subject))
          (x.transmitter.get_status s id (some subject)).0
      → IsMirrored x (Call.get_status id (some subject)) s
  unfolding remote loopback_client http_client Methods.get_status serve status_handler
      status_methods handle_get_status with_stream marshalled get
  status_asked id subject s reach named some_text valid answer = rw some_text (
      rw
        (exchange x zero_status (some x.lib.codings.status) "GET" "/streams/status"
          (("stream_id", id) ∷ ("subject", subject) ∷ []) none none s refl reach refl)
        (rw
          (allows (
            request_of x "GET" "/streams/status" (("stream_id", id) ∷ ("subject", subject) ∷ [])
              none))
          (rw named (
            rw some_text (
              rw valid (
                reply_read x.lib x.decoding x.read zero_status x.lib.codings.status
                  (x.transmitter.get_status s id (some subject)) answer))))))

  pub get_status-IsMirrored :
      (id : String) (subject : RawMessage) (s : S)
      → Reaches x.net x.base "/streams/status"
      → IsSendable x.read x.lib.codings (Call.get_status id subject)
      → IsAnswerable x.read x.lib.codings
          (Call.get_status id subject)
          (x.transmitter.get_status s id subject).0
      → IsMirrored x (Call.get_status id subject) s
  unfolding remote loopback_client http_client Methods.get_status serve status_handler
      status_methods handle_get_status with_stream marshalled get
  get_status-IsMirrored id (some subject) s reach (named, subject_sent) answer =
      status_asked id subject s reach named subject_sent.0 subject_sent.1 answer
  get_status-IsMirrored id none s reach (named, any) answer =
      rw
        (exchange x zero_status (some x.lib.codings.status) "GET" "/streams/status" (for_stream id)
          none none s refl reach refl)
        (rw (allows (request_of x "GET" "/streams/status" (for_stream id) none)) (
          rw named (
            reply_read x.lib x.decoding x.read zero_status x.lib.codings.status
              (x.transmitter.get_status s id none) answer)))

  pub update_status-IsMirrored :
      (id : String) (req : StatusUpdateRequest) (s : S)
      → Reaches x.net x.base "/streams/status"
      → IsSendable x.read x.lib.codings (Call.update_status id req)
      → IsAnswerable x.read x.lib.codings
          (Call.update_status id req)
          (x.transmitter.update_status s id (some req)).0
      → IsMirrored x (Call.update_status id req) s
  unfolding remote loopback_client http_client Methods.update_status post_body serve status_handler
      status_methods handle_update_status with_stream with_body get
  update_status-IsMirrored id req s reach (named, travels) answer =
      rw
        (exchange x zero_status (some x.lib.codings.status) "POST" "/streams/status" (for_stream id)
          (some (x.lib.codings.status_update.marshal req)) (some travels.0) s refl reach
          (marshalled_as x x.lib.codings.status_update req travels.0 travels.1))
        (rw (allows (request_of x "POST" "/streams/status" (for_stream id) (some travels.0))) (
          rw named (
            rw (decoded_as x x.lib.codings.status_update req travels) (
              reply_read x.lib x.decoding x.read zero_status x.lib.codings.status
                (x.transmitter.update_status s id (some req)) answer))))

  pub add_subject-IsMirrored :
      (id : String) (req : AddSubjectRequest Identifier) (s : S)
      → Reaches x.net x.base "/streams/subjects:add"
      → IsSendable x.read x.lib.codings (Call.add_subject id req)
      → IsMirrored x (Call.add_subject id req) s
  unfolding remote loopback_client http_client Methods.add_subject post_body serve
      add_subject_handler posted_for with_stream with_body get
  add_subject-IsMirrored id req s reach (named, travels) =
      rw
        (exchange x tt none "POST" "/streams/subjects:add" (for_stream id)
          (some (x.lib.codings.adding.marshal req)) (some travels.0) s refl reach
          (marshalled_as x x.lib.codings.adding req travels.0 travels.1))
        (rw (allows (request_of x "POST" "/streams/subjects:add" (for_stream id) (some travels.0)))
          (rw named (
            rw (decoded_as x x.lib.codings.adding req travels) (
              reply_empty_read x.lib x.decoding x.read
                (x.transmitter.add_subject s id (some req))))))

  pub remove_subject-IsMirrored :
      (id : String) (req : RemoveSubjectRequest Identifier) (s : S)
      → Reaches x.net x.base "/streams/subjects:remove"
      → IsSendable x.read x.lib.codings (Call.remove_subject id req)
      → IsMirrored x (Call.remove_subject id req) s
  unfolding remote loopback_client http_client Methods.remove_subject post_body serve
      remove_subject_handler posted_for with_stream with_body get
  remove_subject-IsMirrored id req s reach (named, travels) =
      rw
        (exchange x tt none "POST" "/streams/subjects:remove" (for_stream id)
          (some (x.lib.codings.removing.marshal req)) (some travels.0) s refl reach
          (marshalled_as x x.lib.codings.removing req travels.0 travels.1))
        (rw
          (allows (request_of x "POST" "/streams/subjects:remove" (for_stream id) (some travels.0)))
          (rw named (
            rw (decoded_as x x.lib.codings.removing req travels) (
              reply_empty_read x.lib x.decoding x.read
                (x.transmitter.remove_subject s id (some req))))))

  pub verify-IsMirrored :
      (id : String) (req : VerificationRequest) (s : S)
      → Reaches x.net x.base "/streams/verify"
      → IsSendable x.read x.lib.codings (Call.verify id req)
      → IsMirrored x (Call.verify id req) s
  unfolding remote loopback_client http_client Methods.verify post_body serve verification_handler
      posted_for with_stream with_body get
  verify-IsMirrored id req s reach (named, travels) =
      rw
        (exchange x tt none "POST" "/streams/verify" (for_stream id)
          (some (x.lib.codings.verification.marshal req)) (some travels.0) s refl reach
          (marshalled_as x x.lib.codings.verification req travels.0 travels.1))
        (rw (allows (request_of x "POST" "/streams/verify" (for_stream id) (some travels.0))) (
          rw named (
            rw (decoded_as x x.lib.codings.verification req travels)
              (reply_empty_read x.lib x.decoding x.read (x.transmitter.verify s id (some req))))))

  pub poll_events-IsMirrored :
      (id : String) (req : PollRequest) (s : S)
      → Reaches x.net x.base "/streams/poll"
      → IsSendable x.read x.lib.codings (Call.poll_events id req)
      → IsAnswerable x.read x.lib.codings
          (Call.poll_events id req)
          (x.transmitter.poll_events s id (some req)).0
      → IsMirrored x (Call.poll_events id req) s
  unfolding remote loopback_client http_client Methods.poll_events post_body serve poll_handler
      posted_for with_stream with_body get
  poll_events-IsMirrored id req s reach (named, travels) answer =
      rw
        (exchange x zero_batch (some x.lib.codings.batch) "POST" "/streams/poll" (for_stream id)
          (some (x.lib.codings.polling.marshal req)) (some travels.0) s refl reach
          (marshalled_as x x.lib.codings.polling req travels.0 travels.1))
        (rw (allows (request_of x "POST" "/streams/poll" (for_stream id) (some travels.0))) (
          rw named (
            rw (decoded_as x x.lib.codings.polling req travels) (
              reply_read x.lib x.decoding x.read zero_batch x.lib.codings.batch
                (x.transmitter.poll_events s id (some req)) answer))))
