-- ===== src/Client/Methods.antt =====
-- client/client.go: the eleven methods of the client. They have the shape of the Transmitter interface,
-- so the client is a Transmitter whose state is that of its transport.
use go_ssf.Prelude.{Option, none, some, [], ◌∷◌, String, ◌==◌, if◌then◌else◌}
use go_ssf.Prelude.Map.{Map}
use go_ssf.Errors.{Result, ok, err}
use go_ssf.Wire.{
  RawMessage, StreamConfig, StatusResponse, StatusUpdateRequest, AddSubjectRequest,
  RemoveSubjectRequest, VerificationRequest, PollRequest, PollResponse,
}
use go_ssf.Transmitter.Interface.{Transmitter, Page, Done}
use go_ssf.Transmitter.Http.{Coding, Codings, ListConfigResponse}
use go_ssf.Client.Errors.{Decoding}
use go_ssf.Client.Requests.{Net, ClientRequest, HttpClient, new_request, do_request, invalid}

-- The value that each `var out` starts from.
abbrev pub zero_config : StreamConfig
zero_config = record {
  stream_id = "";
  iss = "";
  aud = none;
  events_supported = none;
  events_requested = none;
  events_delivered = none;
  delivery = record { method = ""; endpoint_url = ""; authorization_header = ""; unknown = none };
  min_verification_interval = 0;
  format = "";
}

abbrev pub zero_listing : ListConfigResponse
zero_listing = record { streams = none; next_page_token = "" }

abbrev pub zero_status : StatusResponse
zero_status = record { status = ""; reason = ""; subject = none }

abbrev pub zero_batch : PollResponse
zero_batch = record { sets = []; more_available = none }

abbrev pub for_stream : String → Map String
for_stream id = ("stream_id", id) ∷ []

abbrev pub page_query : String → Map String
page_query token = if token == "" then [] else (("page_token", token) ∷ [])

abbrev pub status_query : String → RawMessage → Map String
status_query id none = for_stream id
status_query id (some s) =
    if s == "" then for_stream id else (("stream_id", id) ∷ ("subject", s) ∷ [])

abbrev pub first_page : Result ListConfigResponse → Result Page
first_page (err e) = err e
first_page (ok l) = ok (l.streams, l.next_page_token)

-- A request that could not be built ends the method.
abbrev pub sent :
    {W A : Type 0} → W → (ClientRequest → Result A × W) → Result ClientRequest → Result A × W
sent w k (err e) = (err e, w)
sent w k (ok r) = k r

-- The interface `Client`, whose methods have the signatures of the Transmitter's.
abbrev pub Client : Type 0 → Type 0 → Type 0
Client Identifier W = Transmitter Identifier W

module _ {Identifier W : Type 0} (codings : Codings Identifier) (d : Decoding) (net : Net)
    (c : HttpClient W) where
  -- A request to a path, with the type of its answer.
  abbrev pub call :
      {A : Type 0}
      → A
      → Option (Coding A)
      → String
      → String
      → Map String
      → Option (Result String)
      → W
      → Result A × W
  call zero_value out method path query body w =
      sent w (do_request d c zero_value out w) (new_request net c method path query body)

  unfoldable pub get_config : W → String → Result StreamConfig × W
  get_config w id =
      call zero_config (some codings.config) "GET" c.paths.config (for_stream id) none w

  unfoldable pub list_config : W → String → Result Page × W
  list_config w token =
      let a =
        call zero_listing (some codings.listing) "GET" c.paths.config (page_query token) none w in
      (first_page a.0, a.1)

  unfoldable pub create_config : W → Option StreamConfig → Result StreamConfig × W
  create_config w none = (invalid "cfg non-nil" "cfg" "cfg is required", w)
  create_config w (some cfg) =
      call zero_config (some codings.config) "POST" c.paths.config []
        (some (codings.config.marshal cfg)) w

  unfoldable pub update_config : W → Option StreamConfig → Result StreamConfig × W
  update_config w none = (invalid "cfg non-nil" "cfg" "cfg is required", w)
  update_config w (some cfg) =
      if cfg.stream_id == ""
      then (
        invalid "cfg.StreamID non-empty" "stream_id"
            "cfg.StreamID is required to identify the target stream",
        w,
      )
      else call zero_config (some codings.config) "PATCH" c.paths.config (for_stream cfg.stream_id)
          (some (codings.config.marshal cfg)) w

  unfoldable pub delete_config : W → String → Result Done × W
  delete_config w id = call tt none "DELETE" c.paths.config (for_stream id) none w

  unfoldable pub get_status : W → String → RawMessage → Result StatusResponse × W
  get_status w id subject =
      call zero_status (some codings.status) "GET" c.paths.status (status_query id subject) none w

  -- The methods that POST a body for a stream; a nil body is refused.
  unfoldable pub post_body :
      {A B : Type 0}
      → A
      → Option (Coding A)
      → Coding B
      → String
      → W
      → String
      → Option B
      → Result A × W
  post_body zero_value out coding path w id none =
      (invalid "body non-nil" "body" "body is required", w)
  post_body zero_value out coding path w id (some v) =
      call zero_value out "POST" path (for_stream id) (some (coding.marshal v)) w

  unfoldable pub update_status : W → String → Option StatusUpdateRequest → Result StatusResponse × W
  update_status w id req =
      post_body zero_status (some codings.status) codings.status_update c.paths.status w id req

  unfoldable pub add_subject : W → String → Option (AddSubjectRequest Identifier) → Result Done × W
  add_subject w id req = post_body tt none codings.adding c.paths.add_subject w id req

  unfoldable pub remove_subject :
      W → String → Option (RemoveSubjectRequest Identifier) → Result Done × W
  remove_subject w id req = post_body tt none codings.removing c.paths.remove_subject w id req

  unfoldable pub verify : W → String → Option VerificationRequest → Result Done × W
  verify w id req = post_body tt none codings.verification c.paths.verify w id req

  unfoldable pub poll_events : W → String → Option PollRequest → Result PollResponse × W
  poll_events w id req =
      post_body zero_batch (some codings.batch) codings.polling c.paths.poll w id req

  -- `httpClient` as a `Client`
  unfoldable pub http_client : Client Identifier W
  http_client = record {
    get_config = get_config;
    list_config = list_config;
    create_config = create_config;
    update_config = update_config;
    delete_config = delete_config;
    get_status = get_status;
    update_status = update_status;
    add_subject = add_subject;
    remove_subject = remove_subject;
    verify = verify;
    poll_events = poll_events;
  }
