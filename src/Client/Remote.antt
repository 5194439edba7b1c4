-- ===== src/Client/Remote.antt =====
-- client/client.go and transmitter/mux.go: a client whose transport is the mux of a Transmitter, as the
-- loopback of internal/interop has it. `net/http` hands over the request's method, path, query and
-- body, and the response's status and body.
pub mod Answers
pub mod Exchange
pub mod Configs
pub mod Streams
pub mod Nameless
pub mod Mirror
mod Examples
use go_ssf.Prelude.{Bool, true, false, Option, none, some, List, [], String, ◌==◌, ◌≡◌, ◌≢◌}
use go_ssf.Prelude.Map.{Map}
use go_ssf.Errors.{Error, Sentinel, Result, ok, err, is}
use go_ssf.Wire.{
  RawMessage, StreamConfig, StatusResponse, StatusUpdateRequest, AddSubjectRequest,
  RemoveSubjectRequest, VerificationRequest, PollRequest, PollResponse,
}
use go_ssf.Transmitter.Interface.{Transmitter, Page, Done}
use go_ssf.Transmitter.Http.{
  Request, HttpResponse, Coding, Codings, ListConfigResponse, Library, StreamScope, or_empty,
}
use go_ssf.Transmitter.Handlers.{not_nil}
use go_ssf.Transmitter.Mux.{mux_handler}
use go_ssf.Client.Errors.{Decoding, Response}
use go_ssf.Client.Errors.Crossing.{carried, finds, just}
use go_ssf.Client.Methods.{http_client}
use go_ssf.Client.Requests.{
  Url, Net, ClientRequest, Answer, Doer, HttpClient, default_endpoints, as_directory, trim_slash,
}

-- What reading a request's body under the limit gives.
abbrev pub Reader : Type 0
Reader = String → Result String

abbrev pub received : Reader → ClientRequest → Request
received read r = record {
  method = r.method;
  path = r.url.path;
  query = r.query;
  authorization = r.authorization;
  content_type = r.content_type;
  body = read (or_empty r.body);
}

abbrev pub arrives : HttpResponse → Answer
arrives a = record {
  response = record { status_code = a.status; content_type = a.content_type; body = ok a.body };
  stream = ok a.body;
  is_empty = a.body == "";
}

-- A call of the interface, with its arguments but the pointers that are nil.
pub data Call (Identifier : Type 0) : Type 0 where
  get_config list_config delete_config : String → Call Identifier
  create_config update_config : StreamConfig → Call Identifier
  get_status : String → RawMessage → Call Identifier
  update_status : String → StatusUpdateRequest → Call Identifier
  add_subject : String → AddSubjectRequest Identifier → Call Identifier
  remove_subject : String → RemoveSubjectRequest Identifier → Call Identifier
  verify : String → VerificationRequest → Call Identifier
  poll_events : String → PollRequest → Call Identifier

abbrev pub endpoint : {Identifier : Type 0} → Call Identifier → String
endpoint (get_config id) = "/streams"
endpoint (list_config token) = "/streams"
endpoint (delete_config id) = "/streams"
endpoint (create_config cfg) = "/streams"
endpoint (update_config cfg) = "/streams"
endpoint (get_status id subject) = "/streams/status"
endpoint (update_status id req) = "/streams/status"
endpoint (add_subject id req) = "/streams/subjects:add"
endpoint (remove_subject id req) = "/streams/subjects:remove"
endpoint (verify id req) = "/streams/verify"
endpoint (poll_events id req) = "/streams/poll"

-- The type of a call's value.
abbrev pub Reply : {Identifier : Type 0} → Call Identifier → Type 0
Reply (get_config id) = StreamConfig
Reply (list_config token) = Page
Reply (delete_config id) = Done
Reply (create_config cfg) = StreamConfig
Reply (update_config cfg) = StreamConfig
Reply (get_status id subject) = StatusResponse
Reply (update_status id req) = StatusResponse
Reply (add_subject id req) = Done
Reply (remove_subject id req) = Done
Reply (verify id req) = Done
Reply (poll_events id req) = PollResponse

abbrev pub invoke :
    {Identifier S : Type 0}
    → Transmitter Identifier S
    → (k : Call Identifier) → S
    → Result (Reply k) × S
invoke t (get_config id) s = t.get_config s id
invoke t (list_config token) s = t.list_config s token
invoke t (delete_config id) s = t.delete_config s id
invoke t (create_config cfg) s = t.create_config s (some cfg)
invoke t (update_config cfg) s = t.update_config s (some cfg)
invoke t (get_status id subject) s = t.get_status s id subject
invoke t (update_status id req) s = t.update_status s id (some req)
invoke t (add_subject id req) s = t.add_subject s id (some req)
invoke t (remove_subject id req) s = t.remove_subject s id (some req)
invoke t (verify id req) s = t.verify s id (some req)
invoke t (poll_events id req) s = t.poll_events s id (some req)

-- The JSON of a value is not empty, is read whole, and is decoded to the value.
abbrev pub Travels : {A : Type 0} → Reader → Coding A → A → Type 0
Travels read c v =
    (b : String) × (c.marshal v ≡ ok b)
    × ((b == "") ≡ false)
    × (c.unmarshal b ≡ ok v)
    × (c.decode (ok b) ≡ ok v)
    × (read b ≡ ok b)

abbrev pub TravelsIfOk : {A : Type 0} → Reader → Coding A → Result A → Type 0
TravelsIfOk read c (ok v) = Travels read c v
TravelsIfOk read c (err e) = Unit

abbrev pub IsNamed : String → Type 0
IsNamed id = (id == "") ≡ false

-- A subject of a query: none, or a valid JSON text.
abbrev pub IsSubject : (String → Bool) → RawMessage → Type 0
IsSubject valid none = Unit
IsSubject valid (some s) = ((s == "") ≡ false) × (valid s ≡ true)

-- What a call needs of its arguments: a stream that is named, and bodies that travel.
abbrev pub IsSendable :
    {Identifier : Type 0} → Reader → Codings Identifier → Call Identifier → Type 0
IsSendable read c (get_config id) = IsNamed id
IsSendable read c (list_config token) = Unit
IsSendable read c (delete_config id) = IsNamed id
IsSendable read c (create_config cfg) = Travels read c.config cfg
IsSendable read c (update_config cfg) = IsNamed cfg.stream_id × Travels read c.config cfg
IsSendable read c (get_status id subject) = IsNamed id × IsSubject c.valid subject
IsSendable read c (update_status id req) = IsNamed id × Travels read c.status_update req
IsSendable read c (add_subject id req) = IsNamed id × Travels read c.adding req
IsSendable read c (remove_subject id req) = IsNamed id × Travels read c.removing req
IsSendable read c (verify id req) = IsNamed id × Travels read c.verification req
IsSendable read c (poll_events id req) = IsNamed id × Travels read c.polling req

abbrev pub listing_of : Result Page → Result ListConfigResponse
listing_of (ok page) = ok (not_nil page)
listing_of (err e) = err e

-- What a call needs of the Transmitter's own result: a value that travels.
abbrev pub IsAnswerable :
    {Identifier : Type 0}
    → Reader
    → Codings Identifier
    → (k : Call Identifier) → Result (Reply k)
    → Type 0
IsAnswerable read c (get_config id) r = TravelsIfOk read c.config r
IsAnswerable read c (list_config token) r = TravelsIfOk read c.listing (listing_of r)
IsAnswerable read c (delete_config id) r = Unit
IsAnswerable read c (create_config cfg) r = TravelsIfOk read c.config r
IsAnswerable read c (update_config cfg) r = TravelsIfOk read c.config r
IsAnswerable read c (get_status id subject) r = TravelsIfOk read c.status r
IsAnswerable read c (update_status id req) r = TravelsIfOk read c.status r
IsAnswerable read c (add_subject id req) r = Unit
IsAnswerable read c (remove_subject id req) r = Unit
IsAnswerable read c (verify id req) r = Unit
IsAnswerable read c (poll_events id req) r = TravelsIfOk read c.batch r

-- The value as the client's caller has it: a nil page comes as an empty one.
abbrev pub seen_as : {Identifier : Type 0} → (k : Call Identifier) → Reply k → Reply k
seen_as (list_config token) page = ((not_nil page).streams, (not_nil page).next_page_token)
seen_as (get_config id) v = v
seen_as (delete_config id) v = v
seen_as (create_config cfg) v = v
seen_as (update_config cfg) v = v
seen_as (get_status id subject) v = v
seen_as (update_status id req) v = v
seen_as (add_subject id req) v = v
seen_as (remove_subject id req) v = v
seen_as (verify id req) v = v
seen_as (poll_events id req) v = v

-- A result as its maker had it: the same value, or an error that matches of all sentinels the one that
-- the maker's error carries over the wire.
abbrev pub Agrees : {A : Type 0} → (A → A) → Result A → Result A → Type 0
Agrees view remote (ok v) = remote ≡ ok (view v)
Agrees view remote (err e) =
    (d : Error) × (remote ≡ err d) × ((t : Sentinel) → is d t ≡ finds (just (carried e)) t)

-- A path that reaches the server as it is, through `net/url`.
abbrev pub Reaches : Net → Url → String → Type 0
Reaches net base path =
    (ref : Url) × (net.parse (trim_slash path) ≡ ok ref)
    × ((method : String)
        → (u : Url) × (net.new_request method
              (net.resolve_reference (record base { path = as_directory base.path }) ref)
            ≡ ok u)
          × (u.path ≡ path))

-- A Transmitter behind its mux, and a client of it: the packages that both sides use, the capped reading of
-- a body, the authorization, the answer of `http.ServeMux` to other paths, and the client's base URL and
-- static Authorization header.
pub record Loopback (Identifier S : Type 0) : Type 0 where
  pub lib : Library Identifier
  pub decoding : Decoding
  pub net : Net
  pub read : Reader
  pub transmitter : Transmitter Identifier S
  pub auth : Request → Result StreamScope
  pub not_found : HttpResponse
  pub base : Url
  pub authz : String

module _ {Identifier S : Type 0} (x : Loopback Identifier S) where
  -- `httptest.NewServer` of the default mux, as the transport of a client
  unfoldable pub loopback : Doer S
  loopback s r =
      let a = mux_handler x.lib x.transmitter [] x.auth x.not_found s (received x.read r) in
      (ok (arrives a.0), a.1)

  -- A client of the loopback with the default paths.
  unfoldable pub loopback_client : HttpClient S
  loopback_client = record {
    base_url = x.base;
    doer = loopback;
    authz_header = x.authz;
    paths = default_endpoints;
  }

  -- The client as a Transmitter.
  unfoldable pub remote : Transmitter Identifier S
  remote = http_client x.lib.codings x.decoding x.net loopback_client

  -- A call through the client gives what the call of the Transmitter gives, and the same state.
  abbrev pub IsMirrored : Call Identifier → S → Type 0
  IsMirrored k s =
      Agrees (seen_as k) (invoke remote k s).0 (invoke x.transmitter k s).0
      × ((invoke remote k s).1 ≡ (invoke x.transmitter k s).1)
