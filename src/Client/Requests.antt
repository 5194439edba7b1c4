-- ===== src/Client/Requests.antt =====
-- client/client.go: the construction of a client, the requests it sends, and what it makes of a
-- response. `net/url` and `http.NewRequestWithContext` are a parameter, and the transport is a function on a
-- state of its own. A query is the map that is encoded, and a body the bytes.
mod Usable
mod Examples
use Prim.Native.Char.{code}
use Prim.Native.String.{◌++◌}
use go_ssf.Prelude.{
  ℕ, Bool, true, false, not, ◌&&◌, ◌||◌, Option, none, some, List, [], ◌∷◌, String, ltb, leb, eqb,
  ◌==◌, if◌then◌else◌,
}
use go_ssf.Prelude.Map.{Map}
use go_ssf.Errors.{Error, Result, ok, err, wrap, validation, ◌>>=◌}
use go_ssf.Transmitter.Http.{Coding}
use go_ssf.Client.Errors.{Decoding, Response, parse_http_error}

-- `url.URL`; `rest` is its other fields.
pub record Url : Type 0 where
  pub scheme : String
  pub host : String
  pub path : String
  pub rest : String

-- `url.Parse`, `URL.ResolveReference`, what `http.NewRequestWithContext` makes of a method and a URL's
-- text, and `%q`.
pub record Net : Type 0 where
  pub parse : String → Result Url
  pub resolve_reference : Url → Url → Url
  pub new_request : String → Url → Result Url
  pub quote : String → String

-- `http.Request`, where `none` is a header that is not set and a nil body.
pub record ClientRequest : Type 0 where
  pub method : String
  pub url : Url
  pub query : Map String
  pub accept : String
  pub content_type : Option String
  pub authorization : Option String
  pub body : Option String

-- `http.Response`: what the error parser reads, the body as the decoder reads it, which has no cap,
-- and whether `ContentLength` is 0.
pub record Answer : Type 0 where
  pub response : Response
  pub stream : Result String
  pub is_empty : Bool

-- `HTTPDoer`
abbrev pub Doer : Type 0 → Type 0
Doer W = W → ClientRequest → Result Answer × W

pub record EndpointPaths : Type 0 where
  pub config : String
  pub status : String
  pub add_subject : String
  pub remove_subject : String
  pub verify : String
  pub poll : String

abbrev pub default_endpoints : EndpointPaths
default_endpoints = record {
  config = "/streams";
  status = "/streams/status";
  add_subject = "/streams/subjects:add";
  remove_subject = "/streams/subjects:remove";
  verify = "/streams/verify";
  poll = "/streams/poll";
}

pub record HttpClient (W : Type 0) : Type 0 where
  pub base_url : Url
  pub doer : Doer W
  pub authz_header : String
  pub paths : EndpointPaths

abbrev pub or_default : String → String → String
or_default p d = if p == "" then d else p

-- `WithEndpoints`, on the paths so far
unfoldable pub with_endpoints : EndpointPaths → EndpointPaths → EndpointPaths
with_endpoints paths current = record {
  config = or_default paths.config current.config;
  status = or_default paths.status current.status;
  add_subject = or_default paths.add_subject current.add_subject;
  remove_subject = or_default paths.remove_subject current.remove_subject;
  verify = or_default paths.verify current.verify;
  poll = or_default paths.poll current.poll;
}

-- What the options set, before the doer is checked.
pub record Settings (W : Type 0) : Type 0 where
  pub doer : Option (Doer W)
  pub authz_header : String
  pub paths : EndpointPaths

pub data ClientOption (W : Type 0) : Type 0 where
  http_doer : Option (Doer W) → ClientOption W
  authorization_header : String → ClientOption W
  endpoints : EndpointPaths → ClientOption W

abbrev pub invalid : {A : Type 0} → String → String → String → Result A
invalid rule field reason =
    err (validation (record { rule = rule; field = field; reason = reason }))

-- A leading and a trailing slash.
abbrev pub trim_slash : String → String
trim_slash String.[] = ""
trim_slash (String.◌∷◌ c s) = if eqb (code c) 47 then s else String.◌∷◌ c s

abbrev pub ends_in_slash : String → Bool
ends_in_slash String.[] = false
ends_in_slash (String.◌∷◌ c String.[]) = eqb (code c) 47
ends_in_slash (String.◌∷◌ c (String.◌∷◌ d s)) = ends_in_slash (String.◌∷◌ d s)

abbrev pub as_directory : String → String
as_directory path = if path == "" || ends_in_slash path then path else path ++ "/"

abbrev pub accept_header : String
accept_header = "application/json, application/problem+json"

abbrev pub json_content_type : String
json_content_type = "application/json; charset=utf-8"

unfoldable pub apply_client_option : {W : Type 0} → Settings W → ClientOption W → Settings W
unfolding with_endpoints
apply_client_option c (http_doer d) = record c { doer = d }
apply_client_option c (authorization_header h) = record c { authz_header = h }
apply_client_option c (endpoints p) = record c { paths = with_endpoints p c.paths }

unfoldable pub settle : {W : Type 0} → Settings W → List (ClientOption W) → Settings W
settle c [] = c
settle c (o ∷ os) = settle (apply_client_option c o) os

unfoldable pub check_doer :
    {W : Type 0} → Url → Settings W → Option (Doer W) → Result (HttpClient W)
check_doer base c none =
    invalid "doer non-nil" "doer"
      "WithHTTPDoer was passed nil; use http.DefaultClient or omit the option"
check_doer base c (some d) =
    ok (record { base_url = base; doer = d; authz_header = c.authz_header; paths = c.paths })

abbrev pub default_settings : {W : Type 0} → Doer W → Settings W
default_settings d = record { doer = some d; authz_header = ""; paths = default_endpoints }

abbrev pub checked : {W : Type 0} → Url → Settings W → Result (HttpClient W)
checked base c = check_doer base c c.doer

unfoldable pub construct :
    {W : Type 0} → Net → Doer W → List (ClientOption W) → Url → Result (HttpClient W)
construct net default_client os base =
    if base.scheme == "" || base.host == ""
    then invalid "baseURL absolute" "baseURL" "baseURL must be an absolute URL with a host"
    else if base.scheme == "http" || base.scheme == "https"
    then checked base (settle (default_settings default_client) os)
    else invalid "baseURL scheme" "baseURL"
        ("baseURL scheme must be http or https, got " ++ net.quote base.scheme)

unfoldable pub parsed_base :
    {W : Type 0}
    → (Error → String)
    → Net
    → Doer W
    → List (ClientOption W)
    → Result Url
    → Result (HttpClient W)
parsed_base text net default_client os (err e) = invalid "baseURL parses" "baseURL" (text e)
parsed_base text net default_client os (ok base) = construct net default_client os base

-- `NewClient`, with the text of an error and `http.DefaultClient`
unfoldable pub new_client :
    {W : Type 0}
    → (Error → String)
    → Net
    → Doer W
    → String
    → List (ClientOption W)
    → Result (HttpClient W)
new_client text net default_client base_url os =
    if base_url == ""
    then invalid "baseURL non-empty" "baseURL" "baseURL is required"
    else parsed_base text net default_client os (net.parse base_url)

unfoldable pub resolved : Net → Url → Result Url → Result Url
resolved net base (err e) = err (wrap "ssf/client: parse endpoint path" e)
resolved net base (ok ref) =
    ok (net.resolve_reference (record base { path = as_directory base.path }) ref)

-- `resolvePath`
unfoldable pub resolve_path : {W : Type 0} → Net → HttpClient W → String → Result Url
resolve_path net c path =
    if path == ""
    then invalid "endpoint path non-empty" "path"
        "endpoint path is empty; ensure WithEndpoints leaves no required field blank"
    else resolved net c.base_url (net.parse (trim_slash path))

unfoldable pub marshalled : Option (Result String) → Result (Option String)
marshalled none = ok none
marshalled (some (err e)) = err (wrap "ssf/client: marshal request body" e)
marshalled (some (ok b)) = ok (some b)

unfoldable pub built : Result Url → Result Url
built (err e) = err (wrap "ssf/client: build request" e)
built (ok u) = ok u

abbrev pub content_type_of : Option String → Option String
content_type_of none = none
content_type_of (some b) = some json_content_type

-- `newRequest`; the body is what `json.Marshal` gives.
unfoldable pub new_request :
    {W : Type 0}
    → Net
    → HttpClient W
    → String
    → String
    → Map String
    → Option (Result String)
    → Result ClientRequest
new_request net c method path query body = resolve_path net c path >>= (λ endpoint.
    marshalled body >>= (λ bytes. built (net.new_request method endpoint) >>= (λ url. ok (record {
      method = method;
      url = url;
      query = query;
      accept = accept_header;
      content_type = content_type_of bytes;
      authorization = if c.authz_header == "" then none else some c.authz_header;
      body = bytes;
    }))))

-- The error of a response that is refused, and the value of one that is not.
unfoldable pub refused : {A : Type 0} → A → Option Error → Result A
refused zero_value none = ok zero_value
refused zero_value (some e) = err e

unfoldable pub decoded : {A : Type 0} → Result A → Result A
decoded (err e) = err (wrap "ssf/client: decode response" e)
decoded (ok v) = ok v

unfoldable pub of_success : {A : Type 0} → A → Option (Coding A) → Answer → Result A
of_success zero_value none a = ok zero_value
of_success zero_value (some out) a =
    if eqb a.response.status_code 204 || a.is_empty
    then ok zero_value
    else decoded (out.decode a.stream)

unfoldable pub by_answer :
    {A : Type 0} → Decoding → A → Option (Coding A) → Result Answer → Result A
by_answer d zero_value out (err e) = err (wrap "ssf/client: http" e)
by_answer d zero_value out (ok a) =
    if ltb a.response.status_code 200 || leb 300 a.response.status_code
    then refused zero_value (parse_http_error d a.response)
    else of_success zero_value out a

-- `do`: no `out`, or the type that the body is decoded at; `zero_value` is what `out` holds before.
unfoldable pub do_request :
    {W A : Type 0}
    → Decoding
    → HttpClient W
    → A
    → Option (Coding A)
    → W
    → ClientRequest
    → Result A × W
do_request d c zero_value out w r = let a = c.doer w r in (by_answer d zero_value out a.0, a.1)
