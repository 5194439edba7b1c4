-- ===== src/Client/Remote/Exchange.antt =====
-- client/client.go against transmitter/mux.go: a request of the client, and the answer to it, as one call of
-- the mux.
use go_ssf.Prelude.{false, Option, none, some, String, ◌==◌, if◌then◌else◌, ◌≡◌, refl}
use go_ssf.Prelude.Map.{Map}
use go_ssf.Errors.{Result, ok}
use go_ssf.Transmitter.Http.{
  query_get, Request, HttpResponse, Coding, Library, AuthFunc, or_empty, run_auth, decode_json_body,
}
use go_ssf.Transmitter.Http
use go_ssf.Transmitter.Mux.{mux_handler, serve, default_paths, resolve_mux}
use go_ssf.Client.Requests.{
  new_request, resolve_path, resolved, built, marshalled, do_request, by_answer, content_type_of,
}
use go_ssf.Client.Methods.{call}
use go_ssf.Client.Remote.{Travels, arrives, Loopback, Reaches, loopback, loopback_client}

module _ {Identifier S : Type 0} (x : Loopback Identifier S) where
  -- The request as the server has it.
  abbrev pub request_of : String → String → Map String → Option String → Request
  request_of method path query bytes = record {
    method = method;
    path = path;
    query = query;
    authorization = if x.authz == "" then none else some x.authz;
    content_type = content_type_of bytes;
    body = x.read (or_empty bytes);
  }

  abbrev pub served : S → Request → HttpResponse × S
  served s r = serve x.lib x.transmitter default_paths (some x.auth) x.not_found s r

  pub exchange :
      {A : Type 0} (zero_value : A) (out : Option (Coding A)) (method path : String)
      (query : Map String) (body : Option (Result String)) (bytes : Option String) (s : S)
      → (path == "") ≡ false
      → Reaches x.net x.base path
      → marshalled body ≡ ok bytes
      → let a = served s (request_of method path query bytes) in
        call x.lib.codings x.decoding x.net
          (loopback_client x)
          zero_value
          out
          method
          path
          query
          body
          s
        ≡ (by_answer x.decoding zero_value out (ok (arrives a.0)), a.1)
  unfolding new_request resolve_path resolved built do_request loopback loopback_client mux_handler
      resolve_mux
  exchange zero_value out method path query body bytes s named (ref, parses, builds) marshals =
      let (u, built_as, lands) = builds method in
      rw named (rw parses (rw marshals (rw built_as (rw lands refl))))

  pub marshalled_as :
      {B : Type 0} (c : Coding B) (v : B) (b : String)
      → c.marshal v ≡ ok b
      → marshalled (some (c.marshal v)) ≡ ok (some b)
  unfolding marshalled
  marshalled_as c v b marshals = rw marshals refl

  pub decoded_as :
      {B : Type 0} (c : Coding B) (v : B) (h : Travels x.read c v)
      → decode_json_body x.lib c (x.read h.0) ≡ ok v
  unfolding decode_json_body Http.decoded
  decoded_as c v (b, marshals, some_bytes, unmarshals, decodes, reads) =
      rw reads (rw some_bytes (rw unmarshals refl))
