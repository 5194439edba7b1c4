-- ===== src/Client/Remote/Nameless.antt =====
-- client/client.go and transmitter/handlers.go: GetConfig with an empty stream_id. The client does not refuse
-- it, and the handler of the same path takes it for a listing.
use go_ssf.Prelude.{false, none, some, String, ◌==◌, ◌≡◌, refl, ◌∙◌, arith}
use go_ssf.Prelude.Map.{get}
use go_ssf.Errors.{Result, ok, err}
use go_ssf.Wire.{StreamConfig}
use go_ssf.Transmitter.Interface.{Page}
use go_ssf.Transmitter.Http.{Request, run_auth, write_json, by_text}
use go_ssf.Transmitter.Mux.{serve}
use go_ssf.Transmitter.Handlers.{
  config_handler, config_methods, handle_list_config, reply_listing, not_nil,
}
use go_ssf.Client.Requests.{decoded, of_success, marshalled, by_answer}
use go_ssf.Client.Methods.{call, http_client, zero_config, zero_listing, page_query, for_stream}
use go_ssf.Client.Methods
use go_ssf.Client.Remote.{arrives, Loopback, remote, Reaches, loopback_client}
use go_ssf.Client.Remote.Exchange.{request_of, exchange}

listed_as_config :
    {Identifier S : Type 0} (x : Loopback Identifier S) (a : Result Page × S) (page : Page)
    (listing : String) (cfg : StreamConfig)
    → a.0 ≡ ok page
    → x.lib.codings.listing.marshal (not_nil page) ≡ ok listing
    → (listing == "") ≡ false
    → x.lib.codings.config.decode (ok listing) ≡ ok cfg
    → ◌≡◌ {A = Result StreamConfig × S}
        (
          by_answer x.decoding zero_config
              (some x.lib.codings.config)
              (ok (arrives (reply_listing x.lib a).0)),
          (reply_listing x.lib a).1,
        )
        (ok cfg, a.1)
unfolding reply_listing write_json by_text by_answer of_success decoded
listed_as_config x (ok p, s) page listing cfg lists marshals some_text decodes =
    let same : p ≡ page = ground (arith, lists) in
    rw same (rw marshals (rw some_text (rw decodes refl)))
listed_as_config x (err e, s) page listing cfg lists marshals some_text decodes =
    ground (arith, lists)

-- A client's GetConfig with an empty stream_id makes the Transmitter list its first page. When that page's
-- JSON, decoded as a stream configuration, gives a value, as a decoder that ignores unknown members gives
-- the configuration without any field, the caller gets this value and no error.
pub nameless_get_lists :
    {Identifier S : Type 0} (x : Loopback Identifier S) (s : S) (page : Page) (listing : String)
    (cfg : StreamConfig)
    → ((r : Request) → run_auth x.lib (some x.auth) r ≡ none)
    → Reaches x.net x.base "/streams"
    → (x.transmitter.list_config s "").0 ≡ ok page
    → x.lib.codings.listing.marshal (not_nil page) ≡ ok listing
    → (listing == "") ≡ false
    → x.lib.codings.config.decode (ok listing) ≡ ok cfg
    → (remote x).get_config s "" ≡ (ok cfg, (x.transmitter.list_config s "").1)
unfolding remote loopback_client http_client Methods.get_config serve config_handler config_methods
    handle_list_config reply_listing get marshalled write_json by_text by_answer of_success decoded
nameless_get_lists x s page listing cfg allows reach lists marshals some_text decodes =
    exchange x zero_config (some x.lib.codings.config) "GET" "/streams" (for_stream "") none none s
      refl reach refl
    ∙ rw (allows (request_of x "GET" "/streams" (for_stream "") none)) (
        listed_as_config x (x.transmitter.list_config s "") page listing cfg lists marshals
          some_text decodes)
