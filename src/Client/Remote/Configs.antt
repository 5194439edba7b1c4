-- ===== src/Client/Remote/Configs.antt =====
-- client/client.go against transmitter/handlers.go: the configuration calls through the client.
use go_ssf.Prelude.{
  true, false, none, some, [], String, ◌==◌, ◌≡◌, refl, Bool-cases, inl, inr, eq_iff, sym,
}
use go_ssf.Prelude.Map.{get}
use go_ssf.Wire.{StreamConfig}
use go_ssf.Transmitter.Http.{Request, or_empty, run_auth}
use go_ssf.Transmitter.Mux.{serve}
use go_ssf.Transmitter.Handlers.{
  config_handler, config_methods, handle_get_config, handle_list_config, handle_delete_config,
  handle_create_config, handle_update_config, with_stream, with_body,
}
use go_ssf.Client.Requests.{marshalled}
use go_ssf.Client.Methods.{call, http_client, zero_config, zero_listing, page_query, for_stream}
use go_ssf.Client.Methods
use go_ssf.Client.Remote.{
  Travels, Call, IsSendable, IsAnswerable, Loopback, remote, IsMirrored, Reaches, loopback_client,
}
use go_ssf.Client.Remote.Answers.{
  reply_read, reply_created_read, reply_deleted_read, reply_listing_read,
}
use go_ssf.Client.Remote.Exchange.{request_of, exchange, marshalled_as, decoded_as}

page_queried : (token : String) → or_empty (get (page_query token) "page_token") ≡ token
unfolding get
page_queried token = elim (Bool-cases (token == "")) [
  | inl empty ↦ rw empty (sym ((eq_iff token "").0 empty))
  | inr named ↦ rw named refl
]

no_stream_queried : (token : String) → (or_empty (get (page_query token) "stream_id") == "") ≡ true
unfolding get
no_stream_queried token = elim (Bool-cases (token == "")) [
  | inl empty ↦ rw empty refl
  | inr named ↦ rw named refl
]

module _ {Identifier S : Type 0} (x : Loopback Identifier S)
    (allows : (r : Request) → run_auth x.lib (some x.auth) r ≡ none) where
  pub get_config-IsMirrored :
      (id : String) (s : S)
      → Reaches x.net x.base "/streams"
      → IsSendable x.read x.lib.codings (Call.get_config id)
      → IsAnswerable x.read x.lib.codings (Call.get_config id) (x.transmitter.get_config s id).0
      → IsMirrored x (Call.get_config id) s
  unfolding remote loopback_client http_client Methods.get_config serve config_handler
      config_methods handle_get_config get marshalled
  get_config-IsMirrored id s reach named answer =
      rw
        (exchange x zero_config (some x.lib.codings.config) "GET" "/streams" (for_stream id) none
          none s refl reach refl)
        (rw (allows (request_of x "GET" "/streams" (for_stream id) none)) (
          rw named (
            reply_read x.lib x.decoding x.read zero_config x.lib.codings.config
              (x.transmitter.get_config s id) answer)))

  pub list_config-IsMirrored :
      (token : String) (s : S)
      → Reaches x.net x.base "/streams"
      → IsAnswerable x.read x.lib.codings
          (Call.list_config token)
          (x.transmitter.list_config s token).0
      → IsMirrored x (Call.list_config token) s
  unfolding remote loopback_client http_client Methods.list_config serve config_handler
      config_methods handle_list_config get marshalled
  list_config-IsMirrored token s reach answer =
      rw
        (exchange x zero_listing (some x.lib.codings.listing) "GET" "/streams" (page_query token)
          none none s refl reach refl)
        (rw (allows (request_of x "GET" "/streams" (page_query token) none)) (
          rw (no_stream_queried token) (
            rw (page_queried token) (
              reply_listing_read x.lib x.decoding x.read (x.transmitter.list_config s token)
                answer))))

  pub delete_config-IsMirrored :
      (id : String) (s : S)
      → Reaches x.net x.base "/streams"
      → (id == "") ≡ false
      → IsMirrored x (Call.delete_config id) s
  unfolding remote loopback_client http_client Methods.delete_config serve config_handler
      config_methods handle_delete_config with_stream get marshalled
  delete_config-IsMirrored id s reach named =
      rw (exchange x tt none "DELETE" "/streams" (for_stream id) none none s refl reach refl) (
        rw (allows (request_of x "DELETE" "/streams" (for_stream id) none)) (
          rw named (reply_deleted_read x.lib x.decoding x.read (x.transmitter.delete_config s id))))

  pub create_config-IsMirrored :
      (cfg : StreamConfig) (s : S)
      → Reaches x.net x.base "/streams"
      → Travels x.read x.lib.codings.config cfg
      → IsAnswerable x.read x.lib.codings
          (Call.create_config cfg)
          (x.transmitter.create_config s (some cfg)).0
      → IsMirrored x (Call.create_config cfg) s
  unfolding remote loopback_client http_client Methods.create_config serve config_handler
      config_methods handle_create_config with_body get
  create_config-IsMirrored cfg s reach travels answer =
      rw
        (exchange x zero_config (some x.lib.codings.config) "POST" "/streams" []
          (some (x.lib.codings.config.marshal cfg)) (some travels.0) s refl reach
          (marshalled_as x x.lib.codings.config cfg travels.0 travels.1))
        (rw (allows (request_of x "POST" "/streams" [] (some travels.0))) (
          rw (decoded_as x x.lib.codings.config cfg travels) (
            reply_created_read x.lib x.decoding x.read zero_config x.lib.codings.config
              (x.transmitter.create_config s (some cfg)) answer)))

  pub update_config-IsMirrored :
      (cfg : StreamConfig) (s : S)
      → Reaches x.net x.base "/streams"
      → IsSendable x.read x.lib.codings (Call.update_config cfg)
      → IsAnswerable x.read x.lib.codings
          (Call.update_config cfg)
          (x.transmitter.update_config s (some cfg)).0
      → IsMirrored x (Call.update_config cfg) s
  unfolding remote loopback_client http_client Methods.update_config serve config_handler
      config_methods handle_update_config with_stream with_body get
  update_config-IsMirrored cfg s reach (named, travels) answer = rw named (
      rw
        (exchange x zero_config (some x.lib.codings.config) "PATCH" "/streams"
          (for_stream cfg.stream_id) (some (x.lib.codings.config.marshal cfg)) (some travels.0) s
          refl reach (marshalled_as x x.lib.codings.config cfg travels.0 travels.1))
        (rw (allows (request_of x "PATCH" "/streams" (for_stream cfg.stream_id) (some travels.0))) (
          rw named (
            rw (decoded_as x x.lib.codings.config cfg travels) (
              reply_read x.lib x.decoding x.read zero_config x.lib.codings.config
                (x.transmitter.update_config s (some cfg)) answer)))))
