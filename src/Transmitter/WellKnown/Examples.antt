-- ===== src/Transmitter/WellKnown/Examples.antt =====
-- transmitter/wellknown.go: metadata published for an hour.
use go_ssf.Prelude.{false, none, some, [], ◌∷◌, ◌≡◌, refl, arith}
use go_ssf.Prelude.Decimal.{decimal}
use go_ssf.Errors.{ok}
use go_ssf.Wire.{TransmitterConfig}
use go_ssf.Client.Errors.{Decoding}
use go_ssf.Client.Discovery.{DiscoveryReading, fetch_once}
use go_ssf.Transmitter.WellKnown.{resolve_max_age}
use go_ssf.Transmitter.WellKnown.Fetched.{publishes, published_fetched}

abbrev metadata : TransmitterConfig
metadata = record {
  issuer = "https://tr.example";
  jwks_uri = "";
  delivery_methods_supported = none;
  configuration_endpoint = "";
  status_endpoint = "";
  add_subject_endpoint = "";
  remove_subject_endpoint = "";
  verification_endpoint = "";
  critical_subject_members = none;
  spec_version = "";
  authorization_schemes = none;
}

abbrev reading : DiscoveryReading
reading = record {
  split = λ t. t ∷ [];
  trim = λ t. t;
  trim_slashes = λ t. t;
  cut = λ t. ("max-age", some (decimal 3600));
  to_lower = λ t. t;
  parse_int = λ t. some 3600;
  build_err = λ t. none;
  decode = λ b. ok metadata;
}

abbrev decoding : Decoding
decoding = record { media_type = λ t. some t; problem = λ t. none }

published_fetched_example :
    (fetch_once reading decoding
      (publishes (λ cfg. ok "{}") (λ d. 3600) metadata [])
      tt
      "https://tr.example").0
    ≡ ok (record { config = metadata; max_age = 3600; no_store = false })
unfolding resolve_max_age
published_fetched_example =
    published_fetched reading decoding (λ cfg. ok "{}") (λ d. 3600) metadata [] "{}"
      "https://tr.example" refl refl refl refl (refl, refl, refl, refl, refl, refl, refl)
      (omega arith)
