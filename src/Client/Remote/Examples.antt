-- ===== src/Client/Remote/Examples.antt =====
-- client/client.go: a client of a Transmitter that counts the verifications it is asked for.
use Prim.Native.String.{◌++◌}
use go_ssf.Prelude.{ℕ, suc, true, [], none, some, String, ◌≡◌, refl}
use go_ssf.Errors.{ok}
use go_ssf.Wire.{VerificationRequest}
use go_ssf.Transmitter.Interface.{Transmitter, not_implemented_transmitter}
use go_ssf.Transmitter.Http.{Coding, Codings, Library, run_auth}
use go_ssf.Client.Requests.{Net}
use go_ssf.Client.Methods.{zero_config, zero_listing, zero_status, zero_batch}
use go_ssf.Client.Remote.{Call, invoke, Loopback, remote, Travels}
use go_ssf.Client.Remote.Nameless.{nameless_get_lists}
use go_ssf.Client.Remote.Mirror.{remote-IsMirrored}

-- The JSON of one value.
abbrev only : {A : Type 0} → A → Coding A
only v = record { marshal = λ w. ok "{}"; unmarshal = λ t. ok v; decode = λ t. ok v }

abbrev asked : VerificationRequest
asked = record { state = "abc" }

abbrev codings : Codings String
codings = record {
  config = only zero_config;
  listing = only zero_listing;
  status = only zero_status;
  status_update = only (record { status = "paused"; reason = ""; subject = none });
  adding = only (record { subject = none; verified = none });
  removing = only (record { subject = none });
  verification = only asked;
  polling = only (record { ack = []; set_errs = []; max_events = none; return_immediately = none });
  batch = only zero_batch;
  problem = λ p. ok "{}";
  valid = λ t. true;
}

abbrev lib : Library String
lib = record {
  texts = record { error_text = λ e. "failed"; trim = λ t. t; quote = λ t. t };
  codings = codings;
}

abbrev net : Net
net = record {
  parse = λ p. ok (record { scheme = ""; host = ""; path = p; rest = "" });
  resolve_reference = λ base ref. record base { path = base.path ++ ref.path };
  new_request = λ method u. ok u;
  quote = λ t. t;
}

abbrev counting : Transmitter String ℕ
counting = record not_implemented_transmitter { verify = λ s id req. (ok tt, suc s) }

abbrev counted : Loopback String ℕ
counted = record {
  lib = lib;
  decoding = record { media_type = λ t. some t; problem = λ t. none };
  net = net;
  read = λ t. ok t;
  transmitter = counting;
  auth = λ r. ok (record { stream_id = ""; subject = none });
  not_found = record { status = 404; allow = none; content_type = ""; body = "" };
  base = record { scheme = "https"; host = "tr.example"; path = "/"; rest = "" };
  authz = "Bearer t";
}

asked-Travels : Travels (λ t. ok t) codings.verification asked
asked-Travels = ("{}", refl, refl, refl, refl, refl)

remote-IsMirrored_example :
    ((invoke (remote counted) (Call.verify "stream-1" asked) 4).0 ≡ ok tt)
    × ((invoke (remote counted) (Call.verify "stream-1" asked) 4).1 ≡ 5)
unfolding run_auth
remote-IsMirrored_example =
    remote-IsMirrored counted (Call.verify "stream-1" asked) 4 (λ r. refl)
      (
        record { scheme = ""; host = ""; path = "streams/verify"; rest = "" },
        refl,
        λ method. (
          record { scheme = "https"; host = "tr.example"; path = "/streams/verify"; rest = "" },
          refl,
          refl,
        ),
      )
      (refl, asked-Travels) tt

-- A Transmitter with an empty page, and a listing that decodes as the configuration without fields.
abbrev listing_nothing : Loopback String ℕ
listing_nothing = record counted {
  transmitter = record not_implemented_transmitter {
    list_config = λ s token. (ok (none, ""), suc s);
  };
}

nameless_get_lists_example : (remote listing_nothing).get_config 4 "" ≡ (ok zero_config, 5)
unfolding run_auth
nameless_get_lists_example =
    nameless_get_lists listing_nothing 4 (none, "") "{}" zero_config (λ r. refl)
      (
        record { scheme = ""; host = ""; path = "streams"; rest = "" },
        refl,
        λ method. (
          record { scheme = "https"; host = "tr.example"; path = "/streams"; rest = "" },
          refl,
          refl,
        ),
      )
      refl refl refl refl
