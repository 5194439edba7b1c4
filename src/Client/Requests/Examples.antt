-- ===== src/Client/Requests/Examples.antt =====
-- client/client.go: a client with one path of its own.
use go_ssf.Prelude.{ℕ, [], ◌∷◌, refl}
use go_ssf.Errors.{ok, err, sentinel, canceled}
use go_ssf.Client.Requests.{
  Net, Doer, HttpClient, EndpointPaths, authorization_header, endpoints, new_client, parsed_base,
  construct, check_doer, settle, apply_client_option, with_endpoints,
}
use go_ssf.Client.Requests.Usable.{IsText, new_client-IsUsable}

abbrev net : Net
net = record {
  parse = λ p. ok (record { scheme = "https"; host = "tr.example"; path = p; rest = "" });
  resolve_reference = λ base ref. base;
  new_request = λ method u. ok u;
  quote = λ t. t;
}

abbrev failing : Doer ℕ
failing w r = (err (sentinel canceled), w)

abbrev polling_elsewhere : EndpointPaths
polling_elsewhere = record {
  config = "";
  status = "";
  add_subject = "";
  remove_subject = "";
  verify = "";
  poll = "/poll";
}

abbrev client : HttpClient ℕ
client = record {
  base_url = record {
    scheme = "https";
    host = "tr.example";
    path = "https://tr.example";
    rest = "";
  };
  doer = failing;
  authz_header = "Bearer t";
  paths = record {
    config = "/streams";
    status = "/streams/status";
    add_subject = "/streams/subjects:add";
    remove_subject = "/streams/subjects:remove";
    verify = "/streams/verify";
    poll = "/poll";
  };
}

new_client-IsUsable_example : IsText client.paths.poll
unfolding new_client parsed_base construct check_doer settle apply_client_option with_endpoints
new_client-IsUsable_example =
    (new_client-IsUsable (λ e. "") net failing "https://tr.example"
      (authorization_header "Bearer t" ∷ endpoints polling_elsewhere ∷ []) client refl).2.5
