-- ===== src/Registry/Examples.antt =====
-- delivery_registry.go: a push delivery beside a registered method, and one of an unknown method.
use go_ssf.Prelude.{[], ◌∷◌, ◌==◌, if◌then◌else◌, ◌≡◌, refl}
use go_ssf.Errors.{ok, ◌>>=◌}
use go_ssf.Registry.{
  DeliveryAlias, DeliveryJson, as_delivery, bare, builtin_delivery_methods, unmarshal_delivery,
  marshal_delivery,
}
use go_ssf.Registry.RoundTrip.{registrations, or_seed, delivery_survives}

abbrev push : DeliveryAlias
push = record {
  method = "urn:ietf:rfc:8935";
  endpoint_url = "https://rx.example/push";
  authorization_header = "";
}

-- The JSON of that one value.
abbrev json : DeliveryJson
json = record {
  method = λ t. if t == "push" then ok "urn:ietf:rfc:8935" else ok "urn:example:other";
  overlay = λ seed t. ok (record {
    method = or_seed push.method seed.method;
    endpoint_url = or_seed push.endpoint_url seed.endpoint_url;
    authorization_header = or_seed push.authorization_header seed.authorization_header;
  });
  marshal = λ a. ok "push";
}

delivery_survives_example :
    (marshal_delivery json (as_delivery push)
      >>= unmarshal_delivery json (
          registrations
            (("urn:ietf:rfc:8935", bare "x") ∷ ("urn:example:queue", bare "y") ∷ [])
            builtin_delivery_methods))
    ≡ ok (as_delivery push)
delivery_survives_example =
    delivery_survives json (("urn:ietf:rfc:8935", bare "x") ∷ ("urn:example:queue", bare "y") ∷ [])
      push refl ("push", refl, refl, λ seed. refl)
