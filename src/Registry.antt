-- ===== src/Registry.antt =====
-- delivery_registry.go, and the JSON of Delivery in stream.go: the registry of delivery methods, and how a
-- Delivery is decoded with it. A factory is the value that it returns, and the registry's lock makes
-- each call one step. `encoding/json` is a parameter: the "method" member, the decoding into fields that are
-- set before, and the encoding.
pub mod RoundTrip
mod Examples
use go_ssf.Prelude.{
  Bool, true, false, not, is_some, ◌||◌, Option, none, some, List, [], ◌∷◌, String, ◌==◌,
  if◌then◌else◌,
}
use go_ssf.Prelude.Map.{Map, get, put}
use go_ssf.Errors.{Error, Result, ok, err, wrap, sentinel, method_reserved}
use go_ssf.Wire.{Delivery, UnknownDelivery, delivery_method_push, delivery_method_poll}

-- `deliveryAlias`
pub record DeliveryAlias : Type 0 where
  pub method : String
  pub endpoint_url : String
  pub authorization_header : String

pub record DeliveryJson : Type 0 where
  pub method : String → Result String
  pub overlay : DeliveryAlias → String → Result DeliveryAlias
  pub marshal : DeliveryAlias → Result String

abbrev pub DeliveryRegistry : Type 0
DeliveryRegistry = Map Delivery

abbrev pub bare : String → Delivery
bare method = record {
  method = method;
  endpoint_url = "";
  authorization_header = "";
  unknown = none;
}

-- `builtinDeliveryMethods`
abbrev pub builtin_delivery_methods : DeliveryRegistry
builtin_delivery_methods =
    (delivery_method_push, bare delivery_method_push)
    ∷ (delivery_method_poll, bare delivery_method_poll)
    ∷ []

abbrev pub is_builtin : String → Bool
is_builtin method = method == delivery_method_push || method == delivery_method_poll

-- `RegisterDeliveryMethod`, of a factory by its value
unfoldable pub register_delivery_method :
    DeliveryRegistry → String → Delivery → Result (Unit {0}) × DeliveryRegistry
register_delivery_method reg method seed =
    if is_builtin method
    then (err (wrap "" (sentinel method_reserved)), reg)
    else (ok tt, put reg method seed)

-- `LookupDeliveryMethod`
unfoldable pub lookup_delivery_method : DeliveryRegistry → String → Option Delivery
lookup_delivery_method reg method = get reg method

abbrev pub alias_of : Delivery → DeliveryAlias
alias_of d = record {
  method = d.method;
  endpoint_url = d.endpoint_url;
  authorization_header = d.authorization_header;
}

abbrev pub as_delivery : DeliveryAlias → Delivery
as_delivery a = record {
  method = a.method;
  endpoint_url = a.endpoint_url;
  authorization_header = a.authorization_header;
  unknown = none;
}

unfoldable pub known_delivery : Result DeliveryAlias → Result Delivery
known_delivery (err e) = err e
known_delivery (ok a) = ok (as_delivery a)

unfoldable pub by_factory : DeliveryJson → String → String → Option Delivery → Result Delivery
by_factory json text method (some seed) = known_delivery (json.overlay (alias_of seed) text)
by_factory json text method none = ok (record {
  method = method;
  endpoint_url = "";
  authorization_header = "";
  unknown = some (record { method = method; raw = some text });
})

unfoldable pub by_method :
    DeliveryJson → DeliveryRegistry → String → Result String → Result Delivery
by_method json reg text (err e) = err e
by_method json reg text (ok method) =
    by_factory json text method (lookup_delivery_method reg method)

-- `Delivery.UnmarshalJSON`
unfoldable pub unmarshal_delivery : DeliveryJson → DeliveryRegistry → String → Result Delivery
unfolding by_method by_factory known_delivery
unmarshal_delivery json reg text = by_method json reg text (json.method text)

-- The bytes of an unknown delivery, where nil has none.
abbrev pub raw_text : UnknownDelivery → String
raw_text u = elim u.raw [ none ↦ "" | some t ↦ t ]

unfoldable pub marshal_known : DeliveryJson → Delivery → Option UnknownDelivery → Result String
marshal_known json d (some u) = ok (raw_text u)
marshal_known json d none = json.marshal (alias_of d)

-- `Delivery.MarshalJSON`
unfoldable pub marshal_delivery : DeliveryJson → Delivery → Result String
unfolding marshal_known
marshal_delivery json d = marshal_known json d d.unknown

-- `Delivery.Known`
unfoldable pub known : Delivery → Bool
known d = not (is_some d.unknown)

-- `Delivery.Unknown`; `none` for a false second result
unfoldable pub unknown_carrier : Delivery → Option UnknownDelivery
unknown_carrier d = d.unknown
