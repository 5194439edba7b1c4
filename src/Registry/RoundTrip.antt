-- ===== src/Registry/RoundTrip.antt =====
-- delivery_registry.go and stream.go: what a Delivery keeps through its JSON, whatever is registered.
use go_ssf.Prelude.{
  Option-cases, is_some, true, false, none, some, List, [], ◌∷◌, String, ◌==◌, if◌then◌else◌, ◌≡◌,
  refl, sym, ◌∙◌, arith, Bool-cases, inl, inr, eq_iff,
}
use go_ssf.Prelude.Map.{get, get-put}
use go_ssf.Errors.{Result, ok, err, ◌>>=◌}
use go_ssf.Wire.{Delivery, delivery_method_push, delivery_method_poll}
use go_ssf.Registry.{
  known, unknown_carrier, DeliveryAlias, DeliveryJson, DeliveryRegistry, bare,
  builtin_delivery_methods, is_builtin, register_delivery_method, lookup_delivery_method,
  as_delivery, alias_of, known_delivery, by_factory, by_method, unmarshal_delivery, marshal_known,
  marshal_delivery,
}

-- The registry after some calls of RegisterDeliveryMethod.
abbrev pub registrations : List (String × Delivery) → DeliveryRegistry → DeliveryRegistry
registrations [] reg = reg
registrations ((method, seed) ∷ calls) reg =
    registrations calls (register_delivery_method reg method seed).1

other_method :
    (method name : String)
    → is_builtin name ≡ true
    → is_builtin method ≡ false
    → (method == name) ≡ false
other_method method name h free = elim (Bool-cases (method == name)) [
  | inl same ↦ let builtin = rw ((eq_iff method name).0 same) at free in ground (arith, h, builtin)
  | inr other ↦ other
]

builtin_kept_once :
    (reg : DeliveryRegistry) (method name : String) (seed : Delivery)
    → is_builtin name ≡ true
    → get (register_delivery_method reg method seed).1 name ≡ get reg name
unfolding register_delivery_method
builtin_kept_once reg method name seed h = elim (Bool-cases (is_builtin method)) [
  | inl reserved ↦ rw reserved refl
  | inr free ↦
      let apart : (method == name) ≡ false = other_method method name h free in
      rw free (get-put reg method name seed ∙ rw apart refl)
]

builtin_kept :
    (calls : List (String × Delivery)) (reg : DeliveryRegistry) (name : String)
    → is_builtin name ≡ true
    → get (registrations calls reg) name ≡ get reg name
builtin_kept [] reg name h = refl
builtin_kept ((method, seed) ∷ calls) reg name h =
    builtin_kept calls (register_delivery_method reg method seed).1 name h
    ∙ builtin_kept_once reg method name seed h

builtin_found :
    (name : String) → is_builtin name ≡ true → get builtin_delivery_methods name ≡ some (bare name)
unfolding get
builtin_found name h = elim (Bool-cases (name == delivery_method_push)) [
  | inl push ↦ rw ((eq_iff name delivery_method_push).0 push) refl
  | inr other ↦
      let poll : (name == delivery_method_poll) ≡ true = rw other at h in
      rw ((eq_iff name delivery_method_poll).0 poll) refl
]

abbrev pub or_seed : String → String → String
or_seed t seed = if t == "" then seed else t

or_seed-nil : (t : String) → or_seed t "" ≡ t
or_seed-nil t = elim (Bool-cases (t == "")) [
  | inl empty ↦ rw empty (sym ((eq_iff t "").0 empty))
  | inr given ↦ rw given refl
]

-- What `encoding/json` documents of the tags: an empty member is left out, and decoding into fields that are
-- set keeps those whose member is not there.
abbrev pub Encodes : DeliveryJson → DeliveryAlias → Type 0
Encodes json a =
    (text : String) × (json.marshal a ≡ ok text)
    × (json.method text ≡ ok a.method)
    × ((seed : DeliveryAlias)
        → json.overlay seed text
          ≡ ok (record {
            method = or_seed a.method seed.method;
            endpoint_url = or_seed a.endpoint_url seed.endpoint_url;
            authorization_header = or_seed a.authorization_header seed.authorization_header;
          }))

or_seed_same : (t : String) → or_seed t t ≡ t
or_seed_same t = elim (Bool-cases (t == "")) [
  | inl empty ↦ rw empty refl
  | inr given ↦ rw given refl
]

kept_fields :
    (a : DeliveryAlias)
    → known_delivery (
        ok (record {
          method = or_seed a.method a.method;
          endpoint_url = or_seed a.endpoint_url "";
          authorization_header = or_seed a.authorization_header "";
        }))
      ≡ ok (as_delivery a)
unfolding known_delivery
kept_fields a =
    simp (or_seed_same a.method, or_seed-nil a.endpoint_url, or_seed-nil a.authorization_header)

-- A known Delivery with the push or the poll method survives its JSON, endpoint and authorization header
-- included, whatever methods have been registered: no registration replaces a built-in method.
pub delivery_survives :
    (json : DeliveryJson) (calls : List (String × Delivery)) (a : DeliveryAlias)
    → is_builtin a.method ≡ true
    → Encodes json a
    → (marshal_delivery json (as_delivery a)
        >>= unmarshal_delivery json (registrations calls builtin_delivery_methods))
      ≡ ok (as_delivery a)
unfolding marshal_delivery marshal_known unmarshal_delivery by_method by_factory known_delivery
    lookup_delivery_method
delivery_survives json calls a builtin (text, marshals, names, overlays) =
    let found =
      builtin_kept calls builtin_delivery_methods a.method builtin
      ∙ builtin_found a.method builtin in
    rw marshals (rw names (rw found (rw (overlays (alias_of (bare a.method))) (kept_fields a))))

-- A Delivery whose method is not registered is decoded without an error, and its MarshalJSON gives the very
-- bytes that were decoded. (`json.Marshal` then takes out white space.)
unknown_verbatim :
    (json : DeliveryJson) (reg : DeliveryRegistry) (text method : String)
    → json.method text ≡ ok method
    → lookup_delivery_method reg method ≡ none
    → (unmarshal_delivery json reg text >>= marshal_delivery json) ≡ ok text
unfolding marshal_delivery marshal_known unmarshal_delivery by_method by_factory
unknown_verbatim json reg text method names missing = rw names (rw missing refl)

known_plain : (r : Result DeliveryAlias) {d : Delivery} → known_delivery r ≡ ok d → d.unknown ≡ none
unfolding known_delivery
known_plain (err e) h = cc
known_plain (ok a) {d} h = let same : as_delivery a ≡ d = cc h in rw (← same) refl

-- A Delivery that is decoded is Known exactly when its method was registered at the time of the decoding, and
-- where it is not, its Unknown carrier has the method and the very bytes.
known-registered :
    (json : DeliveryJson) (reg : DeliveryRegistry) (text method : String) {d : Delivery}
    → json.method text ≡ ok method
    → unmarshal_delivery json reg text ≡ ok d
    → (known d ≡ is_some (lookup_delivery_method reg method))
      × (unknown_carrier d
          ≡ (if known d then none else some (record { method = method; raw = some text })))
unfolding unmarshal_delivery by_method by_factory known unknown_carrier
known-registered json reg text method {d} names h =
    elim (Option-cases (lookup_delivery_method reg method)) [
      | inl missing ↦
          let unread : Delivery = record {
            method = method;
            endpoint_url = "";
            authorization_header = "";
            unknown = some (record { method = method; raw = some text });
          } in
          let same : unread ≡ d = cc (rw (names, missing) at h) in rw (missing, ← same) (refl, refl)
      | inr (seed, there) ↦
          let plain = known_plain (json.overlay (alias_of seed) text) (rw (names, there) at h) in
          rw (there, plain) (refl, refl)
    ]
