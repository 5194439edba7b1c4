-- ===== src/Set/Examples.antt =====
-- set.go: JWS values that are their payloads, with two keys, an id with a secret each, of which one is the
-- signer's.
use go_ssf.Prelude.{
  true, false, some, List, [], ◌∷◌, String, ◌==◌, if◌then◌else◌, ◌≡◌, refl, ◌⊎◌, inl, inr, arith,
  Bool-cases, eq_iff, sym, ap, ◌∙◌,
}
use go_ssf.Errors.{Result, ok, err, message, ◌>>=◌}
use go_ssf.Set.{
  Header, text, Jose, Signer, set_media_type, allowed_set_algorithms, new_jose_set_signer, probed,
  check_first, check_header, check_typ, sign, verify, verify_parsed, verify_with_keys, try_keys,
}
use go_ssf.Set.Checks.{verify-IsChecked, IsSetHeader, IsVerifiedBy}
use go_ssf.Set.RoundTrip.{elem, IsIn, IsOnly, IsSigned, verify-sign}

abbrev header : Header
header = record { algorithm = "ES256"; key_id = "k1"; typ = some (text set_media_type) }

abbrev parse : String → List String → Result String
parse compact algorithms =
    if elem algorithms "ES256" then ok compact else err (message "unexpected algorithm")

abbrev Key : Type 0
Key = String × String

abbrev signer_key : Key
signer_key = ("k1", "signer")

abbrev check : String → Key → Result String
check jws key = if key.1 == "signer" then ok jws else err (message "wrong key")

-- The first key with the id of the header.
resolve : String → List Key → Result String
resolve jws [] = err (message "key id not found")
resolve jws (k ∷ ks) = let rest = resolve jws ks in if k.0 == "k1" then check jws k else rest

abbrev toy : Jose String Key
toy = record {
  parse_signed = parse;
  compact_serialize = λ jws. ok jws;
  headers = λ jws. header ∷ [];
  verify = check;
  verify_set = resolve;
}

abbrev signer : Signer String
signer payload = ok payload

parsed_allowed :
    (compact jws : String) (algorithms : List String)
    → parse compact algorithms ≡ ok jws
    → elem algorithms "ES256" ≡ true
parsed_allowed compact jws algorithms e = elim (Bool-cases (elem algorithms "ES256")) [
  | inl allowed ↦ allowed
  | inr forbidden ↦ let refused = rw forbidden at e in ground (arith, refused)
]

checked_same :
    (jws : String) (key : Key) (payload : String) → check jws key ≡ ok payload → payload ≡ jws
checked_same jws key payload e = elim (Bool-cases (key.1 == "signer")) [
  | inl good ↦ let done = rw good at e in ground (arith, done)
  | inr bad ↦ let refused = rw bad at e in ground (arith, refused)
]

resolve_own :
    (jws : String) (keys : List Key)
    → IsIn signer_key keys
    → IsOnly (λ (k : Key). k.0) signer_key keys
    → resolve jws keys ≡ ok jws
unfolding resolve
resolve_own jws [] there alone = elim there [ ]
resolve_own jws (k ∷ ks) there alone = elim (Bool-cases (k.0 == "k1")) [
  | inl same ↦ rw same (rw (alone k (inl refl) ((eq_iff k.0 "k1").0 same)) refl)
  | inr other ↦ rw other (elim there [
    | inl first ↦ let refused = rw first at other in ground (arith, refused)
    | inr later ↦ resolve_own jws ks later (λ x i e. alone x (inr i) e)
  ])
]

abbrev id_of : Key → String
id_of k = k.0

two_keys-IsOnly : IsOnly id_of signer_key (("k0", "other") ∷ signer_key ∷ [])
two_keys-IsOnly k (inl other) e =
    let apart = (eq_iff "k0" "k1").1 (ap id_of other ∙ e) in absurd (ground (arith, apart))
two_keys-IsOnly k (inr (inl same)) e = sym same
two_keys-IsOnly k (inr (inr none_left)) e = elim none_left [ ]

signer-IsSigned : (payload : String) → IsSigned toy id_of signer signer_key header payload
signer-IsSigned payload = (
  payload,
  payload,
  refl,
  refl,
  λ algorithms allowed. rw allowed refl,
  λ algorithms x e. parsed_allowed payload x algorithms e,
  refl,
  refl,
  λ keys there alone names with_id. resolve_own payload keys there alone,
  λ k p e. checked_same payload k p e,
)

verify-sign_example :
    (sign toy signer "claims" >>= verify toy (("k0", "other") ∷ signer_key ∷ [])) ≡ ok "claims"
unfolding new_jose_set_signer probed check_first check_header check_typ
verify-sign_example =
    verify-sign toy id_of signer signer signer_key (("k0", "other") ∷ signer_key ∷ []) header
      "claims" signer-IsSigned refl (inr (inl refl)) (inr (refl, two_keys-IsOnly))

verify-IsChecked_example :
    (jws : String) × (h : Header) × (rest : List Header) × (toy.parse_signed "claims"
        allowed_set_algorithms
      ≡ ok jws)
    × (toy.headers jws ≡ h ∷ rest)
    × IsSetHeader h
    × ((((h.key_id == "") ≡ true)
          × IsVerifiedBy toy jws "claims" (("k0", "other") ∷ signer_key ∷ []))
        ⊎ (((h.key_id == "") ≡ false)
            × (toy.verify_set jws (("k0", "other") ∷ signer_key ∷ []) ≡ ok "claims")))
unfolding verify verify_parsed check_first check_header check_typ verify_with_keys try_keys resolve
verify-IsChecked_example =
    verify-IsChecked toy (("k0", "other") ∷ signer_key ∷ []) "claims" "claims" refl
