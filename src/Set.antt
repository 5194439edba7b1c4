-- ===== src/Set.antt =====
-- set.go: the signing and the verification of Security Event Tokens. go-jose is a parameter: its JWS values
-- and keys, ParseSigned, CompactSerialize, the protected headers of the signatures, and Verify with a key
-- and with a key set. A payload is a text of bytes.
pub mod Checks
pub mod RoundTrip
mod Examples
use go_ssf.Prelude.{
  Bool, true, false, ◌||◌, Option, none, some, List, [], ◌∷◌, ◌++◌, String, ◌==◌, if◌then◌else◌,
}
use go_ssf.Errors.{Error, Result, ok, err, wrap, message, sentinel, alg_none, missing_typ, ◌>>=◌}

-- The value of an extra header: a text, or JSON of another kind.
pub data HeaderValue : Type 0 where
  text : String → HeaderValue
  other : HeaderValue

-- A protected header, with the value of "typ".
pub record Header : Type 0 where
  pub algorithm : String
  pub key_id : String
  pub typ : Option HeaderValue

pub record Jose (Jws Key : Type 0) : Type 0 where
  pub parse_signed : String → List String → Result Jws
  pub compact_serialize : Jws → Result String
  pub headers : Jws → List Header
  pub verify : Jws → Key → Result String
  pub verify_set : Jws → List Key → Result String

-- `jose.Signer`
abbrev pub Signer : Type 0 → Type 0
Signer Jws = String → Result Jws

abbrev pub set_media_type : String
set_media_type = "secevent+jwt"

abbrev pub algorithm_none : String
algorithm_none = "none"

abbrev pub allowed_set_algorithms : List String
allowed_set_algorithms =
    "EdDSA" ∷ "HS256" ∷ "HS384" ∷ "HS512" ∷ "RS256" ∷ "RS384" ∷ "RS512" ∷ "ES256" ∷ "ES384"
    ∷ "ES512" ∷ "PS256" ∷ "PS384" ∷ "PS512" ∷ []

abbrev pub probe_algorithms : List String
probe_algorithms = allowed_set_algorithms ++ algorithm_none ∷ []

-- `[]byte{0}`
abbrev pub probe_payload : String
probe_payload = "\0"

-- A typ header that is not the media type of SETs, with the error for it.
unfoldable pub check_typ : {A : Type 0} → Error → Result A → Option HeaderValue → Result A
check_typ wrong accepted none = err (sentinel missing_typ)
check_typ wrong accepted (some other) = err wrong
check_typ wrong accepted (some (text t)) = if t == set_media_type then accepted else err wrong

unfoldable pub check_header : {A : Type 0} → Error → (Header → Result A) → Header → Result A
check_header wrong accepted h =
    if h.algorithm == algorithm_none
    then err (sentinel alg_none)
    else check_typ wrong (accepted h) h.typ

unfoldable pub check_first :
    {A : Type 0} → Error → Error → (Header → Result A) → List Header → Result A
check_first unsigned wrong accepted [] = err unsigned
check_first unsigned wrong accepted (h ∷ hs) = check_header wrong accepted h

abbrev pub wrapped : {A : Type 0} → String → Result A → Result A
wrapped m (ok a) = ok a
wrapped m (err e) = err (wrap m e)

abbrev pub first_ok : {A : Type 0} → Result A → (Error → Result A) → Result A
first_ok (ok a) rest = ok a
first_ok (err e) rest = rest e

module _ {Jws Key : Type 0} (j : Jose Jws Key) where
  -- `NewJOSESetSigner`: the signer, when its probe passes.
  unfoldable pub probed : Signer Jws → Result (Signer Jws)
  probed signer =
      wrapped "ssf: jose signer rejected probe payload" (signer probe_payload) >>= (λ probe.
        wrapped "ssf: serialize probe jws" (j.compact_serialize probe) >>= (λ compact.
          wrapped "ssf: parse probe jws" (j.parse_signed compact probe_algorithms) >>= (λ parsed.
            check_first (message "ssf: probe jws has no signatures")
              (wrap "ssf: jose signer typ header" (sentinel missing_typ)) (λ h. ok signer)
              (j.headers parsed))))

  unfoldable pub new_jose_set_signer : Option (Signer Jws) → Result (Signer Jws)
  unfolding probed
  new_jose_set_signer none = err (message "ssf: jose signer is nil")
  new_jose_set_signer (some signer) = probed signer

  -- `JOSESetSigner.Sign`
  unfoldable pub sign : Signer Jws → String → Result String
  sign signer payload =
      wrapped "ssf: sign set" (signer payload)
      >>= (λ jws. wrapped "ssf: serialize set" (j.compact_serialize jws))

  -- The keys one after the other, with the last error.
  unfoldable pub try_keys : Jws → Error → List Key → Result String
  try_keys jws last [] = err (wrap "no key in jwks validated the signature" last)
  try_keys jws last (k ∷ ks) = first_ok (j.verify jws k) (λ e. try_keys jws e ks)

  unfoldable pub verify_with_keys : List Key → Jws → Header → Result String
  unfolding try_keys
  verify_with_keys [] jws h = err (message "jwks is empty")
  verify_with_keys (k ∷ ks) jws h =
      if h.key_id == "" then try_keys jws (message "nil") (k ∷ ks) else j.verify_set jws (k ∷ ks)

  unfoldable pub verify_parsed : List Key → Jws → Result String
  unfolding check_first check_header check_typ
  verify_parsed keys jws =
      check_first (message "ssf: set has no signatures") (message "ssf: set typ header")
        (λ h. wrapped "ssf: verify set signature" (verify_with_keys keys jws h)) (j.headers jws)

  -- `JOSESetVerifier.Verify`, with the keys of the verifier
  unfoldable pub verify : List Key → String → Result String
  unfolding verify_parsed
  verify keys compact =
      wrapped "ssf: parse set" (j.parse_signed compact allowed_set_algorithms)
      >>= verify_parsed keys
