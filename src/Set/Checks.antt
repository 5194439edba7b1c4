-- ===== src/Set/Checks.antt =====
-- set.go: what Verify and NewJOSESetSigner have checked when they succeed.
use go_ssf.Prelude.{
  true, false, Option, none, some, List, [], ◌∷◌, String, ◌==◌, ◌≡◌, ◌⊎◌, inl, inr, refl, arith,
  Bool-cases, eq_iff, ◌∙◌,
}
use go_ssf.Errors.{Result-cases, Error, Result, ok, err, message, ◌>>=◌}
use go_ssf.Set.{
  Header, HeaderValue, text, other, Jose, set_media_type, algorithm_none, allowed_set_algorithms,
  check_typ, check_header, check_first, wrapped, try_keys, verify_with_keys, verify_parsed, verify,
}

-- The header of a SET: an algorithm that is not "none", and the media type of SETs.
abbrev pub IsSetHeader : Header → Type 0
IsSetHeader h = ((h.algorithm == algorithm_none) ≡ false) × (h.typ ≡ some (text set_media_type))

-- The first signature, if any, has a SET's header for which the rest succeeded.
abbrev pub FirstPasses : {A : Type 0} → (Header → Result A) → List Header → A → Type 0
FirstPasses {A} accepted hs a =
    (h : Header) × (rest : List Header) × (hs ≡ h ∷ rest) × IsSetHeader h × (accepted h ≡ ok a)

module _ {A : Type 0} (wrong : Error) where
  typ_passes :
      (accepted : Result A) (typ : Option HeaderValue) (a : A)
      → check_typ wrong accepted typ ≡ ok a
      → (typ ≡ some (text set_media_type)) × (accepted ≡ ok a)
  unfolding check_typ
  typ_passes accepted none a e = ground (arith, e)
  typ_passes accepted (some other) a e = ground (arith, e)
  typ_passes accepted (some (text t)) a e = elim (Bool-cases (t == set_media_type)) [
    | inl same ↦ (rw ((eq_iff t set_media_type).0 same) refl, rw same at e)
    | inr different ↦ let refused = rw different at e in ground (arith, refused)
  ]

  header_passes :
      (accepted : Header → Result A) (h : Header) (a : A)
      → check_header wrong accepted h ≡ ok a
      → IsSetHeader h × (accepted h ≡ ok a)
  unfolding check_header
  header_passes accepted h a e = elim (Bool-cases (h.algorithm == algorithm_none)) [
    | inl unsigned ↦ let refused = rw unsigned at e in ground (arith, refused)
    | inr signed ↦
        let passes = typ_passes (accepted h) h.typ a (rw signed at e) in
        ((signed, passes.0), passes.1)
  ]

  pub first_passes :
      (unsigned : Error) (accepted : Header → Result A) (hs : List Header) (a : A)
      → check_first unsigned wrong accepted hs ≡ ok a
      → FirstPasses accepted hs a
  unfolding check_first
  first_passes unsigned accepted [] a e = ground (arith, e)
  first_passes unsigned accepted (h ∷ hs) a e =
      let passes = header_passes accepted h a e in (h, hs, refl, passes.0, passes.1)

pub wrapped_ok : {A : Type 0} (m : String) (r : Result A) (a : A) → wrapped m r ≡ ok a → r ≡ ok a
wrapped_ok m (ok b) a e = e
wrapped_ok m (err x) a e = ground (arith, e)

pub bind_ok :
    {A B : Type 0} (r : Result A) (f : A → Result B) (b : B)
    → (r >>= f) ≡ ok b
    → (a : A) × (r ≡ ok a) × (f a ≡ ok b)
bind_ok (ok a) f b e = (a, refl, e)
bind_ok (err x) f b e = ground (arith, e)

-- Some key of a list verifies the signature of a JWS.
abbrev pub IsVerifiedBy : {Jws Key : Type 0} → Jose Jws Key → Jws → String → List Key → Type 0
IsVerifiedBy j jws payload [] = ⊥
IsVerifiedBy j jws payload (k ∷ ks) = (j.verify jws k ≡ ok payload) ⊎ IsVerifiedBy j jws payload ks

module _ {Jws Key : Type 0} (j : Jose Jws Key) where
  tried_ok :
      (jws : Jws) (last : Error) (ks : List Key) (payload : String)
      → try_keys j jws last ks ≡ ok payload
      → IsVerifiedBy j jws payload ks
  unfolding try_keys
  tried_ok jws last [] payload e = ground (arith, e)
  tried_ok jws last (k ∷ ks) payload e = elim (Result-cases (j.verify jws k)) [
    | inl refusal ↦ inr (tried_ok jws refusal.0 ks payload (rw refusal.1 at e))
    | inr done ↦ inl (done.1 ∙ rw done.1 at e)
  ]

  keys_ok :
      (keys : List Key) (jws : Jws) (h : Header) (payload : String)
      → verify_with_keys j keys jws h ≡ ok payload
      → (((h.key_id == "") ≡ true) × IsVerifiedBy j jws payload keys)
        ⊎ (((h.key_id == "") ≡ false) × (j.verify_set jws keys ≡ ok payload))
  unfolding verify_with_keys
  keys_ok [] jws h payload e = ground (arith, e)
  keys_ok (k ∷ ks) jws h payload e = elim (Bool-cases (h.key_id == "")) [
    | inl without ↦ inl (without, tried_ok jws (message "nil") (k ∷ ks) payload (rw without at e))
    | inr with_id ↦ inr (with_id, rw with_id at e)
  ]

  -- A payload that Verify returns comes from a JWS that go-jose has parsed with one of the allowed algorithms,
  -- whose first signature has an algorithm other than "none" and the typ of SETs, and which go-jose has
  -- verified to have this payload: by one of the verifier's keys when the header names no key, else
  -- by the whole key set.
  pub verify-IsChecked :
      (keys : List Key) (compact payload : String)
      → verify j keys compact ≡ ok payload
      → (jws : Jws) × (h : Header) × (rest : List Header) × (j.parse_signed compact
            allowed_set_algorithms
          ≡ ok jws)
        × (j.headers jws ≡ h ∷ rest)
        × IsSetHeader h
        × ((((h.key_id == "") ≡ true) × IsVerifiedBy j jws payload keys)
            ⊎ (((h.key_id == "") ≡ false) × (j.verify_set jws keys ≡ ok payload)))
  unfolding verify verify_parsed
  verify-IsChecked keys compact payload e =
      let parsed =
        bind_ok (wrapped "ssf: parse set" (j.parse_signed compact allowed_set_algorithms))
          (verify_parsed j keys) payload e in
      let jws = parsed.0 in
      let first =
        first_passes (message "ssf: set typ header") (message "ssf: set has no signatures")
          (λ h. wrapped "ssf: verify set signature" (verify_with_keys j keys jws h)) (j.headers jws)
          payload parsed.2 in
      (
        jws,
        first.0,
        first.1,
        wrapped_ok "ssf: parse set" (j.parse_signed compact allowed_set_algorithms) jws parsed.1,
        first.2,
        first.3,
        keys_ok keys jws first.0 payload (
            wrapped_ok "ssf: verify set signature" (verify_with_keys j keys jws first.0) payload
              first.4),
      )
