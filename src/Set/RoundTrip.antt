-- ===== src/Set/RoundTrip.antt =====
-- set.go: a SET that a signer makes, at a verifier that has its key.
use go_ssf.Prelude.{
  Bool, true, false, ◌||◌, some, List, [], ◌∷◌, ◌++◌, String, ◌==◌, ◌≡◌, ◌⊎◌, inl, inr, refl, sym,
  ap, subst, ◌∙◌, arith, Bool-cases, eq_iff,
}
use go_ssf.Errors.{Error, Result, Result-cases, ok, message, ◌>>=◌}
use go_ssf.Set.{
  Header, Jose, Signer, algorithm_none, allowed_set_algorithms, probe_algorithms, probe_payload,
  check_typ, check_header, check_first, wrapped, new_jose_set_signer, probed, sign, try_keys,
  verify_with_keys, verify_parsed, verify,
}
use go_ssf.Set.Checks.{IsSetHeader, first_passes, wrapped_ok, bind_ok}

abbrev pub elem : List String → String → Bool
elem [] a = false
elem (x ∷ xs) a = (x == a) || elem xs a

abbrev pub IsIn : {A : Type 0} → A → List A → Type 0
IsIn a [] = ⊥
IsIn a (x ∷ xs) = (x ≡ a) ⊎ IsIn a xs

-- Of all the keys of a set this one alone has its id.
abbrev pub IsOnly : {Key : Type 0} → (Key → String) → Key → List Key → Type 0
IsOnly {Key} id_of key keys = (k : Key) → IsIn k keys → id_of k ≡ id_of key → k ≡ key

-- What go-jose documents of a JWS that a signer makes: it serializes, its text is parsed back where its
-- algorithm is allowed, it has the signer's header, the signer's key verifies it, alone and, where the header
-- names the key, in a set in which the key alone has its id, and no key verifies another payload.
abbrev pub IsSigned :
    {Jws Key : Type 0} → Jose Jws Key → (Key → String) → Signer Jws → Key → Header → String → Type 0
IsSigned {Jws} {Key} j id_of signer key h payload =
    (jws : Jws) × (compact : String) × (signer payload ≡ ok jws)
    × (j.compact_serialize jws ≡ ok compact)
    × ((algorithms : List String)
        → elem algorithms h.algorithm ≡ true
        → j.parse_signed compact algorithms ≡ ok jws)
    × ((algorithms : List String) (x : Jws)
        → j.parse_signed compact algorithms ≡ ok x
        → elem algorithms h.algorithm ≡ true)
    × (j.headers jws ≡ h ∷ [])
    × (j.verify jws key ≡ ok payload)
    × ((keys : List Key)
        → IsIn key keys
        → IsOnly id_of key keys
        → h.key_id ≡ id_of key
        → (h.key_id == "") ≡ false
        → j.verify_set jws keys ≡ ok payload)
    × ((k : Key) (p : String) → j.verify jws k ≡ ok p → p ≡ payload)

elem_last :
    (xs : List String) (a : String)
    → (a == algorithm_none) ≡ false
    → elem (xs ++ algorithm_none ∷ []) a ≡ true
    → elem xs a ≡ true
elem_last [] a h e = ground (arith, h, e, eq_iff a algorithm_none, eq_iff algorithm_none a)
elem_last (x ∷ xs) a h e = ground (arith, e, elem_last xs a h)

ok_same : {A : Type 0} {a b : A} → ◌≡◌ {A = Result A} (ok a) (ok b) → a ≡ b
ok_same e = ground (arith, e)

head_same : {A : Type 0} {a b : A} {xs ys : List A} → a ∷ xs ≡ b ∷ ys → a ≡ b
head_same e = ground (arith, e)

module _ {Jws Key : Type 0} (j : Jose Jws Key) (id_of : Key → String) where
  tried :
      (jws : Jws) (last : Error) (key : Key) (ks : List Key) (payload : String)
      → IsIn key ks
      → j.verify jws key ≡ ok payload
      → ((k : Key) (p : String) → j.verify jws k ≡ ok p → p ≡ payload)
      → try_keys j jws last ks ≡ ok payload
  unfolding try_keys
  tried jws last key [] payload there good only = elim there [ ]
  tried jws last key (k ∷ ks) payload there good only = elim (Result-cases (j.verify jws k)) [
    | inr done ↦ rw done.1 (ap (λ p. ok p) (only k done.0 done.1))
    | inl refusal ↦ rw refusal.1 (elim there [
      | inl same ↦ let refused = rw same at refusal.1 in ground (arith, refused, good)
      | inr later ↦ tried jws refusal.0 key ks payload later good only
    ])
  ]

  accepted :
      (signer s : Signer Jws) (key : Key) (h : Header)
      → IsSigned j id_of signer key h probe_payload
      → new_jose_set_signer j (some signer) ≡ ok s
      → (signer ≡ s) × IsSetHeader h × (elem allowed_set_algorithms h.algorithm ≡ true)
  unfolding new_jose_set_signer probed
  accepted signer s key h
        (jws, compact, signs, serializes, parses, allows, has_header, good, in_set, only) e =
      let started = rw signs at e in
      let serialized = rw serializes at started in
      let parsed =
        bind_ok (wrapped "ssf: parse probe jws" (j.parse_signed compact probe_algorithms)) _ s
          serialized in
      let read =
        wrapped_ok "ssf: parse probe jws" (j.parse_signed compact probe_algorithms) parsed.0
          parsed.1 in
      let allowed = allows probe_algorithms parsed.0 read in
      let same : parsed.0 ≡ jws = ok_same (sym read ∙ parses probe_algorithms allowed) in
      let first = first_passes _ _ _ (j.headers jws) s (rw same at parsed.2) in
      let one : first.0 ≡ h = head_same (sym first.2 ∙ has_header) in
      let passes = subst IsSetHeader one first.3 in
      (ok_same first.4, passes, elem_last allowed_set_algorithms h.algorithm passes.0 allowed)

  keys_verify :
      (keys : List Key) (jws : Jws) (key : Key) (h : Header) (payload : String)
      → IsIn key keys
      → j.verify jws key ≡ ok payload
      → ((h.key_id == "") ≡ false → j.verify_set jws keys ≡ ok payload)
      → ((k : Key) (p : String) → j.verify jws k ≡ ok p → p ≡ payload)
      → verify_with_keys j keys jws h ≡ ok payload
  unfolding verify_with_keys
  keys_verify [] jws key h payload there good in_set only = elim there [ ]
  keys_verify (k ∷ ks) jws key h payload there good in_set only =
      elim (Bool-cases (h.key_id == "")) [
        | inl without ↦ rw without (tried jws (message "nil") key (k ∷ ks) payload there good only)
        | inr with_id ↦ rw with_id (in_set with_id)
      ]

  header_accepted :
      {A : Type 0} (unsigned wrong : Error) (rest : Header → Result A) (h : Header)
      → IsSetHeader h
      → check_first unsigned wrong rest (h ∷ []) ≡ rest h
  unfolding check_first check_header check_typ
  header_accepted unsigned wrong rest h (signed, typed) = rw signed (rw typed refl)

  named_set :
      (keys : List Key) (jws : Jws) (key : Key) (h : Header) (payload : String)
      → (h.key_id ≡ "") ⊎ ((h.key_id ≡ id_of key) × IsOnly id_of key keys)
      → (IsOnly id_of key keys
          → h.key_id ≡ id_of key
          → (h.key_id == "") ≡ false
          → j.verify_set jws keys ≡ ok payload)
      → (h.key_id == "") ≡ false
      → j.verify_set jws keys ≡ ok payload
  named_set keys jws key h payload (inl without) law with_id =
      ground (arith, (eq_iff h.key_id "").1 without, with_id)
  named_set keys jws key h payload (inr (names, alone)) law with_id = law alone names with_id

  -- A SET survives signing and verification: when NewJOSESetSigner accepts a signer, whose JWS values
  -- behave as go-jose documents, then the text that Sign makes of any payload is one from which Verify
  -- returns this payload, with any key set that holds the signer's key, where the header names no
  -- key, or names the signer's by an id that no other key of the set has.
  pub verify-sign :
      (signer s : Signer Jws) (key : Key) (keys : List Key) (h : Header) (payload : String)
      → ((p : String) → IsSigned j id_of signer key h p)
      → new_jose_set_signer j (some signer) ≡ ok s
      → IsIn key keys
      → (h.key_id ≡ "") ⊎ ((h.key_id ≡ id_of key) × IsOnly id_of key keys)
      → (sign j s payload >>= verify j keys) ≡ ok payload
  unfolding sign verify verify_parsed
  verify-sign signer s key keys h payload signed e there named =
      let accepts = accepted signer s key h (signed probe_payload) e in
      let (jws, compact, signs, serializes, parses, allows, has_header, good, in_set, only) =
        signed payload in
      rw (← accepts.0) (
        rw signs (
          rw serializes (
            rw (parses allowed_set_algorithms accepts.2) (
              rw has_header (
                header_accepted (message "ssf: set has no signatures")
                  (message "ssf: set typ header")
                  (λ g. wrapped "ssf: verify set signature" (verify_with_keys j keys jws g)) h
                  accepts.1
                ∙ ap (wrapped "ssf: verify set signature") (
                    keys_verify keys jws key h payload there good
                      (named_set keys jws key h payload named (in_set keys there)) only))))))
