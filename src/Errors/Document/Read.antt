-- ===== src/Errors/Document/Read.antt =====
-- errors.go: what the loops over the members of a JSON object do with a Decoder that reads them.
use mathlib.Core.List.{append_assoc, append-nil}
use go_ssf.Prelude.{
  ℕ, zero, suc, ◌≤◌, ◌<◌, false, true, List, [], ◌∷◌, ◌++◌, String, ◌≡◌, refl, sym, ap, ◌∙◌, arith,
  inl, inr,
}
use go_ssf.Prelude.Lists.{length, snoc}
use go_ssf.Errors.{Result, ok, Result-cases, ◌>>=◌}
use go_ssf.Errors.Document.{
  JsonCodec, delim, text, Member, each_member, each_of, collected, stopped, extension_members,
  read_member,
}

-- A loop over members by the members.
unfoldable pub visit_all : {A : Type 0} → (A → Member → Result A) → A → List Member → Result A
visit_all visit a [] = ok a
visit_all visit a (m ∷ ms) = visit a m >>= (λ a'. visit_all visit a' ms)

module _ (json : JsonCodec) where
  open json use {Decoder, new_decoder, rest, token, more, decode_raw}

  -- The closing brace is next.
  abbrev pub Ends : Decoder → Type 0
  Ends d = (d' : Decoder) × (token d ≡ ok (delim "}", d'))

  -- A Decoder that gives these members and then the closing brace, and gets on with each.
  abbrev pub Reads : Decoder → List Member → Type 0
  Reads d [] = (more d ≡ false) × Ends d
  Reads d ((key, raw) ∷ ms) =
      (more d ≡ true)
      × (d' : Decoder) × (token d ≡ ok (text key, d'))
      × (d'' : Decoder) × (decode_raw d' ≡ ok (raw, d''))
      × (rest d'' < rest d)
      × Reads d'' ms

  -- A text that a new Decoder reads as the object of these members.
  abbrev pub ReadsObject : String → List Member → Type 0
  ReadsObject s ms = (d : Decoder) × (token (new_decoder s) ≡ ok (delim "{", d)) × Reads d ms

  length-le-rest : (d : Decoder) (ms : List Member) → Reads d ms → length ms ≤ rest d
  length-le-rest d [] h = omega arith
  length-le-rest d ((key, raw) ∷ ms) (m, d', t, d'', v, shorter, later) =
      omega (arith, length-le-rest d'' ms later)

  module _ {A : Type 0} (wrong : String) (visit : A → Member → Result A)
      (finish : A → Decoder → Result A)
      (finishes : (a : A) (d : Decoder) → Ends d → finish a d ≡ ok a) where
    -- With more fuel than members, the loop visits the members.
    each_member_lem :
        (fuel : ℕ) (a : A) (d : Decoder) (ms : List Member)
        → Reads d ms
        → length ms < fuel
        → each_member json wrong visit finish fuel a d ≡ visit_all visit a ms
    unfolding each_member read_member visit_all
    each_member_lem zero a d ms h lt = elim lt [ ]
    each_member_lem (suc fuel) a d [] (m, e) lt = rw m (finishes a d e)
    each_member_lem (suc fuel) a d ((key, raw) ∷ ms) (m, d', t, d'', v, shorter, later) lt =
        rw (m, t, v)
          (elim (Result-cases (visit a (key, raw))) [
            | inl (e, failed) ↦ rw failed refl
            | inr (a', went) ↦ rw went (each_member_lem fuel a' d'' ms later (omega arith))
          ])

    pub each_of_lem :
        (a : A) (d : Decoder) (ms : List Member)
        → Reads d ms
        → each_of json wrong visit finish a d ≡ visit_all visit a ms
    each_of_lem a d ms h =
        each_member_lem (suc (rest d)) a d ms h (omega (arith, length-le-rest d ms h))

  collected_all : (out ms : List Member) → visit_all (collected json) out ms ≡ ok (out ++ ms)
  unfolding visit_all
  collected_all out [] = ap ok (sym (append-nil out))
  collected_all out (m ∷ ms) = collected_all (snoc out m) ms ∙ ap ok (append_assoc out (m ∷ []) ms)

  -- `extensionMembers` gives the members of an object in their order.
  pub extension_members_lem :
      (s : String) (ms : List Member) → ReadsObject s ms → extension_members json s ≡ ok ms
  unfolding extension_members
  extension_members_lem s ms (d, o, r) = rw o (
      each_of_lem _ (collected json) (stopped json) (λ a e h. refl) [] d ms r ∙ collected_all [] ms)
