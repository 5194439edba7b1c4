-- ===== src/Errors/Document/Partition.antt =====
-- errors.go: which members of a JSON object the decoding of a ProblemDetails takes for its fields, and
-- which for its extensions.
use go_ssf.Prelude.{
  some, List, [], ◌∷◌, String, ◌≡◌, refl, ap, ◌∙◌, if◌then◌else◌, inl, inr, Bool-cases,
}
use go_ssf.Errors.{ProblemDetails, Result, ok, err, Result-cases, ◌>>=◌}
use go_ssf.Errors.Document.{
  JsonCodec, Member, is_registered, empty_problem, assign_registered, append_member, append_members,
  route, closed, with_extensions, unmarshal_problem, Reading,
}
use go_ssf.Errors.Document.Written.{object_text, append_all, append_empty}
use go_ssf.Errors.Document.Read.{visit_all, ReadsObject, each_of_lem}

-- The members with other names than the five registered ones, in their order.
abbrev pub extensions_of : List Member → List Member
extensions_of [] = []
extensions_of (m ∷ ms) =
    let others = extensions_of ms in if is_registered m.0 then others else m ∷ others

abbrev pub with_members : List Member → ProblemDetails → ProblemDetails
with_members [] p = p
with_members (m ∷ ms) p = record p { extensions = some (object_text (m ∷ ms)) }

module _ (json : JsonCodec) where
  -- The registered members, one after the other, with the first error.
  unfoldable pub assigned : ProblemDetails → List Member → Result ProblemDetails
  assigned p [] = ok p
  assigned p (m ∷ ms) =
      (if is_registered m.0 then assign_registered json p m else ok p) >>= (λ p'. assigned p' ms)

  abbrev with_buffer : String → List Member → ProblemDetails → Result Reading
  with_buffer buf es p = ok (p, append_members buf es)

  routed :
      (p : ProblemDetails) (buf : String) (ms : List Member)
      → visit_all (route json) (p, buf) ms ≡ (assigned p ms >>= with_buffer buf (extensions_of ms))
  unfolding visit_all assigned route append_members
  routed p buf [] = refl
  routed p buf (m ∷ ms) = elim (Bool-cases (is_registered m.0)) [
    | inl known ↦ rw known (elim (Result-cases (assign_registered json p m)) [
      | inl (e, failed) ↦ rw failed refl
      | inr (p', went) ↦ rw went (routed p' buf ms)
    ])
    | inr extra ↦ rw extra (routed p (append_member buf m) ms)
  ]

  finished :
      (p : ProblemDetails) (ms : List Member)
      → with_extensions json (p, append_members "{" ms) ≡ with_members ms p
  unfolding with_extensions
  finished p [] = unfold append_members in refl
  finished p (m ∷ ms) =
      rw (append_empty (m ∷ ms)) (ap (λ s. record p { extensions = some s }) (append_all (m ∷ ms)))

  ended :
      (ms : List Member) (r : Result ProblemDetails)
      → (r >>= with_buffer "{" (extensions_of ms) >>= (λ s. ok (with_extensions json s)))
        ≡ (r >>= (λ p. ok (with_members (extensions_of ms) p)))
  ended ms (ok p) = ap ok (finished p (extensions_of ms))
  ended ms (err e) = refl

  -- A text that the Decoder reads as an object is decoded member by member: each registered name sets its
  -- field, the last one of a name wins and the first value that does not fit is the error; all other
  -- members, in their order and with the bytes of their values, are the extensions.
  pub unmarshal_problem_lem :
      (s : String) (ms : List Member)
      → ReadsObject json s ms
      → unmarshal_problem json s
        ≡ (assigned empty_problem ms >>= (λ p. ok (with_members (extensions_of ms) p)))
  unfolding unmarshal_problem
  unmarshal_problem_lem s ms (d, o, r) = rw o (
      ap (λ t. t >>= (λ q. ok (with_extensions json q)))
        (each_of_lem json _ (route json) (closed json) (λ a e (d', h). rw h refl)
            (empty_problem, "{") d ms r
          ∙ routed empty_problem "{" ms)
      ∙ ended ms (assigned empty_problem ms))
