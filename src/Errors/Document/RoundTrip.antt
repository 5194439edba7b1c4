-- ===== src/Errors/Document/RoundTrip.antt =====
-- errors.go: encoding a ProblemDetails and decoding it again.
use mathlib.Core.List.{append_assoc}
use Prim.Native.String.{◌++◌ as ◌++ₛ◌}
use go_ssf.Prelude.{
  ℕ, false, true, Option, none, some, List, [], ◌∷◌, ◌++◌, String, ◌≡◌, refl, sym, ap, ◌∙◌, arith,
  ◌==◌, eqb, if◌then◌else◌, inl, inr, Bool-cases, eq_iff,
}
use go_ssf.Prelude.Lists.{All}
use go_ssf.Errors.{ProblemDetails, ok, ◌>>=◌}
use go_ssf.Errors.Document.{
  JsonCodec, Member, is_registered, empty_problem, assign_registered, append_member, append_members,
  marshal_problem, unmarshal_problem, write_text, write_number, write_extensions,
}
use go_ssf.Errors.Document.Written.{object_text, append_all}
use go_ssf.Errors.Document.Read.{ReadsObject, extension_members_lem}
use go_ssf.Errors.Document.Partition.{assigned, extensions_of, with_members, unmarshal_problem_lem}

-- `json.Marshal` of a string and of a number succeeds, and `json.Unmarshal` reads the value back.
pub record Codes (json : JsonCodec) : Type 0 where
  pub text_of : String → String
  pub marshals_text : (v : String) → json.marshal_text v ≡ ok (text_of v)
  pub reads_text : (v before : String) → json.unmarshal_text (text_of v) before ≡ ok v
  pub number_of : ℕ → String
  pub marshals_number : (n : ℕ) → json.marshal_number n ≡ ok (number_of n)
  pub reads_number : (n before : ℕ) → json.unmarshal_number (number_of n) before ≡ ok n

append_two :
    (ms ns : List Member) (buf : String)
    → append_members (append_members buf ms) ns ≡ append_members buf (ms ++ ns)
unfolding append_members
append_two [] ns buf = refl
append_two (m ∷ ms) ns buf = append_two ms ns (append_member buf m)

-- The extensions that a decoding keeps: the bytes of an object, or nil.
abbrev pub extensions_text : List Member → Option String
extensions_text [] = none
extensions_text (m ∷ ms) = some (object_text (m ∷ ms))

module _ (json : JsonCodec) (codes : Codes json) where
  open codes use {text_of, marshals_text, reads_text, number_of, marshals_number, reads_number}

  abbrev pub text_member : String → String → List Member
  text_member key v = if v == "" then [] else (key, text_of v) ∷ []

  abbrev pub number_member : String → ℕ → List Member
  number_member key n = if eqb n 0 then [] else (key, number_of n) ∷ []

  -- The registered members that are not empty, in the order of RFC 7807.
  abbrev pub registered_members : ProblemDetails → List Member
  registered_members p =
      text_member "type" p.type_uri
      ++ (text_member "title" p.title
          ++ (number_member "status" p.status
              ++ (text_member "detail" p.detail ++ text_member "instance" p.instance_uri)))

  -- The extensions of a document, as the members that its decoding reads.
  abbrev pub Holds : Option String → List Member → Type 0
  Holds none es = es ≡ []
  Holds (some raw) es = ((raw == "") ≡ false) × ReadsObject json raw es

  text_written :
      (key v buf : String) → write_text json key v buf ≡ ok (append_members buf (text_member key v))
  unfolding write_text append_members
  text_written key v buf = elim (Bool-cases (v == "")) [
    | inl empty ↦ rw empty refl
    | inr given ↦ rw (given, marshals_text v) refl
  ]

  number_written :
      (key : String) (n : ℕ) (buf : String)
      → write_number json key n buf ≡ ok (append_members buf (number_member key n))
  unfolding write_number append_members
  number_written key n buf = elim (Bool-cases (eqb n 0)) [
    | inl empty ↦ rw empty refl
    | inr given ↦ rw (given, marshals_number n) refl
  ]

  extensions_written :
      (o : Option String) (es : List Member) (buf : String)
      → Holds o es
      → write_extensions json o buf ≡ ok (append_members buf es)
  unfolding write_extensions
  extensions_written none es buf h = rw h (unfold append_members in refl)
  extensions_written (some raw) es buf (given, reads) =
      rw (given, extension_members_lem json raw es reads) refl

  -- A document is encoded as the object of its registered members that are not empty, in the order of
  -- RFC 7807, and then of its extensions in theirs.
  pub marshal_problem_lem :
      (p : ProblemDetails) (es : List Member)
      → Holds p.extensions es
      → marshal_problem json p ≡ ok (object_text (registered_members p ++ es))
  unfolding marshal_problem
  marshal_problem_lem p es h =
      rw
        (
          text_written "type" p.type_uri "{",
          text_written "title" p.title,
          number_written "status" p.status,
          text_written "detail" p.detail,
          text_written "instance" p.instance_uri,
          extensions_written p.extensions es _ h,
        )
        (ap (λ s. ok (s ++ₛ "}")) (simp (append_two, append_assoc))
          ∙ ap ok (append_all (registered_members p ++ es)))

  -- Decoding passes the member of a text field, when the field is empty before.
  assigned_text :
      (key v : String) (p q : ProblemDetails) (ms : List Member)
      → is_registered key ≡ true
      → (json.unmarshal_text (text_of v) "" ≡ ok v
          → assign_registered json p (key, text_of v) ≡ ok q)
      → (v ≡ "" → p ≡ q)
      → assigned json p (text_member key v ++ ms) ≡ assigned json q ms
  unfolding assigned
  assigned_text key v p q ms known set same = elim (Bool-cases (v == "")) [
    | inl empty ↦ rw (empty, same ((eq_iff v "").0 empty)) refl
    | inr given ↦ rw (given, known, set (reads_text v "")) refl
  ]

  assigned_number :
      (n : ℕ) (p q : ProblemDetails) (ms : List Member)
      → (json.unmarshal_number (number_of n) 0 ≡ ok n
          → assign_registered json p ("status", number_of n) ≡ ok q)
      → (n ≡ 0 → p ≡ q)
      → assigned json p (number_member "status" n ++ ms) ≡ assigned json q ms
  unfolding assigned
  assigned_number n p q ms set same = elim (Bool-cases (eqb n 0)) [
    | inl empty ↦ rw (empty, same (ground (arith, empty))) refl
    | inr given ↦ rw (given, set (reads_number n 0)) refl
  ]

  -- Members with other names set no field.
  assigned_extensions :
      (p : ProblemDetails) (es : List Member)
      → All (λ m. is_registered m.0 ≡ false) es
      → assigned json p es ≡ ok p
  unfolding assigned
  assigned_extensions p [] h = refl
  assigned_extensions p (e ∷ es) (other, h) = rw other (assigned_extensions p es h)

  assigned_members :
      (p : ProblemDetails) (es : List Member)
      → All (λ m. is_registered m.0 ≡ false) es
      → assigned json empty_problem (registered_members p ++ es)
        ≡ ok (record p { extensions = none })
  unfolding assign_registered
  assigned_members p es h =
      let p1 : ProblemDetails = record empty_problem { type_uri = p.type_uri } in
      let p2 : ProblemDetails = record p1 { title = p.title } in
      let p3 : ProblemDetails = record p2 { status = p.status } in
      let p4 : ProblemDetails = record p3 { detail = p.detail } in
      simp append_assoc (
        assigned_text "type" p.type_uri empty_problem p1 _ refl (λ e. rw e refl) (λ e. rw e refl)
        ∙ assigned_text "title" p.title p1 p2 _ refl (λ e. rw e refl) (λ e. rw e refl)
        ∙ assigned_number p.status p2 p3 _ (λ e. rw e refl) (λ e. rw e refl)
        ∙ assigned_text "detail" p.detail p3 p4 _ refl (λ e. rw e refl) (λ e. rw e refl)
        ∙ assigned_text "instance" p.instance_uri p4 (record p { extensions = none }) es refl
            (λ e. rw e refl) (λ e. rw e refl)
        ∙ assigned_extensions (record p { extensions = none }) es h)

  extensions_alone :
      (es : List Member) → All (λ m. is_registered m.0 ≡ false) es → extensions_of es ≡ es
  extensions_alone [] h = refl
  extensions_alone (e ∷ es) (other, h) = rw (other, extensions_alone es h) refl

  text_dropped :
      (key v : String) (ms : List Member)
      → is_registered key ≡ true
      → extensions_of (text_member key v ++ ms) ≡ extensions_of ms
  text_dropped key v ms known = elim (Bool-cases (v == "")) [
    | inl empty ↦ rw empty refl
    | inr given ↦ rw (given, known) refl
  ]

  number_dropped :
      (n : ℕ) (ms : List Member) → extensions_of (number_member "status" n ++ ms) ≡ extensions_of ms
  number_dropped n ms = elim (Bool-cases (eqb n 0)) [
    | inl empty ↦ rw empty refl
    | inr given ↦ rw given refl
  ]

  extensions_left :
      (p : ProblemDetails) (es : List Member)
      → All (λ m. is_registered m.0 ≡ false) es
      → extensions_of (registered_members p ++ es) ≡ es
  extensions_left p es h = simp append_assoc (
      text_dropped "type" p.type_uri _ refl
      ∙ text_dropped "title" p.title _ refl
      ∙ number_dropped p.status _
      ∙ text_dropped "detail" p.detail _ refl
      ∙ text_dropped "instance" p.instance_uri es refl
      ∙ extensions_alone es h)

  restored :
      (p : ProblemDetails) (es : List Member)
      → p.extensions ≡ extensions_text es
      → with_members es (record p { extensions = none }) ≡ p
  restored p [] h = ap (λ x. record p { extensions = x }) (sym h)
  restored p (e ∷ es) h = ap (λ x. record p { extensions = x }) (sym h)

  -- A document survives its encoding: where the Decoder reads the two objects as what they are, that of the
  -- extensions, none of which has a registered name, and the whole one, the decoding gives the document back,
  -- with the bytes and the order of its extensions.
  pub unmarshal-marshal :
      (p : ProblemDetails) (es : List Member)
      → p.extensions ≡ extensions_text es
      → All (λ m. is_registered m.0 ≡ false) es
      → Holds p.extensions es
      → ReadsObject json (object_text (registered_members p ++ es)) (registered_members p ++ es)
      → (marshal_problem json p >>= unmarshal_problem json) ≡ ok p
  unmarshal-marshal p es bytes others held reads = rw (marshal_problem_lem p es held) (
      unmarshal_problem_lem json _ _ reads
      ∙ rw (assigned_members p es others, extensions_left p es others)
          (ap ok (restored p es bytes)))

  registered_kept :
      (es : List Member) (p : ProblemDetails)
      → registered_members (with_members es p) ≡ registered_members p
  registered_kept [] p = refl
  registered_kept (e ∷ es) p = refl

  -- A document that is decoded and encoded again is the object of its registered members, in the order of RFC
  -- 7807, and then of its extensions with the bytes and in the order in which they came.
  pub relayed :
      (s : String) (ms : List Member) (p : ProblemDetails)
      → ReadsObject json s ms
      → assigned json empty_problem ms ≡ ok p
      → Holds (with_members (extensions_of ms) p).extensions (extensions_of ms)
      → (unmarshal_problem json s >>= marshal_problem json)
        ≡ ok (object_text (registered_members p ++ extensions_of ms))
  relayed s ms p reads set held =
      rw (unmarshal_problem_lem json s ms reads, set)
        (marshal_problem_lem (with_members (extensions_of ms) p) (extensions_of ms) held
          ∙ ap (λ ns. ok (object_text (ns ++ extensions_of ms)))
              (registered_kept (extensions_of ms) p))
