-- ===== src/Errors/Document/Fields.antt =====
-- errors.go: what the decoding of a ProblemDetails makes of each of its fields, field by field.
use go_ssf.Prelude.{
  Bool, true, false, ◌&&◌, ◌||◌, not, subst, Option, none, some, List, [], ◌∷◌, String, ◌==◌, ◌≡◌,
  ◌↔◌, refl, sym, ap, ◌∙◌, if◌then◌else◌, inl, inr, Bool-cases, eq_iff, arith,
}
use go_ssf.Errors.{ProblemDetails, Result, ok, err, ◌>>=◌}
use go_ssf.Errors.Document.{
  JsonCodec, Member, is_registered, empty_problem, assign_registered, unmarshal_problem,
}
use go_ssf.Errors.Document.Written.{object_text}
use go_ssf.Errors.Document.Read.{ReadsObject}
use go_ssf.Errors.Document.Partition.{assigned, with_members, extensions_of, unmarshal_problem_lem}

-- A member by its name, of the five that RFC 7807 registers or of none.
abbrev pub is_extra : String → Bool
is_extra k =
    not (k == "type")
    && not (k == "title")
    && not (k == "status")
    && not (k == "detail")
    && not (k == "instance")

abbrev pub extras : List Member → List Member
extras [] = []
extras (m ∷ ms) = let others = extras ms in if is_extra m.0 then m ∷ others else others

abbrev pub extras_object : List Member → Option String
extras_object [] = none
extras_object (m ∷ ms) = some (object_text (m ∷ ms))

bind_ok :
    {A B : Type 0} (r : Result A) (f : A → Result B) (b : B)
    → (r >>= f) ≡ ok b
    → (a : A) × (r ≡ ok a) × (f a ≡ ok b)
bind_ok (ok a) f b e = (a, refl, e)
bind_ok (err x) f b e = ground (arith, e)

ok_same : {A : Type 0} {a b : A} → ◌≡◌ {A = Result A} (ok a) (ok b) → a ≡ b
ok_same e = ground (arith, e)

module _ {A : Type 0} (decode : String → A → Result A) (name : String) where
  abbrev pub step_at : A → Member → Result A
  step_at v (k, raw) = if k == name then decode raw v else ok v

  -- The values of a name, each decoded over the one before.
  abbrev pub value_at : A → List Member → Result A
  value_at v [] = ok v
  value_at v (m ∷ ms) = step_at v m >>= (λ w. value_at w ms)

-- A document of which nothing is read yet.
abbrev pub nothing_read : ProblemDetails
nothing_read = record {
  type_uri = "";
  title = "";
  status = 0;
  detail = "";
  instance_uri = "";
  extensions = none;
}

either_way :
    {A : Type 0} (a b c d e : Bool) (x y : A)
    → (if a || b || c || d || e then x else y)
      ≡ (if not a && not b && not c && not d && not e then y else x)
either_way true b c d e x y = refl
either_way false true c d e x y = refl
either_way false false true d e x y = refl
either_way false false false true e x y = refl
either_way false false false false true x y = refl
either_way false false false false false x y = refl

extras_same : (ms : List Member) → extensions_of ms ≡ extras ms
extras_same [] = refl
extras_same (m ∷ ms) = rw (extras_same ms) (
    either_way (m.0 == "type") (m.0 == "title") (m.0 == "status") (m.0 == "detail")
      (m.0 == "instance") (extras ms) (m ∷ extras ms))

replaced :
    (es : List Member) (p : ProblemDetails)
    → p.extensions ≡ extras_object es
    → with_members es (record p { extensions = none }) ≡ p
replaced [] p e = λ x. record p { extensions = sym e x }
replaced (m ∷ es) p e = λ x. record p { extensions = sym e x }

module _ (json : JsonCodec) where
  open json use {unmarshal_text, unmarshal_number}

  -- A document that has of each field the values of its name among the members, and of all other members its
  -- extensions.
  pub record IsReadFrom (before : ProblemDetails) (ms : List Member) (p : ProblemDetails)
      : Type 0 where
    pub type_uri : value_at unmarshal_text "type" before.type_uri ms ≡ ok p.type_uri
    pub title : value_at unmarshal_text "title" before.title ms ≡ ok p.title
    pub status : value_at unmarshal_number "status" before.status ms ≡ ok p.status
    pub detail : value_at unmarshal_text "detail" before.detail ms ≡ ok p.detail
    pub instance_uri : value_at unmarshal_text "instance" before.instance_uri ms ≡ ok p.instance_uri

  -- One member, field by field.
  abbrev by_fields : ProblemDetails → Member → Result ProblemDetails
  by_fields p m = step_at unmarshal_text "type" p.type_uri m >>= (λ a.
      step_at unmarshal_text "title" p.title m >>= (λ b.
        step_at unmarshal_number "status" p.status m >>= (λ c.
          step_at unmarshal_text "detail" p.detail m >>= (λ d.
            step_at unmarshal_text "instance" p.instance_uri m >>= (λ e.
              ok (record p {
                type_uri = a;
                title = b;
                status = c;
                detail = d;
                instance_uri = e;
              }))))))

  assigned_by_fields :
      (p : ProblemDetails) (m : Member)
      → (if is_registered m.0 then assign_registered json p m else ok p) ≡ by_fields p m
  unfolding assign_registered
  assigned_by_fields p (k, raw) = elim (Bool-cases (k == "type")) [
    | inl is ↦ rw ((eq_iff k "type").0 is) refl
    | inr not_type ↦ elim (Bool-cases (k == "title")) [
      | inl is ↦ rw ((eq_iff k "title").0 is) refl
      | inr not_title ↦ elim (Bool-cases (k == "status")) [
        | inl is ↦ rw ((eq_iff k "status").0 is) refl
        | inr not_status ↦ elim (Bool-cases (k == "detail")) [
          | inl is ↦ rw ((eq_iff k "detail").0 is) refl
          | inr not_detail ↦ elim (Bool-cases (k == "instance")) [
            | inl is ↦ rw ((eq_iff k "instance").0 is) refl
            | inr not_instance ↦ rw (not_type, not_title, not_status, not_detail, not_instance) refl
          ]
        ]
      ]
    ]
  ]

  -- A member that is read in every field, and what it leaves.
  step_read :
      (p q : ProblemDetails) (m : Member)
      → by_fields p m ≡ ok q
      → (step_at unmarshal_text "type" p.type_uri m ≡ ok q.type_uri)
        × (step_at unmarshal_text "title" p.title m ≡ ok q.title)
        × (step_at unmarshal_number "status" p.status m ≡ ok q.status)
        × (step_at unmarshal_text "detail" p.detail m ≡ ok q.detail)
        × (step_at unmarshal_text "instance" p.instance_uri m ≡ ok q.instance_uri)
        × (q.extensions ≡ p.extensions)
  step_read p q m h =
      let (a, ra, ha) = bind_ok (step_at unmarshal_text "type" p.type_uri m) _ q h in
      let (b, rb, hb) = bind_ok (step_at unmarshal_text "title" p.title m) _ q ha in
      let (c, rc, hc) = bind_ok (step_at unmarshal_number "status" p.status m) _ q hb in
      let (d, rd, hd) = bind_ok (step_at unmarshal_text "detail" p.detail m) _ q hc in
      let (e, re, he) = bind_ok (step_at unmarshal_text "instance" p.instance_uri m) _ q hd in
      let same = ok_same he in rw (← same) (ra, rb, rc, rd, re, refl)

  read_on :
      {A : Type 0} (decode : String → A → Result A) (name : String) (v w z : A) (m : Member)
      (ms : List Member)
      → step_at decode name v m ≡ ok w
      → value_at decode name w ms ≡ ok z
      → value_at decode name v (m ∷ ms) ≡ ok z
  read_on decode name v w z m ms step rest = rw step rest

  assigned_read :
      (ms : List Member) (before p : ProblemDetails)
      → assigned json before ms ≡ ok p
      → IsReadFrom before ms p × (p.extensions ≡ before.extensions)
  unfolding assigned
  assigned_read [] before p h =
      let same = ok_same h in
      rw (← same) (
        record { type_uri = refl; title = refl; status = refl; detail = refl; instance_uri = refl },
        refl,
      )
  assigned_read (m ∷ ms) before p h =
      let (q, first, rest) =
        bind_ok (if is_registered m.0 then assign_registered json before m else ok before) _ p h in
      let (t, i, s, d, n, e) = step_read before q m (sym (assigned_by_fields before m) ∙ first) in
      let (r, kept) = assigned_read ms q p rest in
      (
        record {
          type_uri = read_on unmarshal_text "type" _ _ _ m ms t r.type_uri;
          title = read_on unmarshal_text "title" _ _ _ m ms i r.title;
          status = read_on unmarshal_number "status" _ _ _ m ms s r.status;
          detail = read_on unmarshal_text "detail" _ _ _ m ms d r.detail;
          instance_uri = read_on unmarshal_text "instance" _ _ _ m ms n r.instance_uri;
        },
        kept ∙ e,
      )

  read_assigned :
      (ms : List Member) (before p : ProblemDetails)
      → IsReadFrom before ms p
      → p.extensions ≡ before.extensions
      → assigned json before ms ≡ ok p
  unfolding assigned
  read_assigned [] before p r kept =
      let t = ok_same r.type_uri in
      let i = ok_same r.title in
      let s = ok_same r.status in
      let d = ok_same r.detail in
      let n = ok_same r.instance_uri in
      let e = sym kept in
      λ x. ok (record {
        type_uri = t x;
        title = i x;
        status = s x;
        detail = d x;
        instance_uri = n x;
        extensions = e x;
      })
  read_assigned (m ∷ ms) before p r kept =
      let (t, ft, rt) = bind_ok (step_at unmarshal_text "type" before.type_uri m) _ _ r.type_uri in
      let (i, fi, ri) = bind_ok (step_at unmarshal_text "title" before.title m) _ _ r.title in
      let (s, fs, rs) = bind_ok (step_at unmarshal_number "status" before.status m) _ _ r.status in
      let (d, fd, rd) = bind_ok (step_at unmarshal_text "detail" before.detail m) _ _ r.detail in
      let (n, fn, rn) =
        bind_ok (step_at unmarshal_text "instance" before.instance_uri m) _ _ r.instance_uri in
      let q : ProblemDetails = record before {
        type_uri = t;
        title = i;
        status = s;
        detail = d;
        instance_uri = n;
      } in
      let first : by_fields before m ≡ ok q = rw ft (rw fi (rw fs (rw fd (rw fn refl)))) in
      rw (assigned_by_fields before m ∙ first) (
        read_assigned ms q p
          (record { type_uri = rt; title = ri; status = rs; detail = rd; instance_uri = rn }) kept)

  extended :
      (es ms : List Member) (before q : ProblemDetails)
      → q.extensions ≡ none
      → IsReadFrom before ms q
      → let p = with_members es q in IsReadFrom before ms p × (p.extensions ≡ extras_object es)
  extended [] ms before q e r = (r, e)
  extended (m ∷ es) ms before q e r = (
    record {
      type_uri = r.type_uri;
      title = r.title;
      status = r.status;
      detail = r.detail;
      instance_uri = r.instance_uri;
    },
    refl,
  )

  shed :
      (ms : List Member) (before p : ProblemDetails)
      → IsReadFrom before ms p
      → IsReadFrom before ms (record p { extensions = none })
  shed ms before p r = record {
    type_uri = r.type_uri;
    title = r.title;
    status = r.status;
    detail = r.detail;
    instance_uri = r.instance_uri;
  }

  -- A text that the Decoder reads as an object decodes to a document exactly when, field by field, the values of
  -- the field's name among the members, each decoded over the one before, give what the document has, where
  -- a name that is not there gives the empty value; and the members with other names than "type",
  -- "title", "status", "detail" and "instance", in their order and with the bytes of their values, are its
  -- extensions, which are left out if there are none.
  pub unmarshal_problem-IsReadFrom :
      (s : String) (ms : List Member) (p : ProblemDetails)
      → ReadsObject json s ms
      → (unmarshal_problem json s ≡ ok p)
        ↔ (IsReadFrom nothing_read ms p × (p.extensions ≡ extras_object (extras ms)))
  unmarshal_problem-IsReadFrom s ms p reads = (
    λ h.
        let (q, all, made) =
          bind_ok (assigned json empty_problem ms) _ p
            (sym (unmarshal_problem_lem json s ms reads) ∙ h) in
        let (r, kept) = assigned_read ms empty_problem q all in
        subst (λ d. IsReadFrom nothing_read ms d × (d.extensions ≡ extras_object (extras ms)))
          (ok_same made)
          (rw (← extras_same ms) (extended (extensions_of ms) ms empty_problem q kept r)),
    λ (r, e).
        unmarshal_problem_lem json s ms reads
        ∙ rw
            (read_assigned ms empty_problem (record p { extensions = none })
              (shed ms nothing_read p r) refl)
            (ap ok (replaced (extensions_of ms) p (rw (extras_same ms) e))),
  )
