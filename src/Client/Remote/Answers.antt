-- ===== src/Client/Remote/Answers.antt =====
-- transmitter/handlers.go and client/client.go: what the client makes of each kind of answer of a handler.
use go_ssf.Prelude.{
  ℕ, true, false, ◌&&◌, ◌||◌, Option, none, some, String, ltb, leb, eqb, ◌≡◌, refl, sym, ap, ◌∙◌,
  arith,
}
use go_ssf.Errors.{Error, Sentinel, Result, ok, err, is}
use go_ssf.Transmitter.Interface.{Page, Done}
use go_ssf.Transmitter.Problem.{write_problem}
use go_ssf.Transmitter.Http.{
  Coding, Library, problem, problem_response, write_json, write_empty_json, by_text, text_or_empty,
}
use go_ssf.Transmitter.Handlers.{
  reply, reply_created, reply_empty, reply_deleted, reply_listing, not_nil,
}
use go_ssf.Client.Errors.{Decoding, parse_http_error, by_body}
use go_ssf.Client.Errors.Crossing.{carried, finds, just, seen, status_carried, sentinels_cross}
use go_ssf.Client.Requests.{by_answer, refused, of_success, decoded}
use go_ssf.Client.Methods.{first_page, zero_listing}
use go_ssf.Client.Remote.{Reader, arrives, Travels, TravelsIfOk, Agrees, listing_of}

is_refused : (n : ℕ) → (leb 200 n && ltb n 300) ≡ false → (ltb n 200 || leb 300 n) ≡ true
is_refused n h = ground (arith, h)

module _ {Identifier : Type 0} (lib : Library Identifier) (d : Decoding) (read : Reader) where
  parsed :
      (e : Error) (bytes : String)
      → let r = seen (write_problem lib.texts e) bytes in
        parse_http_error d r ≡ some (by_body d r (ok bytes))
  unfolding parse_http_error
  parsed e bytes = rw (status_carried lib.texts d e).1 refl

  problem_read :
      {A : Type 0} (zero_value : A) (out : Option (Coding A)) (e : Error)
      → (f : Error) × (by_answer d zero_value out (ok (arrives (problem lib e))) ≡ err f)
        × ((t : Sentinel) → is f t ≡ finds (just (carried e)) t)
  unfolding by_answer problem problem_response refused
  problem_read zero_value out e =
      let a = write_problem lib.texts e in
      let bytes = text_or_empty (lib.codings.problem a.problem) in
      (
        by_body d (seen a bytes) (ok bytes),
        rw (is_refused a.status (status_carried lib.texts d e).1) (rw (parsed e bytes) refl),
        λ t. ap (λ o. finds o t) (sym (parsed e bytes)) ∙ sentinels_cross lib.texts d e bytes t,
      )

  json_read :
      {A : Type 0} (zero_value : A) (c : Coding A) (n : ℕ) (v : A)
      → (ltb n 200 || leb 300 n) ≡ false
      → eqb n 204 ≡ false
      → Travels read c v
      → by_answer d zero_value (some c) (ok (arrives (write_json lib c n v))) ≡ ok v
  unfolding by_answer write_json by_text of_success decoded
  json_read zero_value c n v success content (b, marshals, some_bytes, u, decodes, r) =
      rw marshals (rw success (rw content (rw some_bytes (rw decodes refl))))

  module _ {S : Type 0} where
    pub reply_read :
        {A : Type 0} (zero_value : A) (c : Coding A) (x : Result A × S)
        → TravelsIfOk read c x.0
        → Agrees (λ v. v) (by_answer d zero_value (some c) (ok (arrives (reply lib c x).0))) x.0
          × ((reply lib c x).1 ≡ x.1)
    unfolding reply
    reply_read zero_value c (ok v, s) h = (json_read zero_value c 200 v refl refl h, refl)
    reply_read zero_value c (err e, s) h = (problem_read zero_value (some c) e, refl)

    pub reply_created_read :
        {A : Type 0} (zero_value : A) (c : Coding A) (x : Result A × S)
        → TravelsIfOk read c x.0
        → Agrees
            (λ v. v)
            (by_answer d zero_value (some c) (ok (arrives (reply_created lib c x).0)))
            x.0
          × ((reply_created lib c x).1 ≡ x.1)
    unfolding reply_created
    reply_created_read zero_value c (ok v, s) h = (json_read zero_value c 201 v refl refl h, refl)
    reply_created_read zero_value c (err e, s) h = (problem_read zero_value (some c) e, refl)

    pub reply_empty_read :
        (x : Result Done × S)
        → Agrees (λ v. v) (by_answer d tt none (ok (arrives (reply_empty lib x).0))) x.0
          × ((reply_empty lib x).1 ≡ x.1)
    unfolding reply_empty by_answer of_success write_empty_json
    reply_empty_read (ok v, s) = (refl, refl)
    reply_empty_read (err e, s) = (problem_read tt none e, refl)

    pub reply_deleted_read :
        (x : Result Done × S)
        → Agrees (λ v. v) (by_answer d tt none (ok (arrives (reply_deleted lib x).0))) x.0
          × ((reply_deleted lib x).1 ≡ x.1)
    unfolding reply_deleted by_answer of_success
    reply_deleted_read (ok v, s) = (refl, refl)
    reply_deleted_read (err e, s) = (problem_read tt none e, refl)

    pub reply_listing_read :
        (x : Result Page × S)
        → TravelsIfOk read lib.codings.listing (listing_of x.0)
        → Agrees
            (λ page. ((not_nil page).streams, (not_nil page).next_page_token))
            (first_page (
              by_answer d zero_listing
                (some lib.codings.listing)
                (ok (arrives (reply_listing lib x).0))))
            x.0
          × ((reply_listing lib x).1 ≡ x.1)
    unfolding reply_listing
    reply_listing_read (ok page, s) h = (
      ap first_page (json_read zero_listing lib.codings.listing 200 (not_nil page) refl refl h),
      refl,
    )
    reply_listing_read (err e, s) h =
        let refusal = problem_read zero_listing (some lib.codings.listing) e in
        ((refusal.0, ap first_page refusal.1, refusal.2), refl)
