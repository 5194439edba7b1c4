-- ===== src/Receiver/Poller/Batch.antt =====
-- receiver/poller.go: what becomes of the SETs of one poll response.
use go_ssf.Receiver.Sink.{Sink}
use mathlib.Core.List.{append_assoc, append-nil}
use go_ssf.Prelude.{
  Bool, true, false, ◌||◌, not, Option, none, some, List, [], ◌∷◌, ◌++◌, String, ◌≡◌, refl, sym, ap,
  ◌∙◌, inl, inr, arith, Bool-cases, ◌==◌, if◌then◌else◌, is_some, ◌↔◌,
}
use go_ssf.Prelude.Lists.{length}
use go_ssf.Prelude.Map.{Map, get, put, has, get-put}
use go_ssf.Errors.{Error, Result, ok, err, is, permanent_sink}
use go_ssf.Wire.{SetErr, PollResponse}
use go_ssf.Receiver.Rounds.{Outcome, PollerConfig, set_err_invalid_set, set_err_delivery_failure}
use go_ssf.Receiver.Poller.{deliver_one, process_entries, process, by_verify, by_sink}

abbrev pub member : String → List String → Bool
member x [] = false
member x (y ∷ ys) = y == x || member x ys

member-append :
    (x : String) (xs ys : List String) → member x (xs ++ ys) ≡ (member x xs || member x ys)
member-append x [] ys = refl
member-append x (y ∷ xs) ys = ground (arith, member-append x xs ys)

-- An entry by its outcome.
abbrev pub Answer : Type 0
Answer = String × Outcome

abbrev pub acked : List Answer → List String
acked [] = []
acked ((jti, o) ∷ rest) = if o.ack_jti then jti ∷ acked rest else acked rest

-- The last report for an id among the answers, or else the given one.
abbrev pub reported : String → List Answer → Option SetErr → Option SetErr
reported j [] before = before
reported j ((jti, o) ∷ rest) before = reported j rest (
    if jti == j
    then if o.err_code == ""
      then before
      else some (record { code = o.err_code; description = o.err_desc })
    else before)

-- How a SET fares: rejected by the verifier, which the Sink never sees; taken by the Sink; refused
-- for good; refused for now.
pub data Fate (S : Type 0) (verify : String → Result String) (deliver_set : Sink S) (s : S)
    (jws : String) (o : Outcome) (s' : S) : Type 0 where
  invalid :
      (e : Error)
      → verify jws ≡ err e
      → s' ≡ s
      → o.ack_jti ≡ false
      → o.err_code ≡ set_err_invalid_set
      → Fate S verify deliver_set s jws o s'
  taken :
      (payload : String)
      → verify jws ≡ ok payload
      → deliver_set s payload ≡ (none, s')
      → o.ack_jti ≡ true
      → o.err_code ≡ ""
      → Fate S verify deliver_set s jws o s'
  refused :
      (payload : String) (e : Error)
      → verify jws ≡ ok payload
      → deliver_set s payload ≡ (some e, s')
      → o.ack_jti ≡ is e permanent_sink
      → o.err_code ≡ set_err_delivery_failure
      → Fate S verify deliver_set s jws o s'

ack_step :
    (b : Bool) (jti : String) (ack rest : List String)
    → (if b then ack ++ (jti ∷ []) else ack) ++ rest ≡ ack ++ (if b then jti ∷ rest else rest)
ack_step true jti ack rest = append_assoc ack (jti ∷ []) rest
ack_step false jti ack rest = refl

pub report_step :
    (silent : Bool) (jti j : String) (errs : Map SetErr) (report : SetErr)
    → get (if silent then errs else put errs jti report) j
      ≡ (if jti == j then if silent then get errs j else some report else get errs j)
report_step true jti j errs report = ground arith
report_step false jti j errs report = get-put errs jti j report

account_step :
    (ack silent : Bool) (jti jws j : String) (entries : Map String) (before : Option SetErr)
    (report : SetErr) (acks : List String) (later : Option SetErr → Option SetErr)
    → (ack || not silent) ≡ true
    → ((b : Option SetErr) → (member j acks || is_some (later b)) ≡ (is_some b || has entries j))
    → (member j (if ack then jti ∷ acks else acks)
        || is_some (later (if jti == j then if silent then before else some report else before)))
      ≡ (is_some before || has ((jti, jws) ∷ entries) j)
unfolding get
account_step true silent jti jws j entries before report acks later h ih =
    elim (Bool-cases (jti == j)) [
      | inl same ↦ rw same (ground arith)
      | inr other ↦ rw other (ih before)
    ]
account_step false true jti jws j entries before report acks later h ih = ground (arith, h)
account_step false false jti jws j entries before report acks later h ih =
    elim (Bool-cases (jti == j)) [
      | inl same ↦ rw same (ground (arith, ih (some report)))
      | inr other ↦ rw other (ih before)
    ]

module _ {S : Type 0} (verify : String → Result String) (deliver_set : Sink S)
    (config : PollerConfig) where
  sink-Fate :
      (s : S) (jws payload : String)
      → verify jws ≡ ok payload
      → (answer : Option Error) (s' : S) → deliver_set s payload ≡ (answer, s')
      → Fate S verify deliver_set s jws (by_sink verify deliver_set config answer) s'
  unfolding by_sink
  sink-Fate s jws payload v none s' d = taken payload v d refl refl
  sink-Fate s jws payload v (some e) s' d = elim (Bool-cases (is e permanent_sink)) [
    | inl final ↦ rw final (refused payload e v d (sym final) refl)
    | inr brief ↦ rw brief (refused payload e v d (sym brief) refl)
  ]

  verify-Fate :
      (s : S) (jws : String) (r : Result String)
      → verify jws ≡ r
      → let (o, s') = by_verify verify deliver_set config s r in
        Fate S verify deliver_set s jws o s'
  unfolding by_verify
  verify-Fate s jws (err e) v = invalid e v refl refl refl
  verify-Fate s jws (ok payload) v =
      sink-Fate s jws payload v (deliver_set s payload).0 (deliver_set s payload).1 refl

  -- Every SET has one of the fates, and is acknowledged exactly when the Sink took it or refused it
  -- for good; a SET that the verifier rejects does not reach the Sink.
  deliver_one-Fate :
      (s : S) (jws : String)
      → let (o, s') = deliver_one verify deliver_set config s jws in
        Fate S verify deliver_set s jws o s'
  unfolding deliver_one
  deliver_one-Fate s jws = verify-Fate s jws (verify jws) refl

  -- The answers to the entries of a batch, one after the other.
  unfoldable pub answers : S → List (String × String) → List Answer
  answers s [] = []
  answers s ((jti, jws) ∷ entries) =
      let (o, s') = deliver_one verify deliver_set config s jws in (jti, o) ∷ answers s' entries

  -- Serial delivery acknowledges in the order of the entries, and reports by id.
  entries_lem :
      (entries : List (String × String)) (ack : List String) (errs : Map SetErr) (s : S)
      → let (ack', errs', s') = process_entries verify deliver_set config entries ack errs s in
        (ack' ≡ ack ++ acked (answers s entries))
        × ((j : String) → get errs' j ≡ reported j (answers s entries) (get errs j))
  unfolding process_entries answers
  entries_lem [] ack errs s = (rw append-nil, λ j. refl)
  entries_lem ((jti, jws) ∷ entries) ack errs s =
      let (o, s') = deliver_one verify deliver_set config s jws in
      let report : SetErr = record { code = o.err_code; description = o.err_desc } in
      let ih =
        entries_lem entries (if o.ack_jti then ack ++ (jti ∷ []) else ack)
          (if o.err_code == "" then errs else put errs jti report) s' in
      (
        ih.0 ∙ ack_step o.ack_jti jti ack (acked (answers s' entries)),
        λ j.
            ih.1 j
            ∙ ap (reported j (answers s' entries))
                (report_step (o.err_code == "") jti j errs report),
      )

  process_by :
      (sets : Map String) (hint : Option Bool) (s : S)
      → let o =
          (process verify deliver_set config (record { sets = sets; more_available = hint }) s).0 in
        (o.ack ≡ acked (answers s sets))
        × ((j : String) → get o.set_errs j ≡ reported j (answers s sets) none)
        × (o.delivered_count ≡ length o.ack)
        × (o.empty ≡ true ↔ sets ≡ [])
  unfolding process get answers
  process_by [] hint s = (refl, λ j. refl, refl, (λ e. refl, λ e. refl))
  process_by ((jti, jws) ∷ sets) hint s =
      let lem = entries_lem ((jti, jws) ∷ sets) [] [] s in
      (lem.0, lem.1, refl, (λ e. ground (arith, e), λ e. ground (arith, e)))

  -- What `process` does with a batch is what its SETs' answers say, one after the other: the ids to
  -- acknowledge in the order of the batch, for each id its last report, their number, and the
  -- Transmitter's hint; a batch with no SETs leaves the Sink alone.
  pub process-answers :
      (pr : PollResponse) (s : S)
      → let o = (process verify deliver_set config pr s).0 in
        (o.ack ≡ acked (answers s pr.sets))
        × ((j : String) → get o.set_errs j ≡ reported j (answers s pr.sets) none)
        × (o.delivered_count ≡ length o.ack)
        × (o.empty ≡ true ↔ pr.sets ≡ [])
  process-answers pr s = process_by pr.sets pr.more_available s

  answered :
      (s : S) (jws : String)
      → let o = (deliver_one verify deliver_set config s jws).0 in
        (o.ack_jti || not (o.err_code == "")) ≡ true
  answered s jws = elim (deliver_one-Fate s jws) [
    | invalid e v k a c ↦ rw a (rw c (ground arith))
    | taken payload v k a c ↦ rw a refl
    | refused payload e v k a c ↦ rw a (rw c (ground arith))
  ]

  accounted :
      (entries : List (String × String)) (s : S) (j : String) (before : Option SetErr)
      → (member j (acked (answers s entries)) || is_some (reported j (answers s entries) before))
        ≡ (is_some before || has entries j)
  unfolding answers get
  accounted [] s j before = ground arith
  accounted ((jti, jws) ∷ entries) s j before =
      let (o, s') = deliver_one verify deliver_set config s jws in
      account_step o.ack_jti (o.err_code == "") jti jws j entries before
        (record { code = o.err_code; description = o.err_desc }) (acked (answers s' entries))
        (reported j (answers s' entries)) (answered s jws) (accounted entries s' j)

  -- No SET of a poll response is lost: exactly the ids of the batch are acknowledged or reported
  -- with an error, whatever the verifier and the Sink say.
  pub process-IsAccounted :
      (pr : PollResponse) (s : S) (j : String)
      → let o = (process verify deliver_set config pr s).0 in
        (member j o.ack || has o.set_errs j) ≡ has pr.sets j
  process-IsAccounted pr s j =
      let lem = process-answers pr s in rw (lem.0, lem.1 j) (accounted pr.sets s j none)
