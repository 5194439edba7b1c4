-- ===== src/Receiver/Poller/Carry.antt =====
-- receiver/poller.go: what `Run` sends from one round to the next, the acknowledgements and the
-- reports of the last batch that arrived, which a failed round keeps for the following one.
use go_ssf.Receiver.Sink.{Sink}
use go_ssf.Prelude.{
  subst, map, ℕ, ◌/◌, true, false, ◌||◌, Option, none, some, List, [], ◌∷◌, String, ◌≡◌, refl, sym,
  ap, ap₂, ◌∙◌, inl, inr, arith, eqb, if◌then◌else◌, Bool-cases,
}
use go_ssf.Prelude.Lists.{length, take}
use go_ssf.Prelude.Map.{Map}
use go_ssf.Errors.{Error, Result, ok, err}
use go_ssf.Wire.{SetErr, PollRequest, PollResponse}
use go_ssf.Receiver.Poller.Ends.{Holds, failed-Holds, succeeded-Holds}
use go_ssf.Receiver.Rounds.{
  PollOutcome, PollReply, request_error, response, PollRound, PollerConfig, RunState, Next, return,
  continue,
}
use go_ssf.Receiver.Poller.{
  process, poll_once, round, run, decide, by_context, by_reply, by_build, by_body, follow,
  posted_in,
}

-- The batch that a round brings: none when the request was not built or not answered, when the
-- status is not 2xx, or when the body does not decode.
abbrev pub accepted_by : Option Error → PollReply → Option PollResponse
accepted_by (some e) reply = none
accepted_by none (request_error e) = none
accepted_by none (response status retry_after (err e)) = none
accepted_by none (response status retry_after (ok pr)) =
    if eqb (status / 100) 2 then some pr else none

abbrev pub accepted : PollRound → Option PollResponse
accepted r = accepted_by r.build_err r.reply

accepted-other :
    (status : ℕ) (retry_after : String) (body : Result PollResponse)
    → eqb (status / 100) 2 ≡ false
    → accepted_by none (response status retry_after body) ≡ none
accepted-other status retry_after (err e) h = refl
accepted-other status retry_after (ok pr) h = rw h refl

accepted-2xx :
    (status : ℕ) (retry_after : String) (body : Result PollResponse)
    → eqb (status / 100) 2 ≡ true
    → accepted_by none (response status retry_after body) ≡ accepted_by none (response 200 "" body)
accepted-2xx status retry_after (err e) h = refl
accepted-2xx status retry_after (ok pr) h = rw h refl

module _ {S : Type 0} (verify : String → Result String) (deliver_set : Sink S)
    (config : PollerConfig) where
  -- What is owed to the Transmitter, with the Sink's state.
  abbrev pub Ledger : Type 0
  Ledger = List String × Map SetErr × S

  abbrev pub ledger_of : RunState S → Ledger
  ledger_of st = (st.next_ack, st.next_set_errs, st.sink_state)

  abbrev pub enter : Ledger → Option PollResponse → Ledger
  enter l none = l
  enter (ack, errs, s) (some pr) =
      let (o, s') = process verify deliver_set config pr s in (o.ack, o.set_errs, s')

  settle : RunState S → PollOutcome × Option Error × S → Ledger
  settle st (o, some e, s) = (st.next_ack, st.next_set_errs, s)
  settle st (o, none, s) = (o.ack, o.set_errs, s)

  decide-Holds :
      (st : RunState S) (r : PollRound) (result : PollOutcome × Option Error × S)
      → Holds verify deliver_set config
          (λ next. ledger_of next ≡ settle st result)
          (decide verify deliver_set config st r result).1
  unfolding decide settle
  decide-Holds st r (o, some e, s) =
      failed-Holds verify deliver_set config _ st r o s r.ctx_after refl refl
  decide-Holds st r (o, none, s) =
      succeeded-Holds verify deliver_set config _ st r o s refl refl refl

  body-settle :
      (st : RunState S) (body : Result PollResponse)
      → settle st (by_body verify deliver_set config body st.sink_state)
        ≡ enter (ledger_of st) (accepted_by none (response 200 "" body))
  unfolding settle by_body
  body-settle st (err e) = refl
  body-settle st (ok pr) = refl

  reply-settle :
      (st : RunState S) (reply : PollReply)
      → settle st (by_reply verify deliver_set config st reply)
        ≡ enter (ledger_of st) (accepted_by none reply)
  unfolding settle by_reply
  reply-settle st (request_error e) = refl
  reply-settle st (response status retry_after body) =
      elim (Bool-cases (eqb status 429 || eqb status 503)) [
        | inl throttled ↦ rw throttled (
            ap (enter (ledger_of st))
              (sym (accepted-other status retry_after body (ground (arith, throttled)))))
        | inr plain ↦ rw plain (elim (Bool-cases (eqb (status / 100) 2)) [
          | inl good ↦ rw good (
              body-settle st body
              ∙ ap (enter (ledger_of st)) (sym (accepted-2xx status retry_after body good)))
          | inr bad ↦
              rw bad (ap (enter (ledger_of st)) (sym (accepted-other status retry_after body bad)))
        ])
      ]

  build-settle :
      (st : RunState S) (r : PollRound) (b : Option Error)
      → settle st (by_build verify deliver_set config st r b)
        ≡ enter (ledger_of st) (accepted_by b r.reply)
  unfolding settle by_build
  build-settle st r (some e) = refl
  build-settle st r none = reply-settle st r.reply

  poll-settle :
      (st : RunState S) (r : PollRound)
      → settle st (poll_once verify deliver_set config st r) ≡ enter (ledger_of st) (accepted r)
  unfolding poll_once
  poll-settle st r = build-settle st r r.build_err

  context-Holds :
      (st : RunState S) (r : PollRound) (c : Option Error)
      → Holds verify deliver_set config
          (λ next. ledger_of next ≡ enter (ledger_of st) (accepted r))
          (by_context verify deliver_set config st r c).after
  unfolding by_context Holds
  context-Holds st r (some e) = tt
  context-Holds st r none =
      subst
        (λ l.
          Holds verify deliver_set config (λ next. ledger_of next ≡ l)
            (decide verify deliver_set config st r (poll_once verify deliver_set config st r)).1)
        (poll-settle st r) (decide-Holds st r (poll_once verify deliver_set config st r))

  -- A round leaves for the next one what its batch owes, and where no batch arrived what was owed
  -- before.
  round-Holds :
      (st : RunState S) (r : PollRound)
      → Holds verify deliver_set config
          (λ next. ledger_of next ≡ enter (ledger_of st) (accepted r))
          (round verify deliver_set config st r).after
  unfolding round
  round-Holds st r = context-Holds st r r.ctx_err

  -- The request that a ledger makes.
  abbrev pub owing : Ledger → PollRequest
  owing (ack, errs, s) = record {
    ack = ack;
    set_errs = errs;
    max_events = some config.max_events;
    return_immediately = none;
  }

  -- A round posts unless the context is done or the request is not built.
  abbrev post : Option Error → Option Error → PollRequest → Option PollRequest
  post (some done) b q = none
  post none (some e) q = none
  post none none q = some q

  -- The requests of a run by the ledger alone: what each round posts and what it enters.
  abbrev pub requests : Ledger → List PollRound → List (Option PollRequest)
  requests l [] = []
  requests l (r ∷ rs) = post r.ctx_err r.build_err (owing l) ∷ requests (enter l (accepted r)) rs

  built-posted :
      (st : RunState S) (b : Option Error)
      → posted_in verify deliver_set config st b ≡ post none b (owing (ledger_of st))
  built-posted st (some e) = refl
  built-posted st none = refl

  context-posted :
      (st : RunState S) (r : PollRound) (c : Option Error)
      → (by_context verify deliver_set config st r c).posted
        ≡ post c r.build_err (owing (ledger_of st))
  unfolding by_context
  context-posted st r (some e) = refl
  context-posted st r none = built-posted st r.build_err

  round-posted :
      (st : RunState S) (r : PollRound)
      → (round verify deliver_set config st r).posted
        ≡ post r.ctx_err r.build_err (owing (ledger_of st))
  unfolding round
  round-posted st r = context-posted st r r.ctx_err

  follow-Posts :
      (l : Ledger) (rs : List PollRound) (next : Next S)
      → Holds verify deliver_set config (λ st. ledger_of st ≡ l) next
      → ((st : RunState S)
          → map (λ t. t.posted) (run verify deliver_set config st rs)
            ≡ take (length (run verify deliver_set config st rs)) (requests (ledger_of st) rs))
      → let rest =
          follow verify deliver_set config (λ st. run verify deliver_set config st rs) next in
        map (λ t. t.posted) rest ≡ take (length rest) (requests l rs)
  unfolding follow Holds
  follow-Posts l rs (return e) h ih = refl
  follow-Posts l rs (continue st) h ih = rw (← h) (ih st)

  -- Each poll request carries the acknowledgements and the error reports of the last batch that
  -- arrived, however many rounds failed since then: the requests that a run posts are, as far as the
  -- run goes, those of the ledger.
  pub run-Posts :
      (st : RunState S) (rs : List PollRound)
      → map (λ t. t.posted) (run verify deliver_set config st rs)
        ≡ take (length (run verify deliver_set config st rs)) (requests (ledger_of st) rs)
  unfolding run
  run-Posts st [] = refl
  run-Posts st (r ∷ rs) = ap₂ ◌∷◌ (round-posted st r) (
      follow-Posts (enter (ledger_of st) (accepted r)) rs
        (round verify deliver_set config st r).after (round-Holds st r) (λ st'. run-Posts st' rs))
