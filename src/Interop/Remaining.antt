-- ===== src/Interop/Remaining.antt =====
-- internal/interop/interop.go with receiver/poller.go: what stays outstanding of SETs that the Poller delivers
-- one after the other.
use go_ssf.Receiver.Sink.{Sink}
use go_ssf.Prelude.{
  false, Option, none, some, List, [], ◌∷◌, ◌++◌, String, ◌==◌, ◌≡◌, refl, arith, if◌then◌else◌,
  Bool-cases, inl, inr, eq_iff,
}
use go_ssf.Prelude.Map.{get, IsUnique}
use go_ssf.Errors.{Result, or_else}
use go_ssf.Receiver.Rounds.{Outcome, PollerConfig}
use go_ssf.Receiver.Poller.{deliver_one}
use go_ssf.Receiver.Poller.Batch.{acked, answers}
use go_ssf.Receiver.Poller.Parallel.Serial.{sink_after}
use go_ssf.Interop.{QueueEntry}
use go_ssf.Interop.Batch.{acked as listed}

-- What an answer leaves of the SET that it is about.
abbrev left_by : Outcome → String → Option String
left_by o jws = if o.ack_jti then none else some jws

module _ {S : Type 0} (verify : String → Result String) (deliver_set : Sink S)
    (config : PollerConfig) where
  -- The SET that stays outstanding under a jti when entries are delivered one after the other, each forgotten
  -- if it is acknowledged.
  unfoldable pub remaining : S → List QueueEntry → String → Option String → Option String
  remaining s [] jti before = before
  remaining s (e ∷ es) jti before =
      let (o, s') = deliver_one verify deliver_set config s e.1 in
      remaining s' es jti (if e.0 == jti then left_by o e.1 else before)

  pub remaining-append :
      (s : S) (es more : List QueueEntry) (jti : String) (before : Option String)
      → remaining (sink_after verify deliver_set config s es) more jti (remaining s es jti before)
        ≡ remaining s (es ++ more) jti before
  unfolding remaining sink_after
  remaining-append s [] more jti before = refl
  remaining-append s (e ∷ es) more jti before =
      remaining-append (deliver_one verify deliver_set config s e.1).1 es more jti _

  unanswered :
      (s : S) (es : List QueueEntry) (jti : String)
      → get es jti ≡ none
      → listed (acked (answers verify deliver_set config s es)) jti ≡ false
  unfolding answers get
  unanswered s [] jti h = refl
  unanswered s ((k, jws) ∷ es) jti h = elim (Bool-cases (k == jti)) [
    | inl same ↦ absurd (ground (arith, (rw same at h)))
    | inr other ↦
        let ih =
          unanswered (deliver_one verify deliver_set config s jws).1 es jti (rw other at h) in
        ground (arith, other, ih)
  ]

  unlisted :
      (s : S) (es : List QueueEntry) (jti : String) (before : Option String)
      → get es jti ≡ none
      → remaining s es jti before ≡ before
  unfolding remaining get
  unlisted s [] jti before h = refl
  unlisted s ((k, jws) ∷ es) jti before h = elim (Bool-cases (k == jti)) [
    | inl same ↦ absurd (ground (arith, (rw same at h)))
    | inr other ↦
        rw other
          (unlisted (deliver_one verify deliver_set config s jws).1 es jti before (rw other at h))
  ]

  -- A batch without repeated jtis, outstanding in whole and then acknowledged by its answers.
  pub batch_remaining :
      (s : S) (es : List QueueEntry) (jti : String) (before : Option String)
      → IsUnique es
      → (if listed (acked (answers verify deliver_set config s es)) jti
          then none
          else or_else (get es jti) before)
        ≡ remaining s es jti before
  unfolding remaining answers get
  batch_remaining s [] jti before h = refl
  batch_remaining s ((k, jws) ∷ es) jti before (absent, unique) =
      let (o, s') = deliver_one verify deliver_set config s jws in
      elim (Bool-cases (k == jti)) [
        | inl same ↦
            let gone = rw ((eq_iff k jti).0 same) at absent in
            let silent = unanswered s' es jti gone in
            rw same (rw (unlisted s' es jti (left_by o jws) gone) (ground (arith, same, silent)))
        | inr other ↦
            let ih = batch_remaining s' es jti before unique in rw other (ground (arith, other, ih))
      ]
