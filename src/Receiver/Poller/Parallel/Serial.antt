-- ===== src/Receiver/Poller/Parallel/Serial.antt =====
-- receiver/poller.go: what a pool of workers does with a batch is what serial delivery does with the batch
-- in another order.
use go_ssf.Receiver.Sink.{Sink}
use mathlib.Core.List.Permᴰ
use mathlib.Core.List.{Permᴰ, append_assoc, append-nil}
use go_ssf.Prelude.{
  ℕ, zero, suc, ◌+◌, Bool, true, false, Option, none, some, List, [], ◌∷◌, ◌++◌, String, ◌≡◌, refl,
  sym, ap, ◌∙◌, inl, inr, arith, Bool-cases, ltb, ◌==◌, if◌then◌else◌,
}
use go_ssf.Prelude.Lists.{length, snoc}
use go_ssf.Prelude.Map.{Map, get, IsUnique}
use go_ssf.Errors.{Result}
use go_ssf.Wire.{SetErr}
use go_ssf.Receiver.Rounds.{PollerConfig}
use go_ssf.Receiver.Poller.{deliver_one, process, process_entries}
use go_ssf.Receiver.Poller.Batch.{Answer, acked, reported, answers, report_step}
use go_ssf.Receiver.Poller.Parallel.{
  Entry, Pool, Move, take_next, deliver, record_answer, pick, with_front, taken, delivered,
  recorded, step, run_pool, start_pool,
}
use go_ssf.Receiver.Poller.Parallel.Keyed.{acked-append, reported-append}

-- The element that is picked and the others are the list in another order.
abbrev IsPicked : {A : Type 0} → List A → Option (A × List A) → Type 0
IsPicked xs none = Unit
IsPicked xs (some (y, ys)) = Permᴰ (y ∷ ys) xs

front-IsPicked :
    {A : Type 0} (x : A) (xs : List A) (o : Option (A × List A))
    → IsPicked xs o
    → IsPicked (x ∷ xs) (with_front x o)
front-IsPicked x xs none h = tt
front-IsPicked x xs (some (y, ys)) h = Permᴰ.trans (Permᴰ.swap refl refl) (Permᴰ.cons refl h)

pick-IsPicked : {A : Type 0} (n : ℕ) (xs : List A) → IsPicked xs (pick n xs)
pick-IsPicked n [] = tt
pick-IsPicked zero (x ∷ xs) = Permᴰ.refl (x ∷ xs)
pick-IsPicked (suc n) (x ∷ xs) = front-IsPicked x xs (pick n xs) (pick-IsPicked n xs)

-- An element moved from behind a list to its end, the others standing behind it.
moved :
    {A : Type 0} (x : A) (xs ys zs : List A)
    → Permᴰ (x ∷ ys) zs
    → Permᴰ (snoc xs x ++ ys) (xs ++ zs)
moved x xs ys zs p = rw append_assoc (Permᴰ.append_left xs p)

ack_snoc :
    (b : Bool) (x : String) (xs : List String)
    → (if b then snoc xs x else xs) ≡ xs ++ (if b then x ∷ [] else [])
ack_snoc true x xs = refl
ack_snoc false x xs = sym (append-nil xs)

module _ {S : Type 0} (verify : String → Result String) (deliver_set : Sink S)
    (config : PollerConfig) where
  -- The Sink's state after a serial delivery.
  unfoldable pub sink_after : S → List Entry → S
  sink_after s [] = s
  sink_after s (e ∷ es) = sink_after (deliver_one verify deliver_set config s e.1).1 es

  abbrev pub answers_to : S → List Entry → List Answer
  answers_to = answers verify deliver_set config

  sink_after-snoc :
      (s : S) (es : List Entry) (e : Entry)
      → sink_after s (snoc es e) ≡ (deliver_one verify deliver_set config (sink_after s es) e.1).1
  unfolding sink_after
  sink_after-snoc s [] e = refl
  sink_after-snoc s (x ∷ es) e =
      sink_after-snoc (deliver_one verify deliver_set config s x.1).1 es e

  answers-snoc :
      (s : S) (es : List Entry) (e : Entry)
      → answers_to s (snoc es e)
        ≡ snoc
            (answers_to s es)
            (e.0, (deliver_one verify deliver_set config (sink_after s es) e.1).0)
  unfolding sink_after answers
  answers-snoc s [] e = refl
  answers-snoc s (x ∷ es) e =
      ap (λ rest. (x.0, (deliver_one verify deliver_set config s x.1).0) ∷ rest)
        (answers-snoc (deliver_one verify deliver_set config s x.1).1 es e)

  answers-absent :
      (s : S) (es : List Entry) (k : String) → get es k ≡ none → get (answers_to s es) k ≡ none
  unfolding get answers
  answers-absent s [] k h = refl
  answers-absent s ((jti, jws) ∷ es) k h = elim (Bool-cases (jti == k)) [
    | inl same ↦ absurd (ground (arith, (rw same at h)))
    | inr other ↦
        rw other
          (answers-absent (deliver_one verify deliver_set config s jws).1 es k (rw other at h))
  ]

  pub answers-IsUnique : (s : S) (es : List Entry) → IsUnique es → IsUnique (answers_to s es)
  unfolding answers
  answers-IsUnique s [] h = tt
  answers-IsUnique s ((jti, jws) ∷ es) (absent, unique) =
      let s' = (deliver_one verify deliver_set config s jws).1 in
      (answers-absent s' es jti absent, answers-IsUnique s' es unique)

  entries_sink :
      (es : List Entry) (ack : List String) (errs : Map SetErr) (s : S)
      → (process_entries verify deliver_set config es ack errs s).2 ≡ sink_after s es
  unfolding process_entries sink_after
  entries_sink [] ack errs s = refl
  entries_sink ((jti, jws) ∷ es) ack errs s = entries_sink es _ _ _

  pub process_sink :
      (es : List Entry) (hint : Option Bool) (s : S)
      → (process verify deliver_set config (record { sets = es; more_available = hint }) s).1
        ≡ sink_after s es
  unfolding process
  process_sink [] hint s = unfold sink_after in refl
  process_sink (e ∷ es) hint s = entries_sink (e ∷ es) [] [] s

  module _ (start : S) (entries : List Entry) where
    -- A pool in the course of a batch: the entries were delivered in some order, their answers recorded in
    -- another, and the rest is at the workers or still in the channel.
    pub record Course (p : Pool S) : Type 0 where
      pub order : List Entry
      pub records : List Answer
      pub batch : Permᴰ (order ++ (p.held ++ p.queue)) entries
      pub given : Permᴰ (records ++ p.answered) (answers_to start order)
      pub sink : p.sink_state ≡ sink_after start order
      pub acks : p.ack ≡ acked records
      pub reports : (j : String) → get p.set_errs j ≡ reported j records none

    pub start-Course : Course (start_pool verify deliver_set config entries start)
    unfolding sink_after get answers
    start-Course = record {
      order = [];
      records = [];
      batch = Permᴰ.refl entries;
      given = Permᴰ.nil;
      sink = refl;
      acks = refl;
      reports = λ j. refl;
    }

    taken-Course :
        (p : Pool S) (q : List Entry)
        → p.queue ≡ q
        → Course p
        → Course (taken verify deliver_set config p q)
    unfolding taken
    taken-Course p [] e c = c
    taken-Course p (x ∷ q) e c = record {
      order = c.order;
      records = c.records;
      batch = rw append_assoc (rw e at c.batch);
      given = c.given;
      sink = c.sink;
      acks = c.acks;
      reports = c.reports;
    }

    delivered-Course :
        (p : Pool S) (o : Option (Entry × List Entry))
        → IsPicked p.held o
        → Course p
        → Course (delivered verify deliver_set config p o)
    unfolding delivered
    delivered-Course p none h c = c
    delivered-Course p (some (e, others)) h c = record {
      order = snoc c.order e;
      records = c.records;
      batch =
          Permᴰ.trans
            (moved e c.order (others ++ p.queue) (p.held ++ p.queue) (Permᴰ.append_right p.queue h))
            c.batch;
      given =
          rw (answers-snoc start c.order e, ← c.sink)
            (let a : Answer = (e.0, (deliver_one verify deliver_set config p.sink_state e.1).0) in
              Permᴰ.trans (Permᴰ.middle a c.records p.answered) (
                Permᴰ.trans (Permᴰ.cons refl c.given)
                  (Permᴰ.append_comm (a ∷ []) (answers_to start c.order))));
      sink =
          ap (λ s. (deliver_one verify deliver_set config s e.1).1) c.sink
          ∙ sym (sink_after-snoc start c.order e);
      acks = c.acks;
      reports = c.reports;
    }

    recorded-Course :
        (p : Pool S) (o : Option (Answer × List Answer))
        → IsPicked p.answered o
        → Course p
        → Course (recorded verify deliver_set config p o)
    unfolding recorded
    recorded-Course p none h c = c
    recorded-Course p (some (a, others)) h c = record {
      order = c.order;
      records = snoc c.records a;
      batch = c.batch;
      given = Permᴰ.trans (moved a c.records others p.answered h) c.given;
      sink = c.sink;
      acks =
          ack_snoc a.1.ack_jti a.0 p.ack
          ∙ ap (λ l. l ++ acked (a ∷ [])) c.acks
          ∙ sym (acked-append c.records (a ∷ []));
      reports = λ j.
          report_step (a.1.err_code == "") a.0 j p.set_errs
            (record { code = a.1.err_code; description = a.1.err_desc })
          ∙ ap (λ before. reported j (a ∷ []) before) (c.reports j)
          ∙ sym (reported-append j c.records (a ∷ []) none);
    }

    step-Course :
        (workers : ℕ) (p : Pool S) (m : Move)
        → Course p
        → Course (step verify deliver_set config workers p m)
    unfolding step
    step-Course workers p take_next c =
        elim (Bool-cases (ltb (length p.held + length p.answered) workers)) [
          | inl free ↦ rw free (taken-Course p p.queue refl c)
          | inr busy ↦ rw busy c
        ]
    step-Course workers p (deliver i) c =
        delivered-Course p (pick i p.held) (pick-IsPicked i p.held) c
    step-Course workers p (record_answer i) c =
        recorded-Course p (pick i p.answered) (pick-IsPicked i p.answered) c

    pub run-Course :
        (workers : ℕ) (p : Pool S) (ms : List Move)
        → Course p
        → Course (run_pool verify deliver_set config workers p ms)
    unfolding run_pool
    run-Course workers p [] c = c
    run-Course workers p (m ∷ ms) c =
        run-Course workers (step verify deliver_set config workers p m) ms
          (step-Course workers p m c)
