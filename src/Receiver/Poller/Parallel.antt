-- ===== src/Receiver/Poller/Parallel.antt =====
-- receiver/poller.go: the branch of `process` with more than one worker. The workers take the entries of the
-- batch from a channel, in its order; each calls `deliverOne` and then, under the mutex, adds what it
-- got to the acknowledgements and the reports. A worker is known by the entry that it holds or by the answer
-- that it has; the scheduler is a list of moves, and a move that cannot be made changes nothing. A call of
-- the Sink is one step on the Sink's own state.

pub mod Keyed
pub mod Serial
pub mod Refines
pub mod Finish
mod Examples
use go_ssf.Receiver.Sink.{Sink}
use go_ssf.Prelude.{
  ℕ, zero, suc, ◌+◌, Option, none, some, List, [], ◌∷◌, String, ◌≡◌, ltb, ◌==◌, if◌then◌else◌,
}
use go_ssf.Prelude.Lists.{length, snoc}
use go_ssf.Prelude.Map.{Map, put}
use go_ssf.Errors.{Error, Result}
use go_ssf.Wire.{SetErr, PollResponse}
use go_ssf.Receiver.Rounds.{Outcome, PollOutcome, PollerConfig}
use go_ssf.Receiver.Poller.{deliver_one, hint_of, no_sets}
use go_ssf.Receiver.Poller.Batch.{Answer}

-- `setEntry`
abbrev pub Entry : Type 0
Entry = String × String

pub record Pool (S : Type 0) : Type 0 where
  pub queue : List Entry  -- not yet taken from the channel
  pub held : List Entry  -- taken, before `deliverOne`
  pub answered : List Answer  -- delivered, before the mutex
  pub ack : List String
  pub set_errs : Map SetErr
  pub sink_state : S

-- A worker takes the next entry; one of those that hold an entry delivers it; one of those that have an
-- answer records it.
pub data Move : Type 0 where
  take_next : Move
  deliver : ℕ → Move
  record_answer : ℕ → Move

abbrev with_front {ℓ} : {A : Type ℓ} → A → Option (A × List A) → Option (A × List A)
with_front x none = none
with_front x (some (y, ys)) = some (y, x ∷ ys)

-- One element of a list, and the others.
abbrev pub pick {ℓ} : {A : Type ℓ} → ℕ → List A → Option (A × List A)
pick n [] = none
pick zero (x ∷ xs) = some (x, xs)
pick (suc n) (x ∷ xs) = with_front x (pick n xs)

module _ {S : Type 0} (verify : String → Result String) (deliver_set : Sink S)
    (config : PollerConfig) where
  unfoldable pub taken : Pool S → List Entry → Pool S
  taken p [] = p
  taken p (e ∷ rest) = record p { queue = rest; held = snoc p.held e }

  unfoldable pub delivered : Pool S → Option (Entry × List Entry) → Pool S
  delivered p none = p
  delivered p (some (e, others)) =
      let (o, s) = deliver_one verify deliver_set config p.sink_state e.1 in
      record p { held = others; answered = (e.0, o) ∷ p.answered; sink_state = s }

  unfoldable pub recorded : Pool S → Option (Answer × List Answer) → Pool S
  recorded p none = p
  recorded p (some (a, others)) = record p {
    answered = others;
    ack = if a.1.ack_jti then snoc p.ack a.0 else p.ack;
    set_errs =
        if a.1.err_code == ""
        then p.set_errs
        else put p.set_errs a.0 (record { code = a.1.err_code; description = a.1.err_desc });
  }

  -- A move of a pool with so many workers.
  unfoldable pub step : ℕ → Pool S → Move → Pool S
  unfolding taken delivered recorded
  step workers p take_next =
      if ltb (length p.held + length p.answered) workers then taken p p.queue else p
  step workers p (deliver i) = delivered p (pick i p.held)
  step workers p (record_answer i) = recorded p (pick i p.answered)

  unfoldable pub run_pool : ℕ → Pool S → List Move → Pool S
  run_pool workers p [] = p
  run_pool workers p (m ∷ ms) = run_pool workers (step workers p m) ms

  abbrev pub start_pool : List Entry → S → Pool S
  start_pool entries s = record {
    queue = entries;
    held = [];
    answered = [];
    ack = [];
    set_errs = [];
    sink_state = s;
  }

  -- `wg.Wait()` returns: the channel is empty and no worker has anything in hand.
  abbrev pub IsDone : Pool S → Type 0
  IsDone p = (p.queue ≡ []) × (p.held ≡ []) × (p.answered ≡ [])

  -- The number of workers for a batch.
  abbrev pub workers_for : ℕ → List Entry → ℕ
  workers_for parallelism entries =
      if ltb (length entries) parallelism then length entries else parallelism

  -- What `process` returns once the pool of a batch is done.
  unfoldable pub pool_outcome : PollResponse → Pool S → PollOutcome
  pool_outcome pr p = record {
    ack = p.ack;
    set_errs = p.set_errs;
    delivered_count = length p.ack;
    empty = no_sets verify deliver_set config pr.sets;
    more_available = hint_of verify deliver_set config pr.more_available;
    retry_after = 0;
  }
