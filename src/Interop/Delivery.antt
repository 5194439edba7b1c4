-- ===== src/Interop/Delivery.antt =====
-- internal/interop/interop.go: what PollEvents delivers, keeps and forgets.
use go_ssf.Prelude.{
  ℕ, zero, suc, not, Bool, true, false, Option, none, some, List, [], ◌∷◌, ◌++◌, String, ltb, ◌==◌,
  if◌then◌else◌, ◌≡◌, refl, sym, ap, ◌∙◌, arith, eq_refl,
}
use go_ssf.Prelude.Lists.{length, take, drop, take-drop}
use go_ssf.Prelude.Map.{Map, get, put, get-put, get-nil}
use go_ssf.Errors.{Result, ok, err, or_else}
use go_ssf.Wire.{StreamConfig, PollRequest, PollResponse}
use go_ssf.Store.Streams.{get_stream}
use go_ssf.Interop.{
  MemstoreTransmitter, QueueEntry, or_nothing, put_all, apply_acks, drop_acked, now_outstanding,
  batch_cap, batch_size, more_flag, poll_batch, poll_events, by_stream,
}
use go_ssf.Interop.Batch.{acked, get-put_all, get-drop_acked}

-- The SETs of a stream that wait, and those delivered and not acknowledged.
abbrev pub waiting : MemstoreTransmitter → String → List QueueEntry
waiting s id = or_nothing (get s.pending id)

abbrev pub unacked : MemstoreTransmitter → String → Map String
unacked s id = or_nothing (get s.outstanding id)

-- The SETs that a poll takes: the first of those that wait, up to the cap.
abbrev pub batch_of : MemstoreTransmitter → String → PollRequest → List QueueEntry
batch_of s id req =
    take (batch_size (batch_cap req.max_events) (length (waiting s id))) (waiting s id)

-- The result of a poll of an existing stream.
pub poll_existing :
    (s : MemstoreTransmitter) (id : String) (req : PollRequest) (cfg : StreamConfig)
    → get_stream s.store id ≡ ok cfg
    → poll_events s id (some req) ≡ poll_batch s id req (waiting s id)
unfolding poll_events by_stream
poll_existing s id req cfg h = rw h refl

pub waiting-poll :
    (s : MemstoreTransmitter) (id : String) (req : PollRequest)
    → waiting (poll_batch s id req (waiting s id)).1 id
      ≡ drop (batch_size (batch_cap req.max_events) (length (waiting s id))) (waiting s id)
unfolding poll_batch
waiting-poll s id req = simp (get-put, eq_refl)

get-apply_acks :
    (all : Map (Map String)) (id : String) (acks : List String) (m : Option (Map String))
    (j : String)
    → get all id ≡ m
    → get (or_nothing (get (apply_acks all id acks m) id)) j
      ≡ (if acked acks j then none else get (or_nothing (get all id)) j)
unfolding apply_acks
get-apply_acks all id acks none j h = rw h (rw (get-nil {V = String} j) (ground arith))
get-apply_acks all id acks (some m) j h =
    rw (get-put all id id (drop_acked m acks)) (rw (eq_refl id) (rw h (get-drop_acked m acks j)))

get-now_outstanding :
    (all : Map (Map String)) (id : String) (batch : List QueueEntry) (j : String)
    → get (or_nothing (get (now_outstanding all id batch) id)) j
      ≡ or_else (get (put_all [] batch) j) (get (or_nothing (get all id)) j)
unfolding put_all
get-now_outstanding all id [] j = rw (get-nil {V = String} j) refl
get-now_outstanding all id (e ∷ batch) j =
    rw (get-put all id id (put_all (or_nothing (get all id)) (e ∷ batch)))
      (rw (eq_refl id) (get-put_all (or_nothing (get all id)) (e ∷ batch) j))

abbrev pub is_empty : {A : Type 0} → List A → Bool
is_empty [] = true
is_empty (x ∷ xs) = false

left_over : {A : Type 0} (n : ℕ) (xs : List A) → ltb n (length xs) ≡ not (is_empty (drop n xs))
left_over zero [] = refl
left_over zero (x ∷ xs) = ground arith
left_over (suc n) [] = ground arith
left_over (suc n) (x ∷ xs) = ground (arith, left_over n xs)

-- The SETs of a response.
abbrev pub sets_of : Result PollResponse → Map String
sets_of (ok resp) = resp.sets
sets_of (err e) = []

abbrev pub more_of : Result PollResponse → Option Bool
more_of (ok resp) = resp.more_available
more_of (err e) = none

-- The last SET of a jti.
abbrev pub latest : List QueueEntry → String → Option String
latest [] jti = none
latest ((k, jws) ∷ es) jti = or_else (latest es jti) (if k == jti then some jws else none)

get-latest : (es : List QueueEntry) (jti : String) → get (put_all [] es) jti ≡ latest es jti
unfolding put_all
get-latest [] jti = get-nil {V = String} jti
get-latest ((k, jws) ∷ es) jti =
    get-put_all (put [] k jws) es jti
    ∙ rw (get-latest es jti, get-put {V = String} [] k jti jws, get-nil {V = String} jti) refl

-- Where the SETs of a poll of an existing stream go: those that waited are the first ones, up to the cap, and
-- then those that still wait; the response carries, for each jti, the last SET of those first ones; it says that
-- more are available exactly when some still wait; and a jti is outstanding afterwards with the SET
-- that this response carries for it, or else, unless the poll acknowledges it, with the SET that was
-- outstanding before.
pub poll-Conserves :
    (s : MemstoreTransmitter) (id : String) (req : PollRequest) (cfg : StreamConfig) (jti : String)
    → get_stream s.store id ≡ ok cfg
    → let r = poll_events s id (some req) in
      (waiting s id ≡ batch_of s id req ++ waiting r.1 id)
      × (get (sets_of r.0) jti ≡ latest (batch_of s id req) jti)
      × (more_of r.0 ≡ more_flag (not (is_empty (waiting r.1 id))))
      × (get (unacked r.1 id) jti
          ≡ or_else
              (get (sets_of r.0) jti)
              (if acked req.ack jti then none else get (unacked s id) jti))
unfolding poll_batch
poll-Conserves s id req cfg jti there = rw (poll_existing s id req cfg there) (
  sym (
      rw (waiting-poll s id req)
        (take-drop (batch_size (batch_cap req.max_events) (length (waiting s id))) (waiting s id))),
  get-latest (batch_of s id req) jti,
  rw (waiting-poll s id req) (
      ap more_flag
        (left_over (batch_size (batch_cap req.max_events) (length (waiting s id))) (waiting s id))),
  get-now_outstanding (apply_acks s.outstanding id req.ack (get s.outstanding id)) id
        (batch_of s id req) jti
      ∙ ap (or_else (get (put_all [] (batch_of s id req)) jti))
          (get-apply_acks s.outstanding id req.ack (get s.outstanding id) jti refl),
)
