-- ===== src/Interop/Drain.antt =====
-- internal/interop/interop.go: polling a stream until the response says that no more is available.
use go_ssf.Prelude.{
  ℕ, zero, suc, ◌-◌, ◌<◌, Bool, true, false, Option, none, some, List, [], ◌∷◌, ◌++◌, String, ltb,
  ◌≡◌, refl, sym, ap, subst, ◌∙◌, arith, Bool-cases, inl, inr,
}
use go_ssf.Prelude.Int64.{Int64, sign_bit}
use go_ssf.Prelude.Lists.{length, take, drop, take-drop, length-drop}
use go_ssf.Prelude.Map.{has, IsUnique}
use go_ssf.Wire.{PollRequest}
use go_ssf.Interop.{
  MemstoreTransmitter, QueueEntry, poll_events, poll_batch, batch_cap, batch_size, more_flag,
}
use go_ssf.Interop.Batch.{append-IsUnique_front, append-IsUnique_back}
use go_ssf.Interop.Delivery.{waiting, batch_of, waiting-poll, sets_of, more_of}
use go_ssf.Interop.Fifo.{poll_there, store_kept, batch_sent}

-- A poll with a cap that acknowledges some jtis.
abbrev pub capped : Int64 → List String → PollRequest
capped cap acks = record {
  ack = acks;
  set_errs = [];
  max_events = some cap;
  return_immediately = none;
}

abbrev pub resumed :
    Option Bool
    → List QueueEntry
    → MemstoreTransmitter
    → Option (List QueueEntry × MemstoreTransmitter)
    → Option (List QueueEntry × MemstoreTransmitter)
resumed (some true) sets s none = none
resumed (some true) sets s (some (later, t)) = some (sets ++ later, t)
resumed (some false) sets s later = some (sets, s)
resumed none sets s later = some (sets, s)

abbrev pub jtis : List QueueEntry → List String
jtis [] = []
jtis ((jti, jws) ∷ entries) = jti ∷ jtis entries

-- Polls while more is available, each acknowledging the batch before; `none` when the polls run out.
pub drain :
    ℕ
    → MemstoreTransmitter
    → String
    → Int64
    → List String
    → Option (List QueueEntry × MemstoreTransmitter)
drain zero s id cap acks = none
drain (suc polls) s id cap acks =
    let r = poll_events s id (some (capped cap acks)) in
    let later = drain polls r.1 id cap (jtis (sets_of r.0)) in
    resumed (more_of r.0) (sets_of r.0) r.1 later

take_all : {A : Type 0} (n : ℕ) (xs : List A) → ltb n (length xs) ≡ false → take n xs ≡ xs
take_all zero [] h = refl
take_all zero (x ∷ xs) h = ground (arith, h)
take_all (suc n) [] h = refl
take_all (suc n) (x ∷ xs) h = ap (λ l. x ∷ l) (take_all n xs (ground (arith, h)))

drop_all : {A : Type 0} (n : ℕ) (xs : List A) → ltb n (length xs) ≡ false → drop n xs ≡ []
drop_all zero [] h = refl
drop_all zero (x ∷ xs) h = ground (arith, h)
drop_all (suc n) [] h = refl
drop_all (suc n) (x ∷ xs) h = drop_all n xs (ground (arith, h))

pub cap_kept : (cap : Int64) → cap < sign_bit → batch_cap (some cap) ≡ cap
unfolding batch_cap
cap_kept cap h = ground (arith, h)

-- Each poll that leaves something takes at least one SET.
shrinks :
    (cap waits polls : ℕ)
    → 0 < cap
    → waits < suc polls
    → ltb (batch_size cap waits) waits ≡ true
    → waits - batch_size cap waits < polls
shrinks cap waits polls h k more = ground (arith, h, k, more)

more_sent :
    (s : MemstoreTransmitter) (id : String) (req : PollRequest)
    → more_of (poll_batch s id req (waiting s id)).0
      ≡ more_flag (
          ltb
            (batch_size (batch_cap req.max_events) (length (waiting s id)))
            (length (waiting s id)))
unfolding poll_batch
more_sent s id req = refl

-- Polling an existing stream while the responses say that more is available comes to an end, with any cap
-- above zero, after no more polls than one above the number of SETs that wait, no jti repeated: it
-- has received exactly the SETs that waited, in order, and none waits any more.
pub drain_stops :
    (polls : ℕ) (s : MemstoreTransmitter) (id : String) (cap : Int64) (acks : List String)
    → has s.store.streams id ≡ true
    → IsUnique (waiting s id)
    → 0 < cap
    → cap < sign_bit
    → length (waiting s id) < polls
    → (t : MemstoreTransmitter) × (drain polls s id cap acks ≡ some (waiting s id, t))
      × (waiting t id ≡ [])
unfolding drain
drain_stops zero s id cap acks there unique some_cap small fuel = ground (arith, fuel)
drain_stops (suc polls) s id cap acks there unique some_cap small fuel =
    let req = capped cap acks in
    let n = batch_size (batch_cap (some cap)) (length (waiting s id)) in
    let next = (poll_batch s id req (waiting s id)).1 in
    let whole = subst IsUnique (sym (take-drop n (waiting s id))) unique in
    let sent =
      batch_sent s id req
        (append-IsUnique_front (take n (waiting s id)) (drop n (waiting s id)) whole) in
    elim (Bool-cases (ltb n (length (waiting s id)))) [
      | inl more ↦
          let positive = subst (λ c. 0 < c) (sym (cap_kept cap small)) some_cap in
          let fewer =
            shrinks (batch_cap (some cap)) (length (waiting s id)) polls positive fuel more in
          let rest =
            drain_stops polls next id cap (jtis (batch_of s id req))
              (rw (store_kept s id req) there)
              (subst IsUnique (sym (waiting-poll s id req))
                (append-IsUnique_back (take n (waiting s id)) (drop n (waiting s id)) whole))
              some_cap small
              (rw (waiting-poll s id req) (rw (length-drop n (waiting s id)) fewer)) in
          (
            rest.0,
            rw (poll_there s id req there) (
                rw (more_sent s id req) (
                  rw more (
                    rw sent (
                      rw rest.1 (
                        ap (λ l. some (l ++ waiting next id, rest.0)) sent
                        ∙ ap (λ l. some (take n (waiting s id) ++ l, rest.0))
                            (waiting-poll s id req)
                        ∙ ap (λ l. some (l, rest.0)) (take-drop n (waiting s id))))))),
            rest.2,
          )
      | inr last ↦ (
        next,
        rw (poll_there s id req there) (
            rw (more_sent s id req) (rw last (rw sent (rw (take_all n (waiting s id) last) refl)))),
        waiting-poll s id req ∙ drop_all n (waiting s id) last,
      )
    ]
