-- ===== src/Store/Fifo.antt =====
-- memstore/memstore.go: the poll-mode queue is first in, first out, one queue to a stream.
use go_ssf.Prelude.{
  true, List, [], ◌∷◌, ◌++◌, String, ◌≡◌, ◌≢◌, refl, ◌∙◌, arith, eq_refl, Bool-cases, inl, inr,
}
use go_ssf.Store.Queue.{queue_at}
use mathlib.Core.List.{append_assoc, append-nil}
use go_ssf.Prelude.Map.{get, has, get-put}
use go_ssf.Errors.{ok}
use go_ssf.Store.{InMemoryStore}
use go_ssf.Store.Queue.{enqueue_set, queued_sets}
use go_ssf.Store.Reads.{ne-false, same_queue}

pub enqueue_all : InMemoryStore → String → List String → InMemoryStore
enqueue_all s id [] = s
enqueue_all s id (jws ∷ rest) = enqueue_all (enqueue_set s id jws).0 id rest

queue-enqueue :
    (s : InMemoryStore) (id jws : String)
    → has s.streams id ≡ true
    → queue_at (get (enqueue_set s id jws).0.queues id) ≡ queue_at (get s.queues id) ++ jws ∷ []
unfolding enqueue_set
queue-enqueue s id jws there = rw there (simp (get-put, eq_refl, queue_at))

streams-enqueue :
    (s : InMemoryStore) (id jws : String) → (enqueue_set s id jws).0.streams ≡ s.streams
unfolding enqueue_set
streams-enqueue s id jws = ground arith

queued-enqueue :
    (s : InMemoryStore) (id jws : String) (waiting : List String)
    → has s.streams id ≡ true
    → queued_sets s id ≡ ok waiting
    → queued_sets (enqueue_set s id jws).0 id ≡ ok (waiting ++ jws ∷ [])
unfolding queued_sets
queued-enqueue s id jws waiting there e =
    let held : queue_at (get s.queues id) ≡ waiting = cc (rw there at e) in
    rw (streams-enqueue s id jws, there, queue-enqueue s id jws there, held)

queued-enqueue_ne :
    (s : InMemoryStore) (id other jws : String)
    → other ≢ id
    → queued_sets (enqueue_set s id jws).0 other ≡ queued_sets s other
unfolding enqueue_set
queued-enqueue_ne s id other jws ne = elim (Bool-cases (has s.streams id)) [
  | inl there ↦ rw there (same_queue s _ other refl (simp (get-put, ne-false ne)))
  | inr missing ↦ rw missing
]

-- The queue of an existing stream, after SETs are enqueued one by one, holds what it held and then
-- those SETs in order.
queued-enqueue_all :
    (s : InMemoryStore) (id : String) (jwss waiting : List String)
    → has s.streams id ≡ true
    → queued_sets s id ≡ ok waiting
    → queued_sets (enqueue_all s id jwss) id ≡ ok (waiting ++ jwss)
unfolding enqueue_all
queued-enqueue_all s id [] waiting there e = e ∙ rw append-nil
queued-enqueue_all s id (jws ∷ rest) waiting there e =
    queued-enqueue_all (enqueue_set s id jws).0 id rest (waiting ++ jws ∷ [])
      (rw (streams-enqueue s id jws) there) (queued-enqueue s id jws waiting there e)
    ∙ rw append_assoc

-- The queues of other streams are as they were.
pub queued-enqueue_all_ne :
    (s : InMemoryStore) (id other : String) (jwss : List String)
    → other ≢ id
    → queued_sets (enqueue_all s id jwss) other ≡ queued_sets s other
unfolding enqueue_all
queued-enqueue_all_ne s id other [] ne = refl
queued-enqueue_all_ne s id other (jws ∷ rest) ne =
    queued-enqueue_all_ne (enqueue_set s id jws).0 id other rest ne
    ∙ queued-enqueue_ne s id other jws ne
