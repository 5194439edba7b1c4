-- ===== src/Store/Queue.antt =====
-- memstore/memstore.go: the poll-mode queue of a stream.
use go_ssf.Prelude.{Option, none, some, List, [], ◌∷◌, ◌++◌, String, if◌then◌else◌}
use go_ssf.Prelude.Map.{get, put, has}
use go_ssf.Errors.{Result, ok, err, stream_not_found, sentinel, wrap}
use go_ssf.Store.{InMemoryStore}

-- `s.queues[id]`: a missing queue reads as an empty slice
unfoldable pub queue_at : Option (List String) → List String
queue_at none = []
queue_at (some q) = q

unfoldable pub enqueue_set : InMemoryStore → String → String → InMemoryStore × Result (Unit {0})
unfolding queue_at
enqueue_set s id jws =
    if has s.streams id
    then (record s { queues = put s.queues id (queue_at (get s.queues id) ++ jws ∷ []) }, ok tt)
    else (s, err (wrap "memstore: EnqueueSET" (sentinel stream_not_found)))

unfoldable pub queued_sets : InMemoryStore → String → Result (List String)
unfolding queue_at
queued_sets s id =
    if has s.streams id
    then ok (queue_at (get s.queues id))
    else err (wrap "memstore: QueuedSETs" (sentinel stream_not_found))
