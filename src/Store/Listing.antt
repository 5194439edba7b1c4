-- ===== src/Store/Listing.antt =====
-- memstore/memstore.go: ListStreams.
use mathlib.Core.Option
use go_ssf.Prelude.{
  true, Option, some, none, List, [], ◌∷◌, String, ◌≡◌, refl, ◌∙◌, arith, eq_iff, eq_refl, ◌==◌,
  ltb, ◌<◌, Bool-cases, Option-cases, inl, inr, if◌then◌else◌,
}
use go_ssf.Prelude.Map.{Map, get, has, IsUnique}
use go_ssf.Prelude.TextOrder.{sort, IsSorted, sort-IsSorted, occurrences, occurrences-sort}
use go_ssf.Wire.{StreamConfig}
use go_ssf.Store.{InMemoryStore, clone_stream_config}
use go_ssf.Store.Streams.{keys, clones_at, list_streams}
use go_ssf.Store.Bijection.{IsConsistent}

abbrev pub ids_of : List StreamConfig → List String
ids_of [] = []
ids_of (c ∷ cs) = c.stream_id ∷ ids_of cs

-- The first configuration with an id.
abbrev pub pick : List StreamConfig → String → Option StreamConfig
pick [] id = none
pick (c ∷ cs) id = if c.stream_id == id then some c else pick cs id

occurrences-keys {ℓ} :
    {V : Type ℓ} (m : Map V) (id : String)
    → IsUnique m
    → occurrences id (keys m) ≡ (if has m id then 1 else 0)
unfolding keys get
occurrences-keys [] id u = refl
occurrences-keys ((k, v) ∷ m) id u = ground (arith, eq_iff k id, occurrences-keys m id u.1)

-- The ids of a list that all name streams of a map which holds each under its own id.
data AllIn (m : Map StreamConfig) : List String → Type 0 where
  nil : AllIn m []
  cons :
      {ids : List String} (id : String) (cfg : StreamConfig)
      → get m id ≡ some cfg
      → cfg.stream_id ≡ id
      → AllIn m ids
      → AllIn m (id ∷ ids)

clone-stream_id : (cfg : StreamConfig) → (clone_stream_config cfg).stream_id ≡ cfg.stream_id
unfolding clone_stream_config
clone-stream_id cfg = refl

clones-cons :
    (m : Map StreamConfig) (id : String) (ids : List String) {cfg : StreamConfig}
    → get m id ≡ some cfg
    → clones_at m (id ∷ ids) ≡ clone_stream_config cfg ∷ clones_at m ids
unfolding clones_at
clones-cons m id ids e = rw (e, clones_at)

ids-clones :
    {m : Map StreamConfig} {ids : List String} → AllIn m ids → ids_of (clones_at m ids) ≡ ids
ids-clones nil = unfold clones_at in refl
ids-clones {m} (cons {ids = ids} id cfg e k rest) =
    rw (clones-cons m id ids e) (cc (clone-stream_id cfg, ids-clones rest))

pick-clones :
    {m : Map StreamConfig} {ids : List String} (at : String)
    → AllIn m ids
    → pick (clones_at m ids) at
      ≡ (if ltb 0 (occurrences at ids) then Option.map clone_stream_config (get m at) else none)
pick-clones at nil = unfold clones_at in refl
pick-clones {m} at (cons {ids = ids} id cfg e k rest) =
    let ih = pick-clones at rest in
    let own : (clone_stream_config cfg).stream_id ≡ id = clone-stream_id cfg ∙ k in
    rw (clones-cons m id ids e) (
      rw own (elim (Bool-cases (id == at)) [
        | inl same ↦ rw same (rw (← (eq_iff id at).0 same, e) (ground arith))
        | inr other ↦ rw other ih
      ]))

all_in :
    (m : Map StreamConfig)
    → ((id : String) (cfg : StreamConfig) → get m id ≡ some cfg → cfg.stream_id ≡ id)
    → (ids : List String) → ((id : String) → 0 < occurrences id ids → has m id ≡ true)
    → AllIn m ids
all_in m keyed [] there = nil
all_in m keyed (id ∷ ids) there = elim (Option-cases (get m id)) [
  | inr (cfg, e) ↦
      cons id cfg e (keyed id cfg e) (all_in m keyed ids (λ k h. there k (ground arith)))
  | inl e ↦ cc (there id (rw eq_refl (omega arith)), e)
]

-- What is listed for the store `s`.
pub record ListsAll (s : InMemoryStore) (out : List StreamConfig) : Type 0 where
  pub sorted : IsSorted (ids_of out)
  pub once : (id : String) → occurrences id (ids_of out) ≡ (if has s.streams id then 1 else 0)
  pub copies : (id : String) → pick out id ≡ Option.map clone_stream_config (get s.streams id)

-- In a store whose configurations carry their ids and whose keys are unique, ListStreams gives one
-- page that is sorted by id and holds each stream once, as a read of its id gives it.
pub list_streams_lem :
    (s : InMemoryStore) (token : String)
    → IsConsistent s
    → IsUnique s.streams
    → ListsAll s (list_streams s token).0 × ((list_streams s token).1 ≡ "")
unfolding list_streams
list_streams_lem s token h u =
    let m = s.streams in
    let ids = sort (keys m) in
    let count = λ (id : String). occurrences-sort id (keys m) ∙ occurrences-keys m id u in
    let every : AllIn m ids =
      all_in m (λ id cfg. (h id).keyed cfg) ids (λ id pos. ground (arith, count id)) in
    (
      record {
        sorted = rw (ids-clones every) (sort-IsSorted (keys m));
        once = λ id. rw (ids-clones every) (count id);
        copies = λ id. pick-clones id every ∙ ground (arith, count id);
      },
      refl,
    )
