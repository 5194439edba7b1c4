-- ===== src/Interop/Batch.antt =====
-- internal/interop/interop.go: the maps that PollEvents fills and empties, entry by entry.
use mathlib.Core.List.{append_assoc, append-nil}
use go_ssf.Prelude.{
  Bool, true, false, ◌||◌, Option, none, some, List, [], ◌∷◌, ◌++◌, String, ◌==◌, if◌then◌else◌,
  ◌≡◌, refl, sym, ap, subst, ◌∙◌, arith, eq_iff, eq_refl, Bool-cases, inl, inr,
}
use go_ssf.Prelude.Map.{Map, get, put, remove, get-put, get-remove, get-nil, IsUnique}
use go_ssf.Errors.{or_else}
use go_ssf.Interop.{put_all, drop_acked}

-- A jti among the acknowledged ones.
abbrev pub acked : List String → String → Bool
acked [] jti = false
acked (a ∷ acks) jti = (a == jti) || acked acks jti

module _ {V : Type 0} where
  or_else_assoc : (a b c : Option V) → or_else a (or_else b c) ≡ or_else (or_else a b) c
  or_else_assoc (some v) b c = refl
  or_else_assoc none b c = refl

  put_one :
      (m : Map V) (k j : String) (v : V)
      → get (put m k v) j ≡ or_else (get (put [] k v) j) (get m j)
  put_one m k j v =
      get-put m k j v ∙ sym (rw (get-put {V = V} [] k j v) (rw (get-nil {V = V} j) (ground arith)))

  pub get-put_all :
      (m es : Map V) (j : String) → get (put_all m es) j ≡ or_else (get (put_all [] es) j) (get m j)
  unfolding put_all
  get-put_all m [] j = rw (get-nil {V = V} j) refl
  get-put_all m ((k, v) ∷ es) j =
      get-put_all (put m k v) es j
      ∙ (ap (or_else (get (put_all [] es) j)) (put_one m k j v)
          ∙ (or_else_assoc (get (put_all [] es) j) (get (put [] k v) j) (get m j)
              ∙ ap (λ o. or_else o (get m j)) (sym (get-put_all (put [] k v) es j))))

  found_behind :
      (m es : Map V) (k : String) (v : V) → get (m ++ (k, v) ∷ es) k ≡ none → true ≡ false
  unfolding get
  found_behind [] es k v h = ground (arith, eq_refl k, h)
  found_behind ((j, w) ∷ m) es k v h = elim (Bool-cases (j == k)) [
    | inl same ↦ let found = rw same at h in ground (arith, found)
    | inr other ↦ found_behind m es k v (rw other at h)
  ]

  front_misses : (m es : Map V) (k : String) (v : V) → IsUnique (m ++ (k, v) ∷ es) → get m k ≡ none
  unfolding get
  front_misses [] es k v h = refl
  front_misses ((j, w) ∷ m) es k v h = elim (Bool-cases (j == k)) [
    | inl same ↦
        let behind = found_behind m es k v (rw ((eq_iff j k).0 same) at h.0) in
        ground (arith, behind)
    | inr other ↦ rw other (front_misses m es k v h.1)
  ]

  put_fresh : (m : Map V) (k : String) (v : V) → get m k ≡ none → put m k v ≡ m ++ (k, v) ∷ []
  unfolding get put
  put_fresh [] k v h = refl
  put_fresh ((j, w) ∷ m) k v h = elim (Bool-cases (j == k)) [
    | inl same ↦ let found = rw same at h in ground (arith, found)
    | inr other ↦ rw other (ap (λ r. (j, w) ∷ r) (put_fresh m k v (rw other at h)))
  ]

  put_all_fresh : (m es : Map V) → IsUnique (m ++ es) → put_all m es ≡ m ++ es
  unfolding put_all
  put_all_fresh m [] h = sym (append-nil m)
  put_all_fresh m ((k, v) ∷ es) h = rw (put_fresh m k v (front_misses m es k v h)) (
      put_all_fresh (m ++ (k, v) ∷ []) es (subst IsUnique (sym (append_assoc m ((k, v) ∷ []) es)) h)
      ∙ append_assoc m ((k, v) ∷ []) es)

  -- A batch of distinct keys is the map that it fills.
  pub put_all-nil : (es : Map V) → IsUnique es → put_all [] es ≡ es
  put_all-nil es h = put_all_fresh [] es h

  missing_front : (m es : Map V) (k : String) → get (m ++ es) k ≡ none → get m k ≡ none
  unfolding get
  missing_front [] es k h = refl
  missing_front ((j, w) ∷ m) es k h = elim (Bool-cases (j == k)) [
    | inl same ↦ let found = rw same at h in ground (arith, found)
    | inr other ↦ rw other (missing_front m es k (rw other at h))
  ]

  pub append-IsUnique_front : (m es : Map V) → IsUnique (m ++ es) → IsUnique m
  unfolding get
  append-IsUnique_front [] es h = tt
  append-IsUnique_front ((k, v) ∷ m) es h =
      (missing_front m es k h.0, append-IsUnique_front m es h.1)

  pub append-IsUnique_back : (m es : Map V) → IsUnique (m ++ es) → IsUnique es
  append-IsUnique_back [] es h = h
  append-IsUnique_back ((k, v) ∷ m) es h = append-IsUnique_back m es h.1

pub get-drop_acked :
    (m : Map String) (acks : List String) (j : String)
    → get (drop_acked m acks) j ≡ (if acked acks j then none else get m j)
unfolding drop_acked
get-drop_acked m [] j = refl
get-drop_acked m (a ∷ acks) j =
    get-drop_acked (remove m a) acks j ∙ rw (get-remove m a j) (ground arith)
