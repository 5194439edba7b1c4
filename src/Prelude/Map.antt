-- ===== src/Prelude/Map.antt =====
-- Go's maps with string keys, as association lists that hold each key at most once.
-- A read of a missing key is `none`; a write replaces the entry of its key.
use Prim.Native.String.{String}
use mathlib.Core.Path.{◌≡◌, refl, ◌∙◌}
use mathlib.Core.Bool.{Bool}
use mathlib.Core.Option.{Option, none, some}
use mathlib.Core.List.{List, [], ◌∷◌}
use native.Mathlib.Omega.{arith}
use text.Mathlib.Text.{◌==◌}
use text.Mathlib.TextEquality.{eq_iff}
use mathlib.Core.Logic.{inl, inr}
use go_ssf.Prelude.Tests.{Bool-cases, if◌then◌else◌, is_some}

abbrev pub Map {ℓ} : Type ℓ → Type ℓ
Map V = List (String × V)

module _ {ℓ} {V : Type ℓ} where
  -- `v, ok := m[k]`
  unfoldable pub get : Map V → String → Option V
  get [] k = none
  get ((j, v) ∷ m) k = if j == k then some v else get m k

  -- `m[k] = v`
  unfoldable pub put : Map V → String → V → Map V
  put [] k v = (k, v) ∷ []
  put ((j, w) ∷ m) k v = if j == k then (k, v) ∷ m else (j, w) ∷ put m k v

  -- `delete(m, k)`
  unfoldable pub remove : Map V → String → Map V
  remove [] k = []
  remove ((j, w) ∷ m) k = let rest = remove m k in if j == k then rest else (j, w) ∷ rest

  -- `_, ok := m[k]`
  abbrev pub has : Map V → String → Bool
  has m k = is_some (get m k)

  pub get-put :
      (m : Map V) (k j : String) (v : V) → get (put m k v) j ≡ (if k == j then some v else get m j)
  unfolding get put
  get-put [] k j v = refl
  get-put ((i, w) ∷ m) k j v = ground (arith, eq_iff k j, eq_iff i k, eq_iff i j, get-put m k j v)

  pub get-remove :
      (m : Map V) (k j : String) → get (remove m k) j ≡ (if k == j then none else get m j)
  unfolding get remove
  get-remove [] k j = ground arith
  get-remove ((i, w) ∷ m) k j = ground (arith, eq_iff k j, eq_iff i k, eq_iff i j, get-remove m k j)

pub get-nil {ℓ} : {V : Type ℓ} (k : String) → get {V = V} [] k ≡ none
unfolding get
get-nil k = refl

pub ruleset map_laws = (get-nil, get-put, get-remove)

-- Each key stands once.
abbrev pub IsUnique {ℓ} : {V : Type ℓ} → Map V → Type ℓ
IsUnique [] = Unit
IsUnique ((k, v) ∷ m) = (get m k ≡ none) × IsUnique m

module _ {ℓ} {V : Type ℓ} where
  pub put-IsUnique : (m : Map V) (k : String) (v : V) → IsUnique m → IsUnique (put m k v)
  unfolding get put
  put-IsUnique [] k v h = (refl, tt)
  put-IsUnique ((j, w) ∷ m) k v h = elim (Bool-cases (j == k)) [
    | inl same ↦ rw same (rw (← (eq_iff j k).0 same) h.0, h.1)
    | inr other ↦
        rw other (get-put m k j v ∙ ground (arith, eq_iff j k, eq_iff k j), put-IsUnique m k v h.1)
  ]

  pub remove-IsUnique : (m : Map V) (k : String) → IsUnique m → IsUnique (remove m k)
  unfolding get remove
  remove-IsUnique [] k h = tt
  remove-IsUnique ((j, w) ∷ m) k h = elim (Bool-cases (j == k)) [
    | inl same ↦ rw same (remove-IsUnique m k h.1)
    | inr other ↦
        rw other
          (get-remove m k j ∙ ground (arith, eq_iff j k, eq_iff k j), remove-IsUnique m k h.1)
  ]

  -- A write or a removal after another of the same key.
  pub put_twice : (m : Map V) (k : String) (v w : V) → put (put m k v) k w ≡ put m k w
  unfolding put
  put_twice [] k v w = ground (arith, eq_iff k k)
  put_twice ((j, u) ∷ m) k v w = ground (arith, eq_iff j k, eq_iff k k, put_twice m k v w)

  pub remove_twice : (m : Map V) (k : String) → remove (remove m k) k ≡ remove m k
  unfolding remove
  remove_twice [] k = refl
  remove_twice ((j, u) ∷ m) k = ground (arith, remove_twice m k)
