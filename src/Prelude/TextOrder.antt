-- ===== src/Prelude/TextOrder.antt =====
-- Go's order of strings, and `slices.Sort` on strings as an insertion sort: any sort of a list
-- without repetitions has the same result.
use Prim.Native.Char.{code}
use Prim.Native.Nat.{ℕ, suc}
use Prim.Native.String.{String}
use native.Mathlib.Omega.{arith}
use mathlib.Core.Path.{◌≡◌, refl, ◌∙◌}
use mathlib.Core.Logic.{inl, inr}
use text.Mathlib.Text.{◌==◌}
use mathlib.Core.Bool.{Bool, true, false}
use mathlib.Core.List.{List, [], ◌∷◌}
use go_ssf.Prelude.Tests.{ltb, eqb, Bool-cases, if◌then◌else◌}

-- The order of UTF-8 bytes is that of the code points.
unfoldable pub text_le : String → String → Bool
text_le String.[] t = true
text_le (String.◌∷◌ c s) String.[] = false
text_le (String.◌∷◌ c s) (String.◌∷◌ d t) =
    if ltb (code c) (code d) then true else if eqb (code c) (code d) then text_le s t else false

unfoldable pub insert_sorted : String → List String → List String
insert_sorted x [] = x ∷ []
insert_sorted x (y ∷ ys) = if text_le x y then x ∷ y ∷ ys else y ∷ insert_sorted x ys

unfoldable pub sort : List String → List String
unfolding insert_sorted
sort [] = []
sort (x ∷ xs) = insert_sorted x (sort xs)

text_le_total : (s t : String) → text_le s t ≡ false → text_le t s ≡ true
unfolding text_le
text_le_total String.[] t h = cc
text_le_total (String.◌∷◌ c s) String.[] h = refl
text_le_total (String.◌∷◌ c s) (String.◌∷◌ d t) h = ground (arith, text_le_total s t)

abbrev HeadLe : String → List String → Type 0
HeadLe x [] = Unit
HeadLe x (y ∷ ys) = text_le x y ≡ true

-- Each text is at most the next one.
abbrev pub IsSorted : List String → Type 0
IsSorted [] = Unit
IsSorted (x ∷ xs) = HeadLe x xs × IsSorted xs

HeadLe-insert :
    (x y : String) (ys : List String)
    → text_le y x ≡ true
    → HeadLe y ys
    → HeadLe y (insert_sorted x ys)
unfolding insert_sorted
HeadLe-insert x y [] h k = h
HeadLe-insert x y (z ∷ zs) h k = elim (Bool-cases (text_le x z)) [
  | inl le ↦ rw le h
  | inr gt ↦ rw gt k
]

insert-IsSorted : (x : String) (xs : List String) → IsSorted xs → IsSorted (insert_sorted x xs)
unfolding insert_sorted
insert-IsSorted x [] h = (tt, tt)
insert-IsSorted x (y ∷ ys) h = elim (Bool-cases (text_le x y)) [
  | inl le ↦ rw le (le, h)
  | inr gt ↦ rw gt (HeadLe-insert x y ys (text_le_total x y gt) h.0, insert-IsSorted x ys h.1)
]

pub sort-IsSorted : (xs : List String) → IsSorted (sort xs)
unfolding sort
sort-IsSorted [] = tt
sort-IsSorted (x ∷ xs) = insert-IsSorted x (sort xs) (sort-IsSorted xs)

-- How often a text stands in a list.
abbrev pub occurrences : String → List String → ℕ
occurrences x [] = 0
occurrences x (y ∷ ys) = if y == x then suc (occurrences x ys) else occurrences x ys

occurrences-insert :
    (x y : String) (ys : List String) → occurrences x (insert_sorted y ys) ≡ occurrences x (y ∷ ys)
unfolding insert_sorted
occurrences-insert x y [] = refl
occurrences-insert x y (z ∷ zs) = ground (arith, occurrences-insert x y zs)

-- The sort moves texts and neither adds nor drops one.
pub occurrences-sort : (x : String) (xs : List String) → occurrences x (sort xs) ≡ occurrences x xs
unfolding sort
occurrences-sort x [] = refl
occurrences-sort x (y ∷ ys) =
    occurrences-insert x y (sort ys) ∙ ground (arith, occurrences-sort x ys)
