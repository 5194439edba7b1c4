-- ===== src/Receiver/Poller/Parallel/Keyed.antt =====
-- receiver/poller.go: batches and answers in which each id stands once, up to their order.
use mathlib.Core.List.Permᴰ
use mathlib.Core.List.{Permᴰ}
use go_ssf.Prelude.{
  suc, Bool, true, false, Option, none, some, List, [], ◌∷◌, ◌++◌, String, ◌≡◌, refl, sym, ap, ◌∙◌,
  inl, inr, arith, Bool-cases, ◌==◌, if◌then◌else◌, eq_iff,
}
use go_ssf.Prelude.Lists.{length}
use go_ssf.Prelude.Map.{Map, get, IsUnique}
use go_ssf.Wire.{SetErr}
use go_ssf.Receiver.Rounds.{Outcome}
use go_ssf.Receiver.Poller.Batch.{Answer, acked, reported}

abbrev SameEntries : {V : Type 0} → Map V → Map V → Type 0
SameEntries m n = IsUnique n × ((k : String) → get m k ≡ get n k)

-- A map in another order has the same entries.
pub Perm-SameEntries : {V : Type 0} {m n : Map V} → Permᴰ m n → IsUnique m → SameEntries m n
unfolding get
Perm-SameEntries Permᴰ.nil h = (tt, λ k. refl)
Perm-SameEntries (Permᴰ.cons {a} {b} e p) (absent, unique) =
    let (unique', same) = Perm-SameEntries p unique in
    rw (← e)
      ((sym (same a.0) ∙ absent, unique'), λ k. ap (λ o. if a.0 == k then some a.1 else o) (same k))
Perm-SameEntries (Permᴰ.swap {a} {b} e f) (first, (second, unique)) =
    let apart = eq_iff a.0 b.0 in
    let apart' = eq_iff b.0 a.0 in
    rw (← e, ← f)
      (
        (
          ground (arith, first, second, apart, apart'),
          (ground (arith, first, apart, apart'), unique),
        ),
        λ k. ground (arith, first, apart, apart', eq_iff a.0 k, eq_iff b.0 k),
      )
Perm-SameEntries (Permᴰ.trans p q) h =
    let (unique, same) = Perm-SameEntries p h in
    let (unique', same') = Perm-SameEntries q unique in (unique', λ k. same k ∙ same' k)

-- The report that an answer makes.
abbrev report_of : Option Outcome → Option SetErr → Option SetErr
report_of none before = before
report_of (some o) before =
    if o.err_code == ""
    then before
    else some (record { code = o.err_code; description = o.err_desc })

-- Of answers with ids of their own the report for an id is that of its answer.
reported-get :
    (j : String) (xs : List Answer) (before : Option SetErr)
    → IsUnique xs
    → reported j xs before ≡ report_of (get xs j) before
unfolding get
reported-get j [] before h = refl
reported-get j ((jti, o) ∷ xs) before (absent, unique) = elim (Bool-cases (jti == j)) [
  | inl same ↦ rw same (
      reported-get j xs _ unique
      ∙ ap (λ a. report_of a (report_of (some o) before)) (rw ((eq_iff jti j).0 same) at absent))
  | inr other ↦ rw other (reported-get j xs before unique)
]

-- The reports do not depend on the order of such answers.
pub reported-Perm :
    (j : String) (xs ys : List Answer) (before : Option SetErr)
    → Permᴰ xs ys
    → IsUnique xs
    → reported j xs before ≡ reported j ys before
reported-Perm j xs ys before p unique =
    let (unique', same) = Perm-SameEntries p unique in
    reported-get j xs before unique
    ∙ ap (λ a. report_of a before) (same j)
    ∙ sym (reported-get j ys before unique')

pub acked-append : (xs ys : List Answer) → acked (xs ++ ys) ≡ acked xs ++ acked ys
acked-append [] ys = refl
acked-append ((jti, o) ∷ xs) ys = ground (arith, acked-append xs ys)

pub reported-append :
    (j : String) (xs ys : List Answer) (before : Option SetErr)
    → reported j (xs ++ ys) before ≡ reported j ys (reported j xs before)
reported-append j [] ys before = refl
reported-append j (a ∷ xs) ys before = reported-append j xs ys _

kept_front :
    (b : Bool) (x : String) {xs ys : List String}
    → Permᴰ xs ys
    → Permᴰ (if b then x ∷ xs else xs) (if b then x ∷ ys else ys)
kept_front true x p = Permᴰ.cons refl p
kept_front false x p = p

swapped_fronts :
    (b c : Bool) (x y : String) (xs : List String)
    → Permᴰ
        (if b then x ∷ (if c then y ∷ xs else xs) else if c then y ∷ xs else xs)
        (if c then y ∷ (if b then x ∷ xs else xs) else if b then x ∷ xs else xs)
swapped_fronts true true x y xs = Permᴰ.swap refl refl
swapped_fronts true false x y xs = Permᴰ.refl _
swapped_fronts false c x y xs = Permᴰ.refl _

-- Answers in another order acknowledge the same ids, in another order.
pub acked-Perm : {xs ys : List Answer} → Permᴰ xs ys → Permᴰ (acked xs) (acked ys)
acked-Perm Permᴰ.nil = Permᴰ.nil
acked-Perm (Permᴰ.cons {a} {b} e p) = rw (← e) (kept_front a.1.ack_jti a.0 (acked-Perm p))
acked-Perm (Permᴰ.swap {a} {b} {l} e f) =
    rw (← e, ← f) (swapped_fronts a.1.ack_jti b.1.ack_jti a.0 b.0 (acked l))
acked-Perm (Permᴰ.trans p q) = Permᴰ.trans (acked-Perm p) (acked-Perm q)

pub length-Perm : {A : Type 0} {xs ys : List A} → Permᴰ xs ys → length xs ≡ length ys
length-Perm Permᴰ.nil = refl
length-Perm (Permᴰ.cons e p) = ap suc (length-Perm p)
length-Perm (Permᴰ.swap e f) = refl
length-Perm (Permᴰ.trans p q) = length-Perm p ∙ length-Perm q
