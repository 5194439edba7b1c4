-- ===== src/Errors/Document/Written.antt =====
-- errors.go: the texts of JSON objects that the codec of ProblemDetails writes.
use Prim.Native.String.{◌++◌}
use Prim.Native.String.append
use text.Mathlib.TextLemmas.{append-nil, append_assoc, append_cancel_left}
use go_ssf.Prelude.{
  Bool, false, true, List, [], ◌∷◌, String, ◌==◌, ◌≡◌, refl, sym, ap, ◌∙◌, arith, eq_iff,
}
use go_ssf.Errors.Document.{Member, member_text, append_member, append_members}

abbrev pub is_empty : List Member → Bool
is_empty [] = true
is_empty (m ∷ ms) = false

-- The members behind the first one, each with its comma.
abbrev pub more_members : List Member → String
more_members [] = ""
more_members (m ∷ ms) = "," ++ (member_text m ++ more_members ms)

abbrev pub members_text : List Member → String
members_text [] = ""
members_text (m ∷ ms) = member_text m ++ more_members ms

-- The JSON object with these members.
abbrev pub object_text : List Member → String
object_text ms = "{" ++ (members_text ms ++ "}")

abbrev is_nil : String → Bool
is_nil String.[] = true
is_nil (String.◌∷◌ c s) = false

-- A buffer with a member in it is not that of an empty object.
abbrev IsBegun : String → Type 0
IsBegun buf = (s : String) × (buf ≡ "{" ++ ("\"" ++ s))

begun : (s : String) → "{" ++ ("\"" ++ s) ≡ "{" → false ≡ true
begun s e = rw append.cons at (ap is_nil (append_cancel_left "{" ("\"" ++ s) "" e))

IsBegun-unequal : (buf : String) → IsBegun buf → (buf == "{") ≡ false
IsBegun-unequal buf (s, e) = rw e (ground (arith, eq_iff ("{" ++ ("\"" ++ s)) "{", begun s))

append-IsBegun : (buf more : String) → IsBegun buf → IsBegun (buf ++ more)
append-IsBegun buf more (s, e) = (s ++ more, rw e (simp append_assoc))

append_more :
    (buf : String) (ms : List Member) → IsBegun buf → append_members buf ms ≡ buf ++ more_members ms
unfolding append_member append_members
append_more buf [] h = sym (append-nil buf)
append_more buf (m ∷ ms) h = rw (IsBegun-unequal buf h) (
    append_more ((buf ++ ",") ++ member_text m) ms (append-IsBegun _ _ (append-IsBegun _ _ h))
    ∙ simp append_assoc)

-- What is written into an empty buffer is the object of the members, but for its end.
pub append_all : (ms : List Member) → append_members "{" ms ++ "}" ≡ object_text ms
unfolding append_member append_members
append_all [] = refl
append_all (m ∷ ms) =
    ap (λ s. s ++ "}") (append_more ("{" ++ member_text m) ms (m.0 ++ ("\":" ++ m.1), refl))
    ∙ simp append_assoc

-- An empty buffer stays empty only without members.
pub append_empty : (ms : List Member) → (append_members "{" ms == "{") ≡ is_empty ms
unfolding append_member append_members
append_empty [] = refl
append_empty (m ∷ ms) =
    rw (append_more ("{" ++ member_text m) ms (m.0 ++ ("\":" ++ m.1), refl))
      (IsBegun-unequal _ (append-IsBegun _ (more_members ms) (m.0 ++ ("\":" ++ m.1), refl)))

filled : (s : String) → "{" ++ s ≡ "" → false ≡ true
filled s e = rw append.cons at (ap is_nil e)

-- The text of an object is not empty.
pub object_filled : (ms : List Member) → (object_text ms == "") ≡ false
object_filled ms = ground (arith, eq_iff (object_text ms) "", filled (members_text ms ++ "}"))
