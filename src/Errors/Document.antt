-- ===== src/Errors/Document.antt =====
-- errors.go: the JSON of a ProblemDetails. `encoding/json` is a parameter: a Decoder with its Token, More
-- and Decode, and the coding of a string and of a number. A buffer is a text; that it holds more than
-- its first byte is that it is not "{". Of a document that fails to decode nothing is kept.
pub mod Written
pub mod Read
pub mod Partition
pub mod Fields
pub mod RoundTrip
pub mod Scanner
mod Examples
use Prim.Native.String.{◌++◌}
use go_ssf.Prelude.{
  ℕ, zero, suc, Bool, ◌||◌, Option, none, some, List, [], ◌∷◌, String, eqb, ◌==◌, if◌then◌else◌,
}
use go_ssf.Prelude.Int64.{Int64}
use go_ssf.Prelude.Lists.{snoc}
use go_ssf.Errors.{ProblemDetails, Result, ok, err, message, wrap, ◌>>=◌}

-- `json.Token`: a delimiter, a string, or another value.
pub data Token : Type 0 where
  delim : String → Token
  text : String → Token
  other : Token

-- `rest` is the number of bytes that a Decoder has not read. A number is an int: decoding fails on one that
-- does not fit.
pub record JsonCodec : Type 1 where
  pub Decoder : Type 0
  pub new_decoder : String → Decoder
  pub rest : Decoder → ℕ
  pub token : Decoder → Result (Token × Decoder)
  pub more : Decoder → Bool
  pub decode_raw : Decoder → Result (String × Decoder)
  pub marshal_text : String → Result String
  pub marshal_number : Int64 → Result String
  pub unmarshal_text : String → String → Result String
  pub unmarshal_number : String → Int64 → Result Int64

-- `extensionMember`: a key and the bytes of its value
abbrev pub Member : Type 0
Member = String × String

-- `problemDetailsRegistered`
abbrev pub is_registered : String → Bool
is_registered key =
    key == "type" || key == "title" || key == "status" || key == "detail" || key == "instance"

abbrev pub empty_problem : ProblemDetails
empty_problem = record {
  type_uri = "";
  title = "";
  status = 0;
  detail = "";
  instance_uri = "";
  extensions = none;
}

abbrev pub member_text : Member → String
member_text (key, value) = "\"" ++ (key ++ ("\":" ++ value))

-- A member behind what a buffer holds, with a comma where it holds one.
unfoldable pub append_member : String → Member → String
append_member buf m = (if buf == "{" then buf else buf ++ ",") ++ member_text m

unfoldable pub append_members : String → List Member → String
append_members buf [] = buf
append_members buf (m ∷ ms) = append_members (append_member buf m) ms

-- What `UnmarshalJSON` keeps between members: the document, and the buffer of the extensions.
abbrev pub Reading : Type 0
Reading = ProblemDetails × String

module _ (json : JsonCodec) where
  open json use {
    Decoder, new_decoder, rest, token, more, decode_raw, marshal_text, marshal_number,
    unmarshal_text, unmarshal_number,
  }

  -- The opening brace of an object, with the error for another token.
  abbrev pub opened : String → Token × Decoder → Result Decoder
  opened wrong (delim s, d) = if s == "{" then ok d else err (message wrong)
  opened wrong (text s, d) = err (message wrong)
  opened wrong (other, d) = err (message wrong)

  abbrev pub keyed : String → Token × Decoder → Result (String × Decoder)
  keyed wrong (delim s, d) = err (message wrong)
  keyed wrong (text s, d) = ok (s, d)
  keyed wrong (other, d) = err (message wrong)

  abbrev pub valued : String → String × Decoder → Result (Member × Decoder)
  valued key (raw, d) = ok ((key, raw), d)

  abbrev pub read_value : String × Decoder → Result (Member × Decoder)
  read_value (key, d) = decode_raw d >>= valued key

  -- A key and its value, with the error for a key that is no string.
  unfoldable pub read_member : String → Decoder → Result (Member × Decoder)
  read_member wrong d = token d >>= keyed wrong >>= read_value

  -- The members up to the end of an object, each given to `visit`, and then `finish`.
  unfoldable pub each_member :
      {A : Type 0}
      → String
      → (A → Member → Result A)
      → (A → Decoder → Result A)
      → ℕ
      → A
      → Decoder
      → Result A
  unfolding read_member
  each_member wrong visit finish zero a d = err (message "unread members")
  each_member wrong visit finish (suc fuel) a d =
      let go = read_member wrong d >>= (λ (m : Member × Decoder).
        visit a m.0 >>= (λ a'. each_member wrong visit finish fuel a' m.1)) in
      if more d then go else finish a d

  abbrev pub each_of :
      {A : Type 0}
      → String
      → (A → Member → Result A)
      → (A → Decoder → Result A)
      → A
      → Decoder
      → Result A
  each_of wrong visit finish a d = each_member wrong visit finish (suc (rest d)) a d

  abbrev pub collected : List Member → Member → Result (List Member)
  collected out m = ok (snoc out m)

  abbrev pub stopped : {A : Type 0} → A → Decoder → Result A
  stopped a d = ok a

  abbrev pub reworded : {A : Type 0} → Result A → Result A
  reworded (ok a) = ok a
  reworded (err e) = err (wrap "ssf: ProblemDetails: parse Extensions" e)

  -- `extensionMembers`
  unfoldable pub extension_members : String → Result (List Member)
  unfolding each_member
  extension_members raw =
      reworded (token (new_decoder raw))
      >>= opened "ssf: ProblemDetails: Extensions must be a JSON object"
      >>= each_of "ssf: ProblemDetails: Extensions: non-string key" collected stopped []

  -- `assignRegisteredProblemMember`
  unfoldable pub assign_registered : ProblemDetails → Member → Result ProblemDetails
  assign_registered p (key, raw) =
      if key == "type"
      then unmarshal_text raw p.type_uri >>= (λ v. ok (record p { type_uri = v }))
      else if key == "title"
      then unmarshal_text raw p.title >>= (λ v. ok (record p { title = v }))
      else if key == "status"
      then unmarshal_number raw p.status >>= (λ v. ok (record p { status = v }))
      else if key == "detail"
      then unmarshal_text raw p.detail >>= (λ v. ok (record p { detail = v }))
      else if key == "instance"
      then unmarshal_text raw p.instance_uri >>= (λ v. ok (record p { instance_uri = v }))
      else err (message "ssf: ProblemDetails: unrecognized registered member")

  abbrev pub beside : String → ProblemDetails → Result Reading
  beside buf p = ok (p, buf)

  -- One turn of the loop of `UnmarshalJSON`
  unfoldable pub route : Reading → Member → Result Reading
  unfolding assign_registered append_member
  route (p, buf) m =
      if is_registered m.0
      then assign_registered p m >>= beside buf
      else ok (p, append_member buf m)

  unfoldable pub with_extensions : Reading → ProblemDetails
  with_extensions (p, buf) = if buf == "{" then p else record p { extensions = some (buf ++ "}") }

  -- The closing brace is read, whatever it is.
  abbrev pub closed : Reading → Decoder → Result Reading
  closed r d = token d >>= (λ t. ok r)

  -- `ProblemDetails.UnmarshalJSON`
  unfoldable pub unmarshal_problem : String → Result ProblemDetails
  unfolding each_member route with_extensions
  unmarshal_problem data_text =
      token (new_decoder data_text)
      >>= opened "ssf: ProblemDetails: expected JSON object"
      >>= each_of "ssf: ProblemDetails: non-string key" route closed (empty_problem, "{")
      >>= (λ r. ok (with_extensions r))

  abbrev pub appended : String → String → String → Result String
  appended buf key t = ok (append_member buf (key, t))

  -- A member whose value is not empty.
  unfoldable pub write_text : String → String → String → Result String
  unfolding append_member
  write_text key v buf = if v == "" then ok buf else marshal_text v >>= appended buf key

  unfoldable pub write_number : String → Int64 → String → Result String
  unfolding append_member
  write_number key n buf = if eqb n 0 then ok buf else marshal_number n >>= appended buf key

  unfoldable pub write_extensions : Option String → String → Result String
  unfolding extension_members append_members
  write_extensions none buf = ok buf
  write_extensions (some raw) buf =
      if raw == "" then ok buf else extension_members raw >>= (λ ms. ok (append_members buf ms))

  -- `ProblemDetails.MarshalJSON`
  unfoldable pub marshal_problem : ProblemDetails → Result String
  unfolding write_text write_number write_extensions
  marshal_problem p =
      write_text "type" p.type_uri "{"
      >>= write_text "title" p.title
      >>= write_number "status" p.status
      >>= write_text "detail" p.detail
      >>= write_text "instance" p.instance_uri
      >>= write_extensions p.extensions
      >>= (λ buf. ok (buf ++ "}"))
