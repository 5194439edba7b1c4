-- ===== src/Errors/Document/Scanner.antt =====
-- A scanner for JSON objects whose strings have no escapes and whose values are not nested, at which the
-- theorems on the ProblemDetails codec are tried.
use Prim.Native.Char.{Char}
use Prim.Native.String.{◌++◌}
use Prim.Native.String.append
use go_ssf.Prelude.{ℕ, suc, Bool, true, false, String, ◌≡◌, refl, ap, ◌==◌, if◌then◌else◌}
use go_ssf.Prelude.Decimal.{decimal, value, value-decimal}
use go_ssf.Errors.{Result, ok, err, message}
use go_ssf.Errors.Document.{JsonCodec, Token, delim, text}
use go_ssf.Errors.Document.RoundTrip.{Codes}

abbrev one : Char → String
one c = String.◌∷◌ c ""

abbrev size : String → ℕ
size String.[] = 0
size (String.◌∷◌ c s) = suc (size s)

-- The text up to a closing quote, and what stands behind it.
abbrev string_end : String → String × String
string_end String.[] = ("", "")
string_end (String.◌∷◌ c s) =
    let (front, back) = string_end s in
    if one c == "\"" then ("", s) else (String.◌∷◌ c front, back)

-- The text up to a comma or a closing brace, and the rest with it.
abbrev value_end : String → String × String
value_end String.[] = ("", "")
value_end (String.◌∷◌ c s) =
    let (front, back) = value_end s in
    if one c == ","
    then ("", String.◌∷◌ c s)
    else if one c == "}"
    then ("", String.◌∷◌ c s)
    else (String.◌∷◌ c front, back)

abbrev scan_string : String × String → Result (Token × String)
scan_string (front, back) = ok (text front, back)

abbrev scan : String → Result (Token × String)
scan String.[] = err (message "EOF")
scan (String.◌∷◌ c s) =
    let next = scan s in
    if one c == ","
    then next
    else if one c == "\""
    then scan_string (string_end s)
    else ok (delim (one c), s)

abbrev not_closed : String → Bool
not_closed String.[] = false
not_closed (String.◌∷◌ c s) = if one c == "}" then false else true

abbrev scan_value : String → Result (String × String)
scan_value String.[] = err (message "EOF")
scan_value (String.◌∷◌ c s) = ok (value_end s)

abbrev drop_last : String → String
drop_last String.[] = ""
drop_last (String.◌∷◌ c String.[]) = ""
drop_last (String.◌∷◌ c (String.◌∷◌ d s)) = String.◌∷◌ c (drop_last (String.◌∷◌ d s))

abbrev unquote : String → String
unquote String.[] = ""
unquote (String.◌∷◌ c s) = drop_last s

abbrev quote : String → String
quote v = String.◌∷◌ "\"" (v ++ "\"")

pub drop_last_quote : (v : String) → drop_last (v ++ "\"") ≡ v
drop_last_quote String.[] = refl
drop_last_quote (String.◌∷◌ c String.[]) = rw append.cons refl
drop_last_quote (String.◌∷◌ c (String.◌∷◌ d s)) =
    let rest : drop_last (String.◌∷◌ d s ++ "\"") ≡ String.◌∷◌ d s =
      drop_last_quote (String.◌∷◌ d s) in
    rw append.cons (rw append.cons (ap (String.◌∷◌ c) (rw append.cons at rest)))

abbrev pub scanner : JsonCodec
scanner = record {
  Decoder = String;
  new_decoder = λ s. s;
  rest = size;
  token = scan;
  more = not_closed;
  decode_raw = scan_value;
  marshal_text = λ v. ok (quote v);
  marshal_number = λ n. ok (decimal n);
  unmarshal_text = λ raw before. ok (unquote raw);
  unmarshal_number = λ raw before. ok (value raw);
}

abbrev pub scanner_codes : Codes scanner
scanner_codes = record {
  text_of = quote;
  marshals_text = λ v. refl;
  reads_text = λ v before. ap ok (drop_last_quote v);
  number_of = decimal;
  marshals_number = λ n. refl;
  reads_number = λ n before. ap ok (value-decimal n);
}
