-- ===== src/Transmitter/WellKnown/Fetched.antt =====
-- transmitter/wellknown.go against client/discovery.go: the metadata that a Transmitter publishes, as the
-- discovery client has it.
use Prim.Native.String.{◌++◌}
use Prim.Native.Char.{Char}
use Prim.Native.String.append
use go_ssf.Prelude.{
  ℕ, ◌<◌, Bool, true, false, none, some, List, [], ◌∷◌, String, ◌==◌, ◌≡◌, refl, arith, eq_iff,
  Bool-cases, inl, inr, ap, sym,
}
use go_ssf.Prelude.Decimal.{decimal}
use go_ssf.Prelude.Int64.{Int64, sign_bit, slt}
use go_ssf.Errors.{Result, ok}
use go_ssf.Wire.{TransmitterConfig}
use go_ssf.Client.Errors.{Decoding, parse_http_error}
use go_ssf.Client.Discovery.{
  DiscoveryReading, Fetcher, fetch_once, built, by_fetch, by_status, by_decoding,
  parse_cache_control, scan_directives, with_directive, with_name, with_value, with_number,
  well_known_path,
}
use go_ssf.Transmitter.WellKnown.{
  default_well_known_max_age, resolve_max_age, well_known_handler, metadata_body, cache_header,
}

abbrev has_no_char : String → Bool
has_no_char String.[] = true
has_no_char (String.◌∷◌ c t) = false

no_text : (c : Char) (t : String) → String.◌∷◌ c t ≡ "" → true ≡ false
no_text c t e = sym (ap has_no_char e)

age_text_given : (t : String) → (("max-age=" ++ t) == "") ≡ false
age_text_given t = elim (Bool-cases (("max-age=" ++ t) == "")) [
  | inl same ↦
      let e = (eq_iff ("max-age=" ++ t) "").0 same in
      let absurd = no_text _ ("ax-age=" ++ t) (rw append.cons at e) in ground (arith, absurd)
  | inr other ↦ other
]

-- What the text functions of the standard library give for the header with a number of seconds.
abbrev pub ReadsAge : DiscoveryReading → ℕ → Type 0
ReadsAge std n =
    (std.split ("max-age=" ++ decimal n) ≡ ("max-age=" ++ decimal n) ∷ [])
    × (std.trim ("max-age=" ++ decimal n) ≡ "max-age=" ++ decimal n)
    × (std.cut ("max-age=" ++ decimal n) ≡ ("max-age", some (decimal n)))
    × (std.trim "max-age" ≡ "max-age")
    × (std.to_lower "max-age" ≡ "max-age")
    × (std.trim (decimal n) ≡ decimal n)
    × (std.parse_int (decimal n) ≡ some n)

age_read :
    (std : DiscoveryReading) (n : ℕ)
    → ReadsAge std n
    → n < sign_bit
    → parse_cache_control std ("max-age=" ++ decimal n) ≡ (n, false)
unfolding parse_cache_control scan_directives with_directive with_name with_value with_number
age_read std n (splits, trims, cuts, name_trimmed, lowered, number_trimmed, parses) small =
    rw (age_text_given (decimal n)) (
      rw splits (
        rw trims (
          rw (age_text_given (decimal n)) (
            rw cuts (
              rw name_trimmed
                (rw lowered (rw number_trimmed (rw parses (ground (arith, small))))))))))

-- The transport of a discovery client whose requests reach the handler, whatever the URL.
abbrev pub publishes :
    (TransmitterConfig → Result String)
    → (Int64 → ℕ)
    → TransmitterConfig
    → List Int64
    → Fetcher (Unit {0})
publishes marshal whole cfg os w url =
    let a = well_known_handler marshal whole cfg os "GET" in
    (
      ok (record {
        response = record {
          status_code = a.status;
          content_type = a.content_type;
          body = ok a.body;
        };
        stream = ok a.body;
        cache_control = a.cache_control;
      }),
      w,
    )

-- A client that fetches the metadata which the handler publishes with an age above zero gets the published
-- configuration, with the age's whole seconds as its max-age and no directive against storing it. The document must survive
-- its JSON, the text functions read the header as it stands, and the seconds be an int64.
pub published_fetched :
    (std : DiscoveryReading) (d : Decoding) (marshal : TransmitterConfig → Result String)
    (whole : Int64 → ℕ) (cfg : TransmitterConfig) (os : List Int64) (body base_url : String)
    → let age = resolve_max_age default_well_known_max_age os in
      slt 0 age ≡ true
      → marshal cfg ≡ ok body
      → std.decode (ok body) ≡ ok cfg
      → std.build_err (std.trim_slashes base_url ++ well_known_path) ≡ none
      → ReadsAge std (whole (resolve_max_age default_well_known_max_age os))
      → whole (resolve_max_age default_well_known_max_age os) < sign_bit
      → (fetch_once std d (publishes marshal whole cfg os) tt base_url).0
        ≡ ok (record {
          config = cfg;
          max_age = whole (resolve_max_age default_well_known_max_age os);
          no_store = false;
        })
unfolding fetch_once built by_fetch by_status by_decoding parse_http_error well_known_handler
    metadata_body cache_header
published_fetched std d marshal whole cfg os body base_url positive marshals decodes builds reads
      small =
    let n = whole (resolve_max_age default_well_known_max_age os) in
    rw builds (rw marshals (rw decodes (rw positive (rw (age_read std n reads small) refl))))
