-- ===== src/Transmitter/WellKnown.antt =====
-- transmitter/wellknown.go: the handler of the metadata document. `encoding/json` is a parameter, and so are the
-- whole seconds of a duration, `int64(d.Seconds())`, which go through a float64.
mod Fetched
mod Examples
use go_ssf.Prelude.{ℕ, ◌&&◌, not, Option, none, some, List, [], ◌∷◌, String, ◌==◌, if◌then◌else◌}
use Prim.Native.String.{◌++◌}
use go_ssf.Prelude.Decimal.{decimal}
use go_ssf.Prelude.Int64.{Int64, slt}
use go_ssf.Errors.{Result, ok, err}
use go_ssf.Wire.{TransmitterConfig}

pub record MetadataResponse : Type 0 where
  pub status : ℕ
  pub allow : Option String
  pub content_type : String
  pub cache_control : String
  pub body : String

abbrev pub default_well_known_max_age : Int64
default_well_known_max_age = 3600000000000

-- `WithCacheMaxAge`, the last of them, else the default
unfoldable pub resolve_max_age : Int64 → List Int64 → Int64
resolve_max_age age [] = age
resolve_max_age age (d ∷ os) = resolve_max_age d os

-- `http.Error`, which ends the message with a new line
abbrev pub plain_error : ℕ → Option String → String → MetadataResponse
plain_error status allow message = record {
  status = status;
  allow = allow;
  content_type = "text/plain; charset=utf-8";
  cache_control = "";
  body = message ++ "\n";
}

-- The header, where the empty text is one that is not set.
unfoldable pub cache_header : (Int64 → ℕ) → Int64 → String
cache_header whole age = if slt 0 age then "max-age=" ++ decimal (whole age) else ""

unfoldable pub metadata_body : (Int64 → ℕ) → Int64 → Result String → MetadataResponse
metadata_body whole age (err e) = plain_error 500 none "marshal transmitter config"
metadata_body whole age (ok body) = record {
  status = 200;
  allow = none;
  content_type = "application/json; charset=utf-8";
  cache_control = cache_header whole age;
  body = body;
}

-- `WellKnownHandler`, of a configuration and options to a request's method; a nil configuration panics, and
-- is no case here.
unfoldable pub well_known_handler :
    (TransmitterConfig → Result String)
    → (Int64 → ℕ)
    → TransmitterConfig
    → List Int64
    → String
    → MetadataResponse
well_known_handler marshal whole cfg os method =
    if not (method == "GET") && not (method == "HEAD")
    then plain_error 405 (some "GET") "method not allowed"
    else metadata_body whole (resolve_max_age default_well_known_max_age os) (marshal cfg)
