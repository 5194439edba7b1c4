-- ===== src/Client/Errors/Examples.antt =====
-- client/errors.go: a stream that is not found, from the handler to the client's caller.
use go_ssf.Prelude.{ℕ, suc, String, leb, if◌then◌else◌, true, none, some, ◌≡◌}
use go_ssf.Errors.Document.{marshal_problem}
use go_ssf.Prelude.{arith, refl}
use go_ssf.Prelude.Decimal.{decimal}
use go_ssf.Errors.{join, http, Error, wrap, sentinel, stream_not_found, is, as_validation}
use go_ssf.Transmitter.Problem.{Texts, write_problem}
use go_ssf.Errors.Message.{ByteText, KeepsShort}
use go_ssf.Client.Errors.{Decoding, parse_http_error}
use go_ssf.Client.Errors.Crossing.{sent}
use go_ssf.Client.Errors.Structured.{problem_read_back, decoding_by, document_of}
use go_ssf.Errors.Document.Scanner.{scanner, scanner_codes}

abbrev texts : Texts
texts = record { error_text = λ e. "stream not found"; trim = λ t. t; quote = λ t. t }

abbrev decoding : Decoding
decoding = record { media_type = λ t. some t; problem = λ t. none }

abbrev missing : Error
missing = wrap "memstore: GetStream" (sentinel stream_not_found)

-- A text by its characters, all of one byte here.
count : String → ℕ
count String.[] = 0
count (String.◌∷◌ c t) = suc (count t)

abbrev one_byte : ByteText
one_byte = record {
  quote = λ t. t;
  trim = λ t. t;
  len = count;
  first = λ n t. if leb (count t) n then t else "";
}

one_byte-KeepsShort : KeepsShort one_byte
one_byte-KeepsShort n s h = let fits : leb (count s) n ≡ true = ground (arith, h) in rw fits refl

problem_read_back_example :
    parse_http_error (decoding_by scanner scanner_codes texts (λ t. some t)) (
      sent one_byte (write_problem texts missing) (document_of scanner scanner_codes texts missing))
    ≡ some (
        join
          (http (record {
            status_code = 404;
            body =
                "{\"type\":\"about:blank\",\"title\":\"Stream Not Found\",\"status\":404,\"detail\":\"stream not found\"}";
            rfc7807 = some (record {
              type_uri = "about:blank";
              title = "Stream Not Found";
              status = 404;
              detail = "stream not found";
              instance_uri = "";
              extensions = none;
            });
          }))
          (sentinel stream_not_found))
unfolding count is as_validation write_problem marshal_problem decimal
problem_read_back_example =
    problem_read_back scanner scanner_codes texts (λ t. some t) one_byte missing refl
      one_byte-KeepsShort (omega arith)
      (
        _,
        refl,
        (
          refl,
          _,
          refl,
          _,
          refl,
          omega arith,
          (
            refl,
            _,
            refl,
            _,
            refl,
            omega arith,
            (
              refl,
              _,
              refl,
              _,
              refl,
              omega arith,
              (refl, _, refl, _, refl, omega arith, (refl, (_, refl))),
            ),
          ),
        ),
      )
