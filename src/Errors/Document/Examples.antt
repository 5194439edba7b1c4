-- ===== src/Errors/Document/Examples.antt =====
-- errors.go: the theorems on the ProblemDetails codec at documents with one extension member.
use go_ssf.Prelude.{◌↔◌, some, List, [], ◌∷◌, String, ◌≡◌, refl, arith}
use go_ssf.Prelude.Decimal.{decimal, value}
use go_ssf.Errors.{ProblemDetails, ok, ◌>>=◌}
use go_ssf.Errors.Document.Scanner.{scanner, scanner_codes}
use go_ssf.Errors.Document.{
  Member, empty_problem, assign_registered, marshal_problem, unmarshal_problem,
}
use go_ssf.Errors.Document.Written.{object_text}
use go_ssf.Errors.Document.Read.{ReadsObject}
use go_ssf.Errors.Document.Partition.{assigned}
use go_ssf.Errors.Document.Fields.{
  IsReadFrom, nothing_read, extras, extras_object, unmarshal_problem-IsReadFrom,
}
use go_ssf.Errors.Document.RoundTrip.{unmarshal-marshal, relayed}

abbrev trace : List Member
trace = ("trace", "7") ∷ []

abbrev not_found : ProblemDetails
not_found = record {
  type_uri = "";
  title = "Stream Not Found";
  status = 404;
  detail = "";
  instance_uri = "/streams/1";
  extensions = some (object_text trace);
}

not_found_text :
    marshal_problem scanner not_found
    ≡ ok "{\"title\":\"Stream Not Found\",\"status\":404,\"instance\":\"/streams/1\",\"trace\":7}"
unfolding marshal_problem decimal
not_found_text = refl

unmarshal-marshal_example :
    (marshal_problem scanner not_found >>= unmarshal_problem scanner) ≡ ok not_found
unfolding decimal
unmarshal-marshal_example =
    unmarshal-marshal scanner scanner_codes not_found trace refl (refl, tt)
      (refl, (_, refl, (refl, _, refl, _, refl, omega arith, (refl, (_, refl)))))
      (
        _,
        refl,
        (
          refl,
          _,
          refl,
          _,
          refl,
          omega arith,
          (
            refl,
            _,
            refl,
            _,
            refl,
            omega arith,
            (
              refl,
              _,
              refl,
              _,
              refl,
              omega arith,
              (refl, _, refl, _, refl, omega arith, (refl, (_, refl))),
            ),
          ),
        ),
      )

-- An extension before the registered members, of which one comes twice.
abbrev received : String
received = "{\"trace\":7,\"status\":500,\"title\":\"Gone\",\"status\":410}"

abbrev received_members : List Member
received_members =
    ("trace", "7") ∷ ("status", "500") ∷ ("title", "\"Gone\"") ∷ ("status", "410") ∷ []

abbrev received_reads : ReadsObject scanner received received_members
received_reads = (
  _,
  refl,
  (
    refl,
    _,
    refl,
    _,
    refl,
    omega arith,
    (
      refl,
      _,
      refl,
      _,
      refl,
      omega arith,
      (
        refl,
        _,
        refl,
        _,
        refl,
        omega arith,
        (refl, _, refl, _, refl, omega arith, (refl, (_, refl))),
      ),
    ),
  ),
)

abbrev gone : ProblemDetails
gone = record empty_problem { title = "Gone"; status = 410 }

gone-assigned : assigned scanner empty_problem received_members ≡ ok gone
unfolding assigned assign_registered value
gone-assigned = refl

unmarshal_problem-IsReadFrom_example :
    let p : ProblemDetails = record gone { extensions = some "{\"trace\":7}" } in
    (unmarshal_problem scanner received ≡ ok p) ↔ (
      IsReadFrom scanner nothing_read received_members p
      × (p.extensions ≡ extras_object (extras received_members)))
unmarshal_problem-IsReadFrom_example =
    unmarshal_problem-IsReadFrom scanner received received_members
      (record gone { extensions = some "{\"trace\":7}" }) received_reads

relayed_example :
    (unmarshal_problem scanner received >>= marshal_problem scanner)
    ≡ ok "{\"title\":\"Gone\",\"status\":410,\"trace\":7}"
unfolding decimal
relayed_example =
    relayed scanner scanner_codes received received_members gone received_reads gone-assigned
      (refl, (_, refl, (refl, _, refl, _, refl, omega arith, (refl, (_, refl)))))
