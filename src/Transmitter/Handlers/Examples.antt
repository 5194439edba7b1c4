-- ===== src/Transmitter/Handlers/Examples.antt =====
-- transmitter/mux.go: a mux without authorization, and one whose authorization returns a scope.
use go_ssf.Prelude.{ℕ, true, none, [], ◌∷◌, String, ◌≡◌, refl}
use go_ssf.Errors.{ok, err, sentinel, unauthorized}
use go_ssf.Transmitter.Interface.{Transmitter, not_implemented_transmitter}
use go_ssf.Transmitter.Problem.{default_401_handler}
use go_ssf.Transmitter.Http.{Coding, Library, Request, HttpResponse, StreamScope, problem_response}
use go_ssf.Transmitter.Handlers.Guard.{rejected_untouched, scope_ignored}
use go_ssf.Transmitter.Mux.{mux_handler, serve, default_paths}

-- A JSON that decodes nothing.
abbrev refusing : {A : Type 0} → Coding A
refusing = record {
  marshal = λ v. err (sentinel unauthorized);
  unmarshal = λ t. err (sentinel unauthorized);
  decode = λ t. err (sentinel unauthorized);
}

abbrev lib : Library String
lib = record {
  texts = record { error_text = λ e. "unauthorized"; trim = λ t. t; quote = λ t. t };
  codings = record {
    config = refusing;
    listing = refusing;
    status = refusing;
    status_update = refusing;
    adding = refusing;
    removing = refusing;
    verification = refusing;
    polling = refusing;
    batch = refusing;
    problem = λ p. ok "{}";
    valid = λ t. true;
  };
}

abbrev not_found : HttpResponse
not_found = record { status = 404; allow = none; content_type = ""; body = "" }

abbrev deletion : Request
deletion = record {
  method = "DELETE";
  path = "/streams";
  query = ("stream_id", "stream-1") ∷ [];
  authorization = none;
  content_type = none;
  body = ok "";
}

abbrev deleting : Transmitter String ℕ
deleting = record not_implemented_transmitter { delete_config = λ s id. (ok tt, 0) }

rejected_untouched_example :
    serve lib deleting default_paths none not_found 7 deletion
    ≡ (problem_response lib (default_401_handler lib.texts (sentinel unauthorized)), 7)
rejected_untouched_example =
    rejected_untouched lib deleting default_paths none not_found 7 deletion (sentinel unauthorized)
      refl

abbrev scope_of : String → StreamScope
scope_of id = record { stream_id = id; subject = none }

scope_ignored_example :
    mux_handler lib deleting [] (λ r. ok (scope_of "stream-1")) not_found 7 deletion
    ≡ mux_handler lib deleting [] (λ r. ok (scope_of "stream-2")) not_found 7 deletion
scope_ignored_example =
    scope_ignored lib deleting [] (λ r. ok (scope_of "stream-1")) (λ r. ok (scope_of "stream-2"))
      not_found 7 deletion (scope_of "stream-1") (scope_of "stream-2") refl refl
