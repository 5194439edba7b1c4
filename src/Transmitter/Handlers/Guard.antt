-- ===== src/Transmitter/Handlers/Guard.antt =====
-- transmitter/mux.go, transmitter/handlers.go and transmitter/auth.go: what authorization decides, over
-- the whole mux.
use go_ssf.Prelude.{Bool, ◌||◌, none, some, List, String, ◌==◌, if◌then◌else◌, ◌≡◌, refl, arith}
use go_ssf.Errors.{Error, Result, ok, err, sentinel, unauthorized}
use go_ssf.Transmitter.Problem.{default_401_handler}
use go_ssf.Transmitter.Interface.{Transmitter}
use go_ssf.Transmitter.Http.{
  Request, HttpResponse, Library, AuthFunc, StreamScope, problem_response, run_auth,
}
use go_ssf.Transmitter.Handlers.{
  config_handler, status_handler, posted_for, add_subject_handler, remove_subject_handler,
  verification_handler, poll_handler,
}
use go_ssf.Transmitter.Mux.{MuxConfig, MuxOption, serve, mux_handler}

-- The authorization fails with an error; a nil one fails for every request.
abbrev pub Rejects : AuthFunc → Request → Error → Type 0
Rejects none r e = e ≡ sentinel unauthorized
Rejects (some auth) r e = auth r ≡ err e

-- One of the six paths.
abbrev pub is_routed : MuxConfig → String → Bool
is_routed c path =
    path == c.streams_path
    || (path == c.status_path
        || (path == c.add_subject_path
            || (path == c.remove_subject_path
                || (path == c.verification_path || path == c.poll_path))))

module _ {Identifier S : Type 0} (lib : Library Identifier) (t : Transmitter Identifier S) where
  run_auth-Rejects :
      (auth : AuthFunc) (r : Request) (e : Error)
      → Rejects auth r e
      → run_auth lib auth r ≡ some (problem_response lib (default_401_handler lib.texts e))
  unfolding run_auth
  run_auth-Rejects none r e h = rw h refl
  run_auth-Rejects (some auth) r e h = rw h refl

  -- The six handlers on the paths of a mux: a request that the authorization rejects, as a nil one rejects
  -- every request, is answered on each of the six paths, whatever its method, query and body, with the
  -- 401 document of the error, on any other path as the mux answers unknown paths, and in no case reaches
  -- the Transmitter, whose state is the same.
  pub rejected_untouched :
      (c : MuxConfig) (auth : AuthFunc) (not_found : HttpResponse) (s : S) (r : Request) (e : Error)
      → Rejects auth r e
      → serve lib t c auth not_found s r ≡ (
        (if is_routed c r.path
            then problem_response lib (default_401_handler lib.texts e)
            else not_found),
        s,
      )
  unfolding serve config_handler status_handler posted_for add_subject_handler
      remove_subject_handler verification_handler poll_handler
  rejected_untouched c auth not_found s r e h = rw (run_auth-Rejects auth r e h) (ground arith)

  -- Of an authorization that accepts a request, only that it accepts matters: the stream and the subject of
  -- the scope that it returns restrict nothing, on any path and for any method.
  pub scope_ignored :
      (os : List MuxOption) (first second : Request → Result StreamScope) (not_found : HttpResponse)
      (s : S) (r : Request) (a b : StreamScope)
      → first r ≡ ok a
      → second r ≡ ok b
      → mux_handler lib t os first not_found s r ≡ mux_handler lib t os second not_found s r
  unfolding mux_handler serve config_handler status_handler posted_for add_subject_handler
      remove_subject_handler verification_handler poll_handler run_auth
  scope_ignored os first second not_found s r a b h k = rw h (rw k refl)
