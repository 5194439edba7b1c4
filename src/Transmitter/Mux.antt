-- ===== src/Transmitter/Mux.antt =====
-- transmitter/mux.go: the six endpoints on one mux. A pattern without a trailing slash matches its own
-- path alone; that `http.ServeMux` panics on two equal patterns is no case here.
use go_ssf.Prelude.{some, List, [], ◌∷◌, String, ◌==◌, if◌then◌else◌}
use go_ssf.Transmitter.Interface.{Transmitter}
use go_ssf.Transmitter.Http.{Request, HttpResponse, Library, AuthFunc, StreamScope}
use go_ssf.Errors.{Result}
use go_ssf.Transmitter.Handlers.{
  config_handler, status_handler, add_subject_handler, remove_subject_handler, verification_handler,
  poll_handler,
}

pub record MuxConfig : Type 0 where
  pub streams_path : String
  pub status_path : String
  pub add_subject_path : String
  pub remove_subject_path : String
  pub verification_path : String
  pub poll_path : String

abbrev pub default_paths : MuxConfig
default_paths = record {
  streams_path = "/streams";
  status_path = "/streams/status";
  add_subject_path = "/streams/subjects:add";
  remove_subject_path = "/streams/subjects:remove";
  verification_path = "/streams/verify";
  poll_path = "/streams/poll";
}

pub data MuxOption : Type 0 where
  with_streams_path : String → MuxOption
  with_status_path : String → MuxOption
  with_add_subject_path : String → MuxOption
  with_remove_subject_path : String → MuxOption
  with_verification_path : String → MuxOption
  with_poll_path : String → MuxOption

unfoldable pub apply_mux_option : MuxConfig → MuxOption → MuxConfig
apply_mux_option c (with_streams_path p) = record c { streams_path = p }
apply_mux_option c (with_status_path p) = record c { status_path = p }
apply_mux_option c (with_add_subject_path p) = record c { add_subject_path = p }
apply_mux_option c (with_remove_subject_path p) = record c { remove_subject_path = p }
apply_mux_option c (with_verification_path p) = record c { verification_path = p }
apply_mux_option c (with_poll_path p) = record c { poll_path = p }

unfoldable pub resolve_mux : MuxConfig → List MuxOption → MuxConfig
resolve_mux c [] = c
resolve_mux c (o ∷ os) = resolve_mux (apply_mux_option c o) os

module _ {Identifier S : Type 0} (lib : Library Identifier) (t : Transmitter Identifier S) where
  -- The mux of a resolved configuration; `not_found` is the answer of `http.ServeMux` to other paths. The paths
  -- of the configuration are taken literally: none ends in a slash or is a pattern, and the path of
  -- the request is already clean, so that `http.ServeMux` compares the two.
  unfoldable pub serve : MuxConfig → AuthFunc → HttpResponse → S → Request → HttpResponse × S
  serve c auth not_found s r =
      if r.path == c.streams_path
      then config_handler lib t auth s r
      else if r.path == c.status_path
      then status_handler lib t auth s r
      else if r.path == c.add_subject_path
      then add_subject_handler lib t auth s r
      else if r.path == c.remove_subject_path
      then remove_subject_handler lib t auth s r
      else if r.path == c.verification_path
      then verification_handler lib t auth s r
      else if r.path == c.poll_path
      then poll_handler lib t auth s r
      else (not_found, s)

  -- `MuxHandler`; a nil argument panics, and is no case here.
  unfoldable pub mux_handler :
      List MuxOption
      → (Request → Result StreamScope)
      → HttpResponse
      → S
      → Request
      → HttpResponse × S
  mux_handler os auth not_found s r = serve (resolve_mux default_paths os) (some auth) not_found s r
