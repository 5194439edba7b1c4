-- ===== src/Store/Subjects.antt =====
-- memstore/memstore.go: the set of subjects of a stream.
use go_ssf.Prelude.{Bool, Option, none, some, String}
use go_ssf.Prelude.Map.{Map, get, put, remove, has}
use go_ssf.Errors.{Result, ok, err, invalid_config, stream_not_found, sentinel, wrap}
use go_ssf.Wire.{AddSubjectRequest, RemoveSubjectRequest}
use go_ssf.Store.{InMemoryStore}
use go_ssf.Store.Keys.{
  Json, AnySubject, canonical_subject_key_from_identifier, canonical_subject_key_from_any,
}

abbrev pub SubjectSet : Type 0
SubjectSet = Map (Unit {0})

add_key : InMemoryStore → String → SubjectSet → Result String → InMemoryStore × Result (Unit {0})
add_key s id set (err e) = (s, err (wrap "memstore: AddSubject" e))
add_key s id set (ok key) = (record s { subjects = put s.subjects id (put set key tt) }, ok tt)

remove_key : InMemoryStore → String → SubjectSet → Result String → InMemoryStore × Result (Unit {0})
remove_key s id set (err e) = (s, err (wrap "memstore: RemoveSubject" e))
remove_key s id set (ok key) = (record s { subjects = put s.subjects id (remove set key) }, ok tt)

member : SubjectSet → Result String → Result Bool
member set (err e) = err (wrap "memstore: HasSubject" e)
member set (ok key) = ok (has set key)

module _ (j : Json) where
  add_to :
      InMemoryStore
      → String
      → Option j.Identifier
      → Option SubjectSet
      → InMemoryStore × Result (Unit {0})
  unfolding add_key
  add_to s id subj none = (s, err (wrap "memstore: AddSubject" (sentinel stream_not_found)))
  add_to s id subj (some set) = add_key s id set (canonical_subject_key_from_identifier j subj)

  unfoldable pub add_subject :
      InMemoryStore
      → String
      → Option (AddSubjectRequest j.Identifier)
      → InMemoryStore × Result (Unit {0})
  unfolding add_to
  add_subject s id none =
      (s, err (wrap "memstore: AddSubject: nil request" (sentinel invalid_config)))
  add_subject s id (some req) = add_to s id req.subject (get s.subjects id)

  remove_from :
      InMemoryStore
      → String
      → Option j.Identifier
      → Option SubjectSet
      → InMemoryStore × Result (Unit {0})
  unfolding remove_key
  remove_from s id subj none = (s, err (wrap "memstore: RemoveSubject" (sentinel stream_not_found)))
  remove_from s id subj (some set) =
      remove_key s id set (canonical_subject_key_from_identifier j subj)

  unfoldable pub remove_subject :
      InMemoryStore
      → String
      → Option (RemoveSubjectRequest j.Identifier)
      → InMemoryStore × Result (Unit {0})
  unfolding remove_from
  remove_subject s id none =
      (s, err (wrap "memstore: RemoveSubject: nil request" (sentinel invalid_config)))
  remove_subject s id (some req) = remove_from s id req.subject (get s.subjects id)

  look_in : AnySubject j.Identifier → Option SubjectSet → Result Bool
  unfolding member
  look_in subject none = err (wrap "memstore: HasSubject" (sentinel stream_not_found))
  look_in subject (some set) = member set (canonical_subject_key_from_any j subject)

  unfoldable pub has_subject : InMemoryStore → String → AnySubject j.Identifier → Result Bool
  unfolding look_in
  has_subject s id subject = look_in subject (get s.subjects id)
