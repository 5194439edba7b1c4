-- ===== src/Store/Membership.antt =====
-- memstore/memstore.go: the set of subjects of a stream, through add, remove and HasSubject.
use go_ssf.Prelude.{true, false, some, String, ◌≡◌, arith, eq_refl, ◌==◌, ◌∙◌, if◌then◌else◌}
use go_ssf.Prelude.Map.{get, put, remove, has, get-put, get-remove}
use go_ssf.Errors.{ok}
use go_ssf.Wire.{AddSubjectRequest, RemoveSubjectRequest}
use go_ssf.Store.{InMemoryStore}
use go_ssf.Store.Keys.{
  Json, AnySubject, canonical_subject_key_from_identifier, canonical_subject_key_from_any,
}
use go_ssf.Store.Subjects.{SubjectSet, add_subject, remove_subject, has_subject}

module _ (j : Json) where
  member_at :
      (s : InMemoryStore) (id : String) (subject : AnySubject j.Identifier) {set : SubjectSet}
      {key : String}
      → get s.subjects id ≡ some set
      → canonical_subject_key_from_any j subject ≡ ok key
      → has_subject j s id subject ≡ ok (has set key)
  unfolding has_subject
  member_at s id subject e f = rw (e, has_subject) (rw (f, has_subject))

  pub added_at :
      (s : InMemoryStore) (id : String) (req : AddSubjectRequest j.Identifier) {set : SubjectSet}
      {key : String}
      → get s.subjects id ≡ some set
      → canonical_subject_key_from_identifier j req.subject ≡ ok key
      → add_subject j s id (some req)
        ≡ (record s { subjects = put s.subjects id (put set key tt) }, ok tt)
  unfolding add_subject
  added_at s id req e f = rw (e, add_subject) (rw (f, add_subject))

  pub removed_at :
      (s : InMemoryStore) (id : String) (req : RemoveSubjectRequest j.Identifier) {set : SubjectSet}
      {key : String}
      → get s.subjects id ≡ some set
      → canonical_subject_key_from_identifier j req.subject ≡ ok key
      → remove_subject j s id (some req)
        ≡ (record s { subjects = put s.subjects id (remove set key) }, ok tt)
  unfolding remove_subject
  removed_at s id req e f = rw (e, remove_subject) (rw (f, remove_subject))

  -- After a subject is added, exactly the subjects with its canonical key and those that were
  -- members before are members.
  has-add :
      (s : InMemoryStore) (id : String) (req : AddSubjectRequest j.Identifier)
      (subject : AnySubject j.Identifier) {set : SubjectSet} {key at : String}
      → get s.subjects id ≡ some set
      → canonical_subject_key_from_identifier j req.subject ≡ ok key
      → canonical_subject_key_from_any j subject ≡ ok at
      → has_subject j (add_subject j s id (some req)).0 id subject
        ≡ (if key == at then ok true else has_subject j s id subject)
  has-add s id req subject {set} {key} {at} e f g = rw (added_at s id req e f) (
      member_at _ id subject {set = put set key tt} (simp (get-put, eq_refl)) g
      ∙ rw (member_at s id subject e g) (simp get-put (ground arith)))

  -- After a subject is removed, no subject with its canonical key is a member, and the others are
  -- members as before.
  has-remove :
      (s : InMemoryStore) (id : String) (req : RemoveSubjectRequest j.Identifier)
      (subject : AnySubject j.Identifier) {set : SubjectSet} {key at : String}
      → get s.subjects id ≡ some set
      → canonical_subject_key_from_identifier j req.subject ≡ ok key
      → canonical_subject_key_from_any j subject ≡ ok at
      → has_subject j (remove_subject j s id (some req)).0 id subject
        ≡ (if key == at then ok false else has_subject j s id subject)
  has-remove s id req subject {set} {key} {at} e f g = rw (removed_at s id req e f) (
      member_at _ id subject {set = remove set key} (simp (get-put, eq_refl)) g
      ∙ rw (member_at s id subject e g) (simp get-remove (ground arith)))
