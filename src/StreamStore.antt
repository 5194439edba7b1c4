-- ===== src/StreamStore.antt =====
-- streamstore.go: the interface of a stream store, with the rules that its comments state. An implementation
-- is a record of functions on a state of its own; which of its states arise is its own predicate.
use go_ssf.Prelude.{true, Option, some, List, String, ◌≡◌, ◌≢◌}
use go_ssf.Errors.{Result, ok, fails_with, stream_not_found}
use go_ssf.Wire.{
  RawMessage, StreamConfig, StatusResponse, StatusUpdateRequest, AddSubjectRequest,
  RemoveSubjectRequest,
}

-- What a method with an error alone returns.
abbrev pub Done : Type 0
Done = Unit {0}

pub record StreamStore (Identifier S : Type 0) : Type 0 where
  pub create_stream : S → Option StreamConfig → S × Result StreamConfig
  pub get_stream : S → String → Result StreamConfig
  pub list_streams : S → String → Result (List StreamConfig × String)
  pub update_stream : S → Option StreamConfig → S × Result StreamConfig
  pub delete_stream : S → String → S × Result Done
  pub get_stream_status : S → String → RawMessage → Result StatusResponse
  pub set_stream_status : S → String → Option StatusUpdateRequest → S × Result StatusResponse
  pub add_subject : S → String → Option (AddSubjectRequest Identifier) → S × Result Done
  pub remove_subject : S → String → Option (RemoveSubjectRequest Identifier) → S × Result Done
  pub enqueue_set : S → String → String → S × Result Done

module _ {Identifier S : Type 0} (store : StreamStore Identifier S) where
  open store use {
    create_stream, get_stream, update_stream, delete_stream, get_stream_status, set_stream_status,
    add_subject, remove_subject, enqueue_set,
  }

  abbrev pub IsMissing : S → String → Type 0
  IsMissing s id = fails_with (get_stream s id) stream_not_found ≡ true

  -- A call that fails with `stream not found` and changes nothing.
  abbrev pub Refuses : {A : Type 0} → S → S × Result A → Type 0
  Refuses s (s', r) = (s' ≡ s) × (fails_with r stream_not_found ≡ true)

  -- No read of a configuration sees a difference but at one id.
  abbrev pub OthersKept : S → S → String → Type 0
  OthersKept s s' id = (k : String) → k ≢ id → get_stream s' k ≡ get_stream s k

  -- A method named after a resource refuses a stream that does not exist.
  pub record RefusesMissing (s : S) (id : String) : Type 0 where
    pub update : (cfg : StreamConfig) → cfg.stream_id ≡ id → Refuses s (update_stream s (some cfg))
    pub status :
        (subject : RawMessage) → fails_with (get_stream_status s id subject) stream_not_found ≡ true
    pub set_status : (req : StatusUpdateRequest) → Refuses s (set_stream_status s id (some req))
    pub add : (req : AddSubjectRequest Identifier) → Refuses s (add_subject s id (some req))
    pub remove :
        (req : RemoveSubjectRequest Identifier) → Refuses s (remove_subject s id (some req))
    pub enqueue : (jws : String) → Refuses s (enqueue_set s id jws)

  -- The rules of the interface, at a state.
  pub record MeetsContract (s : S) : Type 0 where
    -- CreateStream returns what is then stored.
    pub created :
        (cfg : StreamConfig) {stored : StreamConfig}
        → (create_stream s (some cfg)).1 ≡ ok stored
        → let s' = (create_stream s (some cfg)).0 in
          (get_stream s' stored.stream_id ≡ ok stored) × OthersKept s s' stored.stream_id
    -- UpdateStream returns what is then stored, of the stream that the configuration names.
    pub updated :
        (cfg : StreamConfig) {stored : StreamConfig}
        → (update_stream s (some cfg)).1 ≡ ok stored
        → let s' = (update_stream s (some cfg)).0 in
          (get_stream s' cfg.stream_id ≡ ok stored) × OthersKept s s' cfg.stream_id
    -- DeleteStream never fails, twice neither, and afterwards the stream is missing.
    pub deleted :
        (id : String)
        → let (s', r) = delete_stream s id in
          (r ≡ ok tt) × IsMissing s' id × OthersKept s s' id × ((delete_stream s' id).1 ≡ ok tt)
    pub missing : (id : String) → IsMissing s id → RefusesMissing s id
    -- Adding a subject again, and removing it again, changes nothing and is no error.
    pub added_again :
        (id : String) (req : AddSubjectRequest Identifier)
        → (add_subject s id (some req)).1 ≡ ok tt
        → let s' = (add_subject s id (some req)).0 in add_subject s' id (some req) ≡ (s', ok tt)
    pub removed_again :
        (id : String) (req : RemoveSubjectRequest Identifier)
        → (remove_subject s id (some req)).1 ≡ ok tt
        → let s' = (remove_subject s id (some req)).0 in
          remove_subject s' id (some req) ≡ (s', ok tt)
    -- A read of a scope gives the status that was set for it.
    pub status_read :
        (id : String) (req : StatusUpdateRequest) {resp : StatusResponse}
        → (set_stream_status s id (some req)).1 ≡ ok resp
        → get_stream_status (set_stream_status s id (some req)).0 id req.subject ≡ ok resp
