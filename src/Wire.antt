-- ===== src/Wire.antt =====
-- The wire types of the root package: stream.go, status.go, subjects.go, poll.go, verification.go
-- and config.go. A `json.RawMessage` and a slice keep the difference of nil and empty: `none` is nil.
-- A pointer to a bool or an int is an `Option`. A Subject Identifier is a value of the library
-- go-subjectid, so its type is a parameter.
pub mod Subjects
use go_ssf.Prelude.{Bool, Option, List, String}
use go_ssf.Prelude.Int64.{Int64}
use go_ssf.Prelude.Map.{Map}

abbrev pub RawMessage : Type 0
RawMessage = Option String

abbrev pub Strings : Type 0
Strings = Option (List String)

pub record UnknownDelivery : Type 0 where
  pub method : String
  pub raw : RawMessage

pub record Delivery : Type 0 where
  pub method : String
  pub endpoint_url : String
  pub authorization_header : String
  pub unknown : Option UnknownDelivery

pub record StreamConfig : Type 0 where
  pub stream_id : String
  pub iss : String
  pub aud : RawMessage
  pub events_supported : Strings
  pub events_requested : Strings
  pub events_delivered : Strings
  pub delivery : Delivery
  pub min_verification_interval : Int64
  pub format : String

abbrev pub StreamStatus : Type 0
StreamStatus = String

abbrev pub status_enabled : StreamStatus
status_enabled = "enabled"

abbrev pub status_paused : StreamStatus
status_paused = "paused"

abbrev pub status_disabled : StreamStatus
status_disabled = "disabled"

pub record StatusResponse : Type 0 where
  pub status : StreamStatus
  pub reason : String
  pub subject : RawMessage

pub record StatusUpdateRequest : Type 0 where
  pub status : StreamStatus
  pub reason : String
  pub subject : RawMessage

pub record AddSubjectRequest (Identifier : Type 0) : Type 0 where
  pub subject : Option Identifier
  pub verified : Option Bool

pub record RemoveSubjectRequest (Identifier : Type 0) : Type 0 where
  pub subject : Option Identifier

pub record VerificationRequest : Type 0 where
  pub state : String

pub record SetErr : Type 0 where
  pub code : String
  pub description : String

pub record PollRequest : Type 0 where
  pub ack : List String
  pub set_errs : Map SetErr
  pub max_events : Option Int64
  pub return_immediately : Option Bool

pub record PollResponse : Type 0 where
  pub sets : Map String
  pub more_available : Option Bool

abbrev pub delivery_method_push : String
delivery_method_push = "urn:ietf:rfc:8935"

abbrev pub delivery_method_poll : String
delivery_method_poll = "urn:ietf:rfc:8936"

pub record TransmitterConfig : Type 0 where
  pub issuer : String
  pub jwks_uri : String
  pub delivery_methods_supported : Strings
  pub configuration_endpoint : String
  pub status_endpoint : String
  pub add_subject_endpoint : String
  pub remove_subject_endpoint : String
  pub verification_endpoint : String
  pub critical_subject_members : Strings
  pub spec_version : String
  pub authorization_schemes : RawMessage
