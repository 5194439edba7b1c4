-- ===== src/Transmitter/Interface.antt =====
-- transmitter/transmitter.go: the server-side contract, a method to each endpoint. An implementation
-- is a record of functions on a state of its own. A pointer argument that may be nil is an `Option`; a
-- method that returns no error returns
-- a value.
use go_ssf.Prelude.{Option, List, String}
use go_ssf.Errors.{Result, err, sentinel, not_implemented}
use go_ssf.Wire.{
  RawMessage, StreamConfig, StatusResponse, StatusUpdateRequest, AddSubjectRequest,
  RemoveSubjectRequest, VerificationRequest, PollRequest, PollResponse,
}

abbrev pub Done : Type 0
Done = Unit {0}

-- A page of configurations, where `none` is a nil slice, and the token of the next one.
abbrev pub Page : Type 0
Page = Option (List StreamConfig) × String

pub record Transmitter (Identifier S : Type 0) : Type 0 where
  pub get_config : S → String → Result StreamConfig × S
  pub list_config : S → String → Result Page × S
  pub create_config : S → Option StreamConfig → Result StreamConfig × S
  pub update_config : S → Option StreamConfig → Result StreamConfig × S
  pub delete_config : S → String → Result Done × S
  pub get_status : S → String → RawMessage → Result StatusResponse × S
  pub update_status : S → String → Option StatusUpdateRequest → Result StatusResponse × S
  pub add_subject : S → String → Option (AddSubjectRequest Identifier) → Result Done × S
  pub remove_subject : S → String → Option (RemoveSubjectRequest Identifier) → Result Done × S
  pub verify : S → String → Option VerificationRequest → Result Done × S
  pub poll_events : S → String → Option PollRequest → Result PollResponse × S

-- `NotImplementedTransmitter`
abbrev pub not_implemented_transmitter : {Identifier S : Type 0} → Transmitter Identifier S
not_implemented_transmitter = record {
  get_config = λ s id. (err (sentinel not_implemented), s);
  list_config = λ s token. (err (sentinel not_implemented), s);
  create_config = λ s cfg. (err (sentinel not_implemented), s);
  update_config = λ s cfg. (err (sentinel not_implemented), s);
  delete_config = λ s id. (err (sentinel not_implemented), s);
  get_status = λ s id subject. (err (sentinel not_implemented), s);
  update_status = λ s id req. (err (sentinel not_implemented), s);
  add_subject = λ s id req. (err (sentinel not_implemented), s);
  remove_subject = λ s id req. (err (sentinel not_implemented), s);
  verify = λ s id req. (err (sentinel not_implemented), s);
  poll_events = λ s id req. (err (sentinel not_implemented), s);
}
