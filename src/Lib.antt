-- ===== src/Lib.antt =====
-- go_ssf: a verification library for go-ssf, a Go implementation of the OpenID Shared Signals
-- Framework. A Transmitter keeps streams and delivers Security Event Tokens (SETs) over them, by
-- push or by poll; a Receiver takes SETs, hands their payloads to a Sink and acknowledges them.
--
-- The parts and their modules:
-- - Prelude: names of the libraries, Boolean tests, maps with text keys, lists, int64 words, decimal
--   texts, the sort of texts, doubled values.
-- - Errors (errors.go, and the unexported errors of transmitter/pushdriver.go): Go errors as trees,
--   with `errors.Is` and `errors.As`; `Result` is what a function with an `error` result returns. Message
--   has the texts of the structured errors. Document has MarshalJSON and UnmarshalJSON of ProblemDetails
--   (`marshal_problem`, `unmarshal_problem`); its proofs: Written, Read, Partition, Fields,
--   RoundTrip.
-- - Wire (stream.go, status.go, subjects.go, poll.go, verification.go): the types on the wire; Subjects has
--   the decoding of the subject requests.
-- - StreamStore (streamstore.go): the interface as a record of functions on a state, and its rules.
-- - Store (memstore/memstore.go): the InMemoryStore. Its four maps, its counter and its seed are the record
--   `InMemoryStore`; each method is a function from the state to a state and a result, since it
--   holds the mutex throughout: Streams (CreateStream, GetStream, ListStreams, UpdateStream,
--   DeleteStream), Status (GetStreamStatus, SetStreamStatus), Subjects (AddSubject, RemoveSubject,
--   HasSubject), Queue (EnqueueSET, QueuedSETs), Keys (canonicalSubjectKey and its kin). Proofs:
--   Bijection and History (sequences of calls), Listing, Reads, Lifecycle, Deletion, Naming, Scopes,
--   Membership, Fifo; Contract makes it a StreamStore and has the interface's rules.
-- - RetryAfter (both parseRetryAfter functions).
-- - Transmitter.Push (transmitter/pushdriver.go): `deliver` is PushDriver.Deliver, `attempt` is
--   PushDriver.attempt, Config has NewPushDriver and its options. What the environment answers in a
--   round is a `Round`; a call returns what it posted, how long it slept, its dead letters and its
--   error. Proofs: Budget, Letters, Exhaustion, Pauses.
-- - Receiver.Sink (receiver/sink.go): the Sink, a function on a state of its own.
-- - Receiver.Poller, Receiver.Rounds and Receiver.Backoff (receiver/poller.go): `run`, `round`,
--   `poll_once`, `process`, `deliver_one` are Run, a turn of its loop, pollOnce, process and deliverOne;
--   `Backoff` with `next` and `reset` is the type backoff; Rounds has the data. Proofs: Batch, Ends,
--   Carry, Cadence. Config has NewPoller and its options. Parallel has the workers of `process` as a
--   `Pool` that the scheduler moves; its proofs: Keyed, Serial, Refines, Finish.
-- - Receiver.PushHandler (receiver/push.go): `push_handler` is the handler that PushHandler returns.
--   Proofs: Delivered, which also joins it to the push driver.
-- - Transmitter.Problem (transmitter/handlers.go: writeProblem and writeProblemStatus;
--   transmitter/auth.go: Default401Handler) and Client.Errors (client/errors.go: ParseHTTPError). Proofs:
--   Crossing and Structured, which join the two.
-- - Transmitter.Interface (transmitter/transmitter.go): the interface Transmitter as a record of functions
--   on a state, which the handlers take, and which the client and the loopback fill.
-- - Transmitter.Http, Transmitter.Handlers and Transmitter.Mux (transmitter/handlers.go,
--   transmitter/auth.go, transmitter/mux.go): requests, responses, authorization and JSON bodies; each
--   handler as a function from the state and the request to the response and the state; MuxHandler.
--   Proofs: Handlers.Guard.
-- - Transmitter.WellKnown (transmitter/wellknown.go): WellKnownHandler. Proofs: Fetched, which joins it to
--   the discovery client.
-- - Client.Requests and Client.Methods (client/client.go): NewClient, newRequest, do, and the eleven
--   methods, which make a client a Transmitter whose state is its transport's. Proofs: Requests.Usable;
--   Client.Remote puts a client before the mux of a Transmitter, Exchange and Answers follow a call there
--   and back, Configs, Streams and Mirror join them, and Nameless has the call without a stream.
-- - Client.Discovery (client/discovery.go): fetchOnce and parseCacheControl, with the ConfigCache in Cache
--   and the calls that share one in Callers. Proofs: Freshness, Served.
-- - Interop (internal/interop/interop.go): the MemstoreTransmitter, a Transmitter over the store with the
--   queues of poll delivery. Proofs: Batch, Delivery, Fifo (sequences of calls), Drain; Polling
--   joins it to the Poller, Remaining and Settled follow it until nothing waits.
-- - Set (set.go): JOSESetSigner and JOSESetVerifier. Proofs: Checks, RoundTrip.
-- - Registry (delivery_registry.go, and the JSON of Delivery in stream.go). Proofs: RoundTrip.
-- - Receiver.Challenge (receiver/verification.go): the table of the VerificationChallenger, the decorator
--   WrapSink and resolveTimeout; Call has Challenge with its options, its POST and its wait. Proofs:
--   Table, Answer, Matched, Timeout, Reuse.
--
-- The client sends requests to the mux, whose handlers call a Transmitter; the loopback is one over the
-- store. The push driver carries one SET to one Receiver; the Poller fetches batches, and its Sink may be
-- one that the challenger has wrapped. The discovery client fetches what the well-known handler publishes.
--
-- Numbers: an int64 (and so a time.Duration) is its bit pattern below 2^64, with Go's wrap-around and
-- the order of the signed values (Prelude.Int64). A count that is not negative is a natural number.
-- The loop over the members of a JSON object runs on fuel, one more than the bytes that the Decoder has
-- left, which is enough since every member takes some. No other function of the program runs on fuel: the
-- loop of Deliver recurs on the retries that are left, Run on the list of rounds that the environment
-- gives, every other loop on its list. `drain` of Interop.Drain, a reader that polls until nothing more is
-- available, counts its polls; one above the number of SETs that wait is enough.
--
-- Parameters: encoding/json and go-subjectid (`Json`, with the laws `JsonLaws`; `ClaimsReading`;
-- `Coding` for each type; `DeliveryJson`; `SubjectJson`; `JsonCodec` with the laws `Codes`), go-jose
-- (`Jose`), net/url and the building of requests (`Net`), the readings of strconv, strings, mime and
-- net/http (`HeaderReading`, `TextReading`, `Decoding`, `Texts`, `DiscoveryReading`), the signer, the
-- verifier, the Sink, the HTTP client, the context, the random jitter and the sleep.
--
-- Not modelled: locks and memory (a method that holds a mutex is one step; copies are equal values),
-- most headers, the texts that error messages format, panics on nil arguments, timers, the patterns and
-- the path cleaning of http.ServeMux (a path is compared as it is), the white space that json.Marshal
-- takes out of what a MarshalJSON gives. Run of the Poller is with serial delivery; parallel delivery is
-- modelled for one batch.
pub mod Prelude
pub mod Errors
pub mod Wire
pub mod StreamStore
pub mod Store
pub mod RetryAfter
pub mod Transmitter
pub mod Receiver
pub mod Client
pub mod Interop
pub mod Set
pub mod Registry
