-- ===== src/Receiver/Sink.antt =====
-- receiver/sink.go: the hook of the consumer, a function on a state of its own, so that the order of its calls
-- is seen. A SinkFunc is a Sink as it is; ErrPermanent is the sentinel `permanent_sink` of Errors.
use go_ssf.Prelude.{Option, String}
use go_ssf.Errors.{Error}

abbrev pub Sink : Type 0 → Type 0
Sink S = S → String → Option Error × S
