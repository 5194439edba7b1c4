-- ===== src/Transmitter/Push/Budget.antt =====
-- transmitter/pushdriver.go: the loop of Deliver stays within its retry budget and its ceiling.
use go_ssf.Prelude.{
  ℕ, zero, suc, ◌+◌, ◌≤◌, ◌<◌, Option, none, some, String, ◌≡◌, refl, arith, Bool-cases, inl, inr,
  ◌==◌,
}
use go_ssf.Prelude.Int64.{Int64, sign_bit}
use go_ssf.Prelude.Lists.{length, All}
use go_ssf.Errors.{Error, as_permanent, Result, ok}
use go_ssf.RetryAfter.{HeaderReading, push_retry_after}
use go_ssf.Transmitter.Push.Config.{IsTuned}
use go_ssf.Transmitter.Push.{
  Target, PushDriver, Round, Delivery, Verdict, cancelled, delivered, rejected, transient,
  last_round, next_round, after_sleep, after_sign, no_post, sleep_for, grow, verdict,
  classify_status, read_reply, build_then, attempt, by_mark, by_error, by_context, Reply,
  transport_error, response, deliver_loop, deliver, Post, post,
}

-- What a run of the loop with some retries left may do.
pub record IsWithin (d : PushDriver) (p : Post) (left : ℕ) (run : Delivery) : Type 0 where
  pub attempts_bounded : length run.attempts ≤ left + 1
  pub sleeps_bounded : length run.sleeps ≤ left
  pub pauses_capped : All (λ pause. pause ≤ d.max_backoff) run.sleeps
  pub same_post : All (λ q. q ≡ p) run.attempts

-- The doubled value may be a negative pattern, which is above every other.
grow_bounded :
    (d : PushDriver) (backoff : Int64)
    → d.max_backoff < sign_bit
    → grow d backoff < 18446744073709551616
unfolding grow
grow_bounded d backoff m = ground arith

sleep_for_capped :
    (d : PushDriver) (r : Round) (backoff hint : Int64)
    → d.max_backoff < sign_bit
    → backoff < 18446744073709551616
    → hint < 18446744073709551616
    → sleep_for d r backoff hint ≤ d.max_backoff
unfolding sleep_for
sleep_for_capped d r backoff hint m b c = ground arith

push_retry_after_bounded :
    (std : HeaderReading) (value : String) → push_retry_after std value < 18446744073709551616
unfolding push_retry_after
push_retry_after_bounded std value = ground arith

classify_hint :
    (std : HeaderReading) (status : ℕ) (retry_after body : String)
    → (classify_status std status retry_after body).0 < 18446744073709551616
unfolding classify_status
classify_hint std status retry_after body = ground (arith, push_retry_after_bounded std retry_after)

reply_hint : (std : HeaderReading) (reply : Reply) → (read_reply std reply).0 < 18446744073709551616
reply_hint std (transport_error e (some c)) = unfold read_reply in omega arith
reply_hint std (transport_error e none) = unfold read_reply in omega arith
reply_hint std (response status retry_after body) =
    unfold read_reply in classify_hint std status retry_after body

build_hint :
    (std : HeaderReading) (b : Option Error) (reply : Reply)
    → (build_then std b reply).0 < 18446744073709551616
build_hint std (some e) reply = unfold build_then in omega arith
build_hint std none reply = unfold build_then in reply_hint std reply

mark_hint :
    (given : Int64) (e : Error) (o : Option Error) {hint : Int64} {e' : Error}
    → by_mark given e o ≡ transient hint e'
    → hint ≡ given
unfolding by_mark
mark_hint given e (some u) h = cc
mark_hint given e none h = cc

error_hint :
    (given : Int64) (o : Option Error) {hint : Int64} {e : Error}
    → by_error given o ≡ transient hint e
    → hint ≡ given
unfolding by_error
error_hint given none h = cc
error_hint given (some e) h = mark_hint given e (as_permanent e) h

context_hint :
    (std : HeaderReading) (r : Round) (o : Option Error) {hint : Int64} {e : Error}
    → by_context std r o ≡ transient hint e
    → hint < 18446744073709551616
unfolding by_context attempt
context_hint std r (some c) h = cc
context_hint std r none h =
    rw (error_hint (build_then std r.build_err r.reply).0 (build_then std r.build_err r.reply).1 h)
      (build_hint std r.build_err r.reply)

verdict_hint :
    (std : HeaderReading) (r : Round) {hint : Int64} {e : Error}
    → verdict std r ≡ transient hint e
    → hint < 18446744073709551616
unfolding verdict
verdict_hint std r h = context_hint std r r.ctx_err h

module _ (d : PushDriver) (std : HeaderReading) (target : Target) (payload jws : String) where
  last-IsWithin :
      (v : Verdict)
      → IsWithin d (post d std target payload jws) 0 (last_round d std target payload jws v)
  unfolding last_round
  last-IsWithin (cancelled e) = ground arith
  last-IsWithin delivered = ground arith
  last-IsWithin (rejected e) = ground arith
  last-IsWithin (transient hint e) = ground arith

  after-IsWithin :
      (left : ℕ) (pause : Int64) (o : Option Error) (rest : Delivery)
      → pause ≤ d.max_backoff
      → IsWithin d (post d std target payload jws) left rest
      → IsWithin d
          (post d std target payload jws)
          (suc left)
          (after_sleep d std target payload jws pause o rest)
  unfolding after_sleep
  after-IsWithin left pause (some e) rest c h = ground arith
  after-IsWithin left pause none rest c h = record {
    attempts_bounded = omega (arith, h.attempts_bounded);
    sleeps_bounded = omega (arith, h.sleeps_bounded);
    pauses_capped = (c, h.pauses_capped);
    same_post = (refl, h.same_post);
  }

  next-IsWithin :
      (left : ℕ) (r : Round) (backoff : Int64) (v : Verdict) (rest : Delivery)
      → d.max_backoff < sign_bit
      → backoff < 18446744073709551616
      → ((hint : Int64) (e : Error) → v ≡ transient hint e → hint < 18446744073709551616)
      → IsWithin d (post d std target payload jws) left rest
      → IsWithin d
          (post d std target payload jws)
          (suc left)
          (next_round d std target payload jws r backoff v rest)
  unfolding next_round
  next-IsWithin left r backoff (cancelled e) rest m b w h = ground arith
  next-IsWithin left r backoff delivered rest m b w h = ground arith
  next-IsWithin left r backoff (rejected e) rest m b w h = ground arith
  next-IsWithin left r backoff (transient hint e) rest m b w h =
      let pause = sleep_for d r backoff hint in
      after-IsWithin left pause (r.sleep pause) rest
        (sleep_for_capped d r backoff hint m b (w hint e refl)) h

  loop-IsWithin :
      (rounds : ℕ → Round) (left n : ℕ) (backoff : Int64)
      → d.max_backoff < sign_bit
      → backoff < 18446744073709551616
      → IsWithin d
          (post d std target payload jws)
          left
          (deliver_loop d std target payload jws rounds left n backoff)
  unfolding deliver_loop
  loop-IsWithin rounds zero n backoff m b = last-IsWithin (verdict std (rounds n))
  loop-IsWithin rounds (suc left) n backoff m b =
      next-IsWithin left (rounds n) backoff (verdict std (rounds n)) _ m b
        (λ hint e v. verdict_hint std (rounds n) v)
        (loop-IsWithin rounds left (suc n) (grow d backoff) m (grow_bounded d backoff m))

-- A call of a tuned driver attempts at most one POST more than its retry budget and sleeps at most
-- as often as the budget; no sleep is longer than the ceiling, whatever a Retry-After header asks
-- for; and every POST has the same URL, Authorization header and token.
pub deliver-IsWithin :
    (d : PushDriver) (sign : String → Result String) (std : HeaderReading) (rounds : ℕ → Round)
    (target : Target) (payload : String) {jws : String}
    → IsTuned d
    → sign payload ≡ ok jws
    → IsWithin d
        (post d std target payload jws)
        d.max_retries
        (deliver d sign std rounds target payload)
unfolding deliver
deliver-IsWithin d sign std rounds target payload {jws} t e =
    elim (Bool-cases (target.endpoint_url == "")) [
      | inl blank ↦ rw blank (unfold no_post in ground arith)
      | inr given ↦
          rw (given, e, after_sign)
            (loop-IsWithin d std target payload jws rounds d.max_retries 0 d.initial_backoff
              t.ceiling (ground arith))
    ]
