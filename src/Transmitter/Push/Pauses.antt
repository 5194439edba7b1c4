-- ===== src/Transmitter/Push/Pauses.antt =====
-- transmitter/pushdriver.go: the sleeps between attempts.
use go_ssf.Prelude.{
  ℕ, zero, suc, ◌*◌, ◌^◌, ◌≤◌, ◌<◌, min, false, none, some, ◌∷◌, String, ◌≡◌, subst, ap, arith,
  ◌==◌,
}
use go_ssf.Prelude.Doubling.{doublings, twice_pow}
use go_ssf.Prelude.Int64.{Int64, sign_bit}
use go_ssf.Errors.{Error, as_permanent, Result, ok}
use go_ssf.RetryAfter.{HeaderReading}
use go_ssf.Transmitter.Push.{
  Target, PushDriver, Round, transport_error, transient, end_with, last_round, next_round,
  after_sleep, after_sign, sleep_for, grow, verdict, deliver_loop, deliver, attempt, build_then,
  read_reply, by_context, by_mark,
}
use go_ssf.Transmitter.Push.Config.{IsTuned}
use go_ssf.Transmitter.Push.Letters.{told, letter-told}
use go_ssf.Transmitter.Push.Exhaustion.{IsBusy, busy-IsRetried, EndsAfter, deliver_exhausts}

-- A round that fails transiently with no Retry-After hint, an exact jitter and a full sleep.
pub record IsPlain (std : HeaderReading) (r : Round) : Type 0 where
  pub error : Error
  pub fails : verdict std r ≡ transient 0 error
  pub exact : (x : Int64) → r.jitter x ≡ x
  pub sleeps : (pause : Int64) → r.sleep pause ≡ none

grow-min :
    (d : PushDriver) (x : ℕ)
    → d.max_backoff < 4611686018427387904
    → grow d (min x d.max_backoff) ≡ min (x * 2) d.max_backoff
unfolding grow
grow-min d x m = ground arith

grow_doubles :
    (d : PushDriver) (n : ℕ)
    → d.max_backoff < 4611686018427387904
    → grow d (min (d.initial_backoff * 2 ^ n) d.max_backoff)
      ≡ min (d.initial_backoff * 2 ^ suc n) d.max_backoff
grow_doubles d n m = rw (twice_pow d.initial_backoff n) (grow-min d (d.initial_backoff * 2 ^ n) m)

sleep_plain :
    (d : PushDriver) (r : Round) (x : ℕ)
    → d.max_backoff < 4611686018427387904
    → ((y : Int64) → r.jitter y ≡ y)
    → sleep_for d r (min x d.max_backoff) 0 ≡ min x d.max_backoff
unfolding sleep_for
sleep_plain d r x m exact = ground (arith, exact (min x d.max_backoff))

module _ (d : PushDriver) (std : HeaderReading) (target : Target) (payload jws : String)
    (rounds : ℕ → Round) (plain : (n : ℕ) → IsPlain std (rounds n))
    (m : d.max_backoff < 4611686018427387904) where
  loop_sleeps :
      (left n : ℕ)
      → (deliver_loop d std target payload jws rounds left n
          (min (d.initial_backoff * 2 ^ n) d.max_backoff)).sleeps
        ≡ doublings d.initial_backoff d.max_backoff n left
  unfolding deliver_loop last_round next_round after_sleep end_with
  loop_sleeps zero n = rw ((plain n).fails, last_round)
  loop_sleeps (suc left) n =
      rw ((plain n).fails, next_round)
        (rw ((plain n).sleeps _, after_sleep)
          (rw (sleep_plain d (rounds n) (d.initial_backoff * 2 ^ n) m (plain n).exact) (
            rw (grow_doubles d n m) (
              ap (λ l. min (d.initial_backoff * 2 ^ n) d.max_backoff ∷ l)
                (loop_sleeps left (suc n))))))

-- Against a Receiver that fails transiently in every round and sends no Retry-After, the sleeps of
-- a tuned driver whose ceiling is below 2^62 ns are, but for the jitter, the first backoff,
-- doubled each time and cut at the ceiling, one for each retry of the budget.
pub deliver_sleeps :
    (d : PushDriver) (sign : String → Result String) (std : HeaderReading) (rounds : ℕ → Round)
    (target : Target) (payload : String) {jws : String}
    → IsTuned d
    → d.max_backoff < 4611686018427387904
    → (target.endpoint_url == "") ≡ false
    → sign payload ≡ ok jws
    → ((n : ℕ) → IsPlain std (rounds n))
    → (deliver d sign std rounds target payload).sleeps
      ≡ doublings d.initial_backoff d.max_backoff 0 d.max_retries
unfolding deliver
deliver_sleeps d sign std rounds target payload {jws} t m given signed plain =
    let first : min (d.initial_backoff * 2 ^ 0) d.max_backoff ≡ d.initial_backoff =
      omega (arith, t.ordered) in
    rw (given, signed, after_sign)
      (subst
        (λ b.
          (deliver_loop d std target payload jws rounds d.max_retries 0 b).sleeps
          ≡ doublings d.initial_backoff d.max_backoff 0 d.max_retries)
        first (loop_sleeps d std target payload jws rounds plain m d.max_retries 0))

-- The doubling is not guarded against overflow: where the ceiling allows a backoff of
-- 2^62 ns or more, such a backoff doubles to a negative duration, for which, with no hint, the driver
-- does not sleep at all before the next attempt, whatever the jitter.
pub overflow_skips_sleep :
    (d : PushDriver) (r : Round) (backoff : Int64)
    → 4611686018427387904 ≤ backoff
    → backoff ≤ d.max_backoff
    → d.max_backoff < sign_bit
    → sleep_for d r (grow d backoff) 0 ≡ 0
unfolding sleep_for grow
overflow_skips_sleep d r backoff h b m = ground arith

cancelled_post :
    (std : HeaderReading) (r : Round) {transport ctx : Error}
    → r.ctx_err ≡ none
    → r.build_err ≡ none
    → r.reply ≡ transport_error transport (some ctx)
    → as_permanent ctx ≡ none
    → verdict std r ≡ transient 0 ctx
unfolding verdict attempt
cancelled_post std r c b e mark =
    rw (c, by_context) (rw (b, build_then) (rw (e, read_reply) (rw (mark, by_mark))))

-- A cancellation that the client reports during the POST of the last attempt reaches the
-- dead-letter callback: where each earlier round gets no response or one with status 408, 429 or 500 and
-- more, and sleeps in full, the call returns the context's error, and reports it as a dead letter,
-- once, where a callback is installed. (No error of the client is marked permanent.)
pub cancelled_post_reported :
    (d : PushDriver) (sign : String → Result String) (std : HeaderReading) (rounds : ℕ → Round)
    (target : Target) (payload : String) {jws : String} {transport ctx : Error}
    → (target.endpoint_url == "") ≡ false
    → sign payload ≡ ok jws
    → ((i : ℕ) → i < d.max_retries → IsBusy (rounds i))
    → (rounds d.max_retries).ctx_err ≡ none
    → (rounds d.max_retries).build_err ≡ none
    → (rounds d.max_retries).reply ≡ transport_error transport (some ctx)
    → as_permanent ctx ≡ none
    → EndsAfter d.max_retries
        (some ctx)
        (told d.on_dead_letter (record { target = target; payload = payload; last_err = ctx }))
        (deliver d sign std rounds target payload)
cancelled_post_reported d sign std rounds target payload {jws} {transport} {ctx} given signed before
      c b r mark =
    subst (λ l. EndsAfter d.max_retries (some ctx) l (deliver d sign std rounds target payload))
      (letter-told d target payload ctx)
      (deliver_exhausts d sign std rounds target payload {jws = jws} given signed
        (λ i lt. busy-IsRetried std (rounds i) (before i lt))
        (cancelled_post std (rounds d.max_retries) c b r mark))
