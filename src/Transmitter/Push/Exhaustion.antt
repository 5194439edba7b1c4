-- ===== src/Transmitter/Push/Exhaustion.antt =====
-- transmitter/pushdriver.go: transient failures are retried until a round decides or the budget is
-- spent.
use go_ssf.Prelude.{
  ℕ, zero, suc, ◌+◌, ◌-◌, ◌≤◌, ◌<◌, true, false, ◌⊎◌, inl, inr, ltb, leb, eqb, ◌&&◌, ◌||◌, Option,
  none, some, List, [], String, ◌≡◌, refl, subst, ap, arith, ◌==◌, ◌∙◌,
}
use go_ssf.Prelude.Int64.{Int64}
use go_ssf.Prelude.Lists.{length}
use go_ssf.Errors.{Error, Result, ok, as_permanent, wrap, push_http}
use go_ssf.RetryAfter.{HeaderReading, push_retry_after}
use go_ssf.Transmitter.Push.{
  Target, PushDriver, Round, Reply, transport_error, response, attempt, classify_status, by_context,
  build_then, read_reply, by_mark, Delivery, delivered, rejected, transient, letter, DeadLetter,
  end_with, last_round, next_round, after_sleep, after_sign, grow, verdict, deliver_loop, deliver,
}

-- A round that fails with a transient error, and whose sleep is not cut short.
pub record IsRetried (std : HeaderReading) (r : Round) : Type 0 where
  pub hint : Int64
  pub error : Error
  pub fails : verdict std r ≡ transient hint error
  pub sleeps : (pause : Int64) → r.sleep pause ≡ none

-- A round that the driver should try again, by what it gets: no response, and no word of a cancellation, or a
-- response with status 408 or 429 or one from 500 on. Its sleep is not cut short.
pub data FailsForNow (reply : Reply) : Type 0 where
  lost : (e : Error) → as_permanent e ≡ none → reply ≡ transport_error e none → FailsForNow reply
  busy :
      (status : ℕ) (hint body : String)
      → (status ≡ 408) ⊎ (status ≡ 429) ⊎ (500 ≤ status)
      → reply ≡ response status hint body
      → FailsForNow reply

pub record IsBusy (r : Round) : Type 0 where
  pub begins : r.ctx_err ≡ none
  pub built : r.build_err ≡ none
  pub fails : FailsForNow r.reply
  pub sleeps : (pause : Int64) → r.sleep pause ≡ none

no_success : (n : ℕ) → (n ≡ 408) ⊎ (n ≡ 429) ⊎ (500 ≤ n) → (leb 200 n && ltb n 300) ≡ false
no_success n again = elim again [
  | inl e ↦ ground (arith, e)
  | inr (inl e) ↦ ground (arith, e)
  | inr (inr e) ↦ ground (arith, e)
]

busy_status :
    (n : ℕ) → (n ≡ 408) ⊎ (n ≡ 429) ⊎ (500 ≤ n) → (eqb n 408 || (eqb n 429 || leb 500 n)) ≡ true
busy_status n again = elim again [
  | inl e ↦ ground (arith, e)
  | inr (inl e) ↦ ground (arith, e)
  | inr (inr e) ↦ ground (arith, e)
]

success : (n : ℕ) → 200 ≤ n → n < 300 → (leb 200 n && ltb n 300) ≡ true
success n low high = ground (arith, low, high)

busy-transient :
    (std : HeaderReading) (r : Round)
    → IsBusy r
    → (hint : Int64) × (e : Error) × (verdict std r ≡ transient hint e)
unfolding verdict attempt classify_status as_permanent
busy-transient std r h = elim h.fails [
  | lost e mark same ↦ (
    0,
    wrap "post security event token" e,
    rw (h.begins, by_context)
        (rw (h.built, build_then) (rw (same, read_reply) (rw (mark, by_mark)))),
  )
  | busy status hint body again same ↦ (
    push_retry_after std hint,
    push_http status body,
    rw (h.begins, by_context)
        (rw (h.built, build_then)
          (rw (same, read_reply)
            (rw (no_success status again) (rw (busy_status status again) refl)))),
  )
]

pub busy-IsRetried : (std : HeaderReading) (r : Round) → IsBusy r → IsRetried std r
busy-IsRetried std r h =
    let (hint, e, fails) = busy-transient std r h in
    record { hint = hint; error = e; fails = fails; sleeps = h.sleeps }

-- A round that gets a response with a 2xx status.
pub record IsTaken (r : Round) : Type 0 where
  pub begins : r.ctx_err ≡ none
  pub built : r.build_err ≡ none
  pub status : ℕ
  pub retry_after : String
  pub body : String
  pub at_least : 200 ≤ status
  pub below : status < 300
  pub answered : r.reply ≡ response status retry_after body

taken-delivered : (std : HeaderReading) (r : Round) → IsTaken r → verdict std r ≡ delivered
unfolding verdict attempt classify_status
taken-delivered std r h =
    rw (h.begins, by_context)
      (rw (h.built, build_then)
        (rw (h.answered, read_reply) (rw (success h.status h.at_least h.below) refl)))

-- The run is `k` retries, and then the other run.
pub record IsAfter (k : ℕ) (run rest : Delivery) : Type 0 where
  pub result_kept : run.result ≡ rest.result
  pub letters_kept : run.dead_letters ≡ rest.dead_letters
  pub attempts_added : length run.attempts ≡ k + length rest.attempts
  pub sleeps_added : length run.sleeps ≡ k + length rest.sleeps

module _ (d : PushDriver) (std : HeaderReading) (target : Target) (payload jws : String)
    (rounds : ℕ → Round) where
  abbrev loop : ℕ → ℕ → Int64 → Delivery
  loop left n backoff = deliver_loop d std target payload jws rounds left n backoff

  retried_once :
      (left n : ℕ) (backoff : Int64)
      → IsRetried std (rounds n)
      → IsAfter 1 (loop (suc left) n backoff) (loop left (suc n) (grow d backoff))
  unfolding deliver_loop next_round after_sleep
  retried_once left n backoff h =
      rw (h.fails, next_round) (rw (h.sleeps, after_sleep) (ground arith))

  -- The rounds from `n` on, `k` of them, are retried.
  retried :
      (k left n : ℕ) (backoff : Int64)
      → ((i : ℕ) → i < k → IsRetried std (rounds (n + i)))
      → (b : Int64) × IsAfter k (loop (k + left) n backoff) (loop left (n + k) b)
  retried zero left n backoff h =
      let e : 0 + left ≡ left = omega arith in
      let f : n + 0 ≡ n = omega arith in (backoff, rw (e, f) (ground arith))
  retried (suc k) left n backoff h =
      let e : suc k + left ≡ suc (k + left) = omega arith in
      let f : n + suc k ≡ suc n + k = omega arith in
      let now : IsRetried std (rounds n) =
        subst (λ m. IsRetried std (rounds m)) (omega arith) (h 0 (omega arith)) in
      let (b, ih) =
        retried k left (suc n) (grow d backoff)
          (λ i lt. subst (λ m. IsRetried std (rounds m)) (omega arith) (h (suc i) (omega arith))) in
      (b, rw (e, f) (after_both b now ih))
    where
      after_both :
          (b : Int64)
          → IsRetried std (rounds n)
          → IsAfter k (loop (k + left) (suc n) (grow d backoff)) (loop left (suc n + k) b)
          → IsAfter (suc k) (loop (suc (k + left)) n backoff) (loop left (suc n + k) b)
      after_both b now ih =
          let one = retried_once (k + left) n backoff now in
          record {
            result_kept = one.result_kept ∙ ih.result_kept;
            letters_kept = one.letters_kept ∙ ih.letters_kept;
            attempts_added = omega (arith, one.attempts_added, ih.attempts_added);
            sleeps_added = omega (arith, one.sleeps_added, ih.sleeps_added);
          }

  -- The run that a deciding round ends.
  delivered_now :
      (left n : ℕ) (backoff : Int64)
      → verdict std (rounds n) ≡ delivered
      → loop left n backoff ≡ end_with d std target payload jws none []
  unfolding deliver_loop last_round next_round
  delivered_now zero n backoff v = rw (v, last_round)
  delivered_now (suc left) n backoff v = rw (v, next_round)

  rejected_now :
      (left n : ℕ) (backoff : Int64) {e : Error}
      → verdict std (rounds n) ≡ rejected e
      → loop left n backoff ≡ end_with d std target payload jws (some e) (letter d target payload e)
  unfolding deliver_loop last_round next_round
  rejected_now zero n backoff v = rw (v, last_round)
  rejected_now (suc left) n backoff v = rw (v, next_round)

  spent_now :
      (n : ℕ) (backoff : Int64) {hint : Int64} {e : Error}
      → verdict std (rounds n) ≡ transient hint e
      → loop 0 n backoff ≡ end_with d std target payload jws (some e) (letter d target payload e)
  unfolding deliver_loop last_round
  spent_now n backoff v = rw (v, last_round)

-- What a call did: its result, its letters, `k + 1` POSTs and `k` sleeps.
pub record EndsAfter (k : ℕ) (e : Option Error) (letters : List DeadLetter) (run : Delivery)
    : Type 0 where
  pub result : run.result ≡ e
  pub dead_letters : run.dead_letters ≡ letters
  pub attempts : length run.attempts ≡ k + 1
  pub sleeps : length run.sleeps ≡ k

module _ (d : PushDriver) (sign : String → Result String) (std : HeaderReading) (rounds : ℕ → Round)
    (target : Target) (payload : String) where
  -- The rounds before the `k`-th are retried, and the loop at the `k`-th is one last POST.
  ends_after :
      (k left : ℕ) {jws : String} (e : Option Error) (letters : List DeadLetter)
      → k + left ≡ d.max_retries
      → (target.endpoint_url == "") ≡ false
      → sign payload ≡ ok jws
      → ((i : ℕ) → i < k → IsRetried std (rounds i))
      → ((b : Int64)
          → deliver_loop d std target payload jws rounds left k b
            ≡ end_with d std target payload jws e letters)
      → EndsAfter k e letters (deliver d sign std rounds target payload)
  unfolding deliver end_with
  ends_after k left {jws} e letters budget given signed before last =
      let f : 0 + k ≡ k = omega arith in
      let (b, run) =
        retried d std target payload jws rounds k left 0 d.initial_backoff
          (λ i lt. subst (λ m. IsRetried std (rounds m)) (omega arith) (before i lt)) in
      let stop : deliver_loop d std target payload jws rounds left (0 + k) b
          ≡ end_with d std target payload jws e letters =
        rw f (last b) in
      rw (given, signed, after_sign)
        (subst
          (λ m.
            EndsAfter k e letters
              (deliver_loop d std target payload jws rounds m 0 d.initial_backoff))
          budget
          (record {
            result = run.result_kept ∙ ap (λ (r : Delivery). r.result) stop;
            dead_letters = run.letters_kept ∙ ap (λ (r : Delivery). r.dead_letters) stop;
            attempts =
                omega (arith, run.attempts_added, ap (λ (r : Delivery). length r.attempts) stop);
            sleeps = omega (arith, run.sleeps_added, ap (λ (r : Delivery). length r.sleeps) stop);
          }))

  -- If each round before the `k`-th gets no response or one with status 408, 429 or 500 and more, and then
  -- sleeps in full, and the `k`-th gets a response with a 2xx status, with `k` within the budget, then the call
  -- returns nil after `k + 1` POSTs and `k` sleeps, with no dead letter. (An error of the client in an
  -- earlier round is not marked permanent.)
  pub deliver_succeeds :
      (k : ℕ) {jws : String}
      → k ≤ d.max_retries
      → (target.endpoint_url == "") ≡ false
      → sign payload ≡ ok jws
      → ((i : ℕ) → i < k → IsBusy (rounds i))
      → IsTaken (rounds k)
      → EndsAfter k none [] (deliver d sign std rounds target payload)
  deliver_succeeds k {jws} le given signed before taken =
      ends_after k (d.max_retries - k) {jws = jws} none [] (omega arith) given signed
        (λ i lt. busy-IsRetried std (rounds i) (before i lt))
        (λ b.
          delivered_now d std target payload jws rounds (d.max_retries - k) k b
            (taken-delivered std (rounds k) taken))

  -- If the `k`-th round instead gets a permanent failure, the call stops there: it returns the
  -- error that was marked permanent, and reports it as a dead letter where a callback is installed.
  deliver_stops :
      (k : ℕ) {jws : String} {e : Error}
      → k ≤ d.max_retries
      → (target.endpoint_url == "") ≡ false
      → sign payload ≡ ok jws
      → ((i : ℕ) → i < k → IsRetried std (rounds i))
      → verdict std (rounds k) ≡ rejected e
      → EndsAfter k (some e) (letter d target payload e) (deliver d sign std rounds target payload)
  deliver_stops k {jws} {e} le given signed before v =
      ends_after k (d.max_retries - k) {jws = jws} (some e) _ (omega arith) given signed before
        (λ b. rejected_now d std target payload jws rounds (d.max_retries - k) k b v)

  -- If every round of the budget fails transiently, the call makes all its POSTs, returns the last
  -- error and reports it as a dead letter where a callback is installed.
  pub deliver_exhausts :
      {jws : String} {hint : Int64} {e : Error}
      → (target.endpoint_url == "") ≡ false
      → sign payload ≡ ok jws
      → ((i : ℕ) → i < d.max_retries → IsRetried std (rounds i))
      → verdict std (rounds d.max_retries) ≡ transient hint e
      → EndsAfter d.max_retries
          (some e)
          (letter d target payload e)
          (deliver d sign std rounds target payload)
  deliver_exhausts {jws} {hint} {e} given signed before v =
      ends_after d.max_retries 0 {jws = jws} (some e) _ (omega arith) given signed before
        (λ b. spent_now d std target payload jws rounds d.max_retries b v)
