-- ===== src/Transmitter/Push/Letters.antt =====
-- transmitter/pushdriver.go: the dead-letter callback against the result of Deliver.
use go_ssf.Prelude.{
  ℕ, zero, suc, Bool, true, false, Option, none, some, List, [], ◌∷◌, String, ◌≡◌, refl, arith,
  ◌==◌, Bool-cases, inl, inr,
}
use go_ssf.Prelude.Int64.{Int64}
use go_ssf.Errors.{Error, Result, ok}
use go_ssf.RetryAfter.{HeaderReading}
use go_ssf.Transmitter.Push.{
  Target, PushDriver, Round, DeadLetter, Delivery, Verdict, cancelled, delivered, rejected,
  transient, letter, last_round, next_round, after_sleep, after_sign, sleep_for, grow, verdict,
  deliver_loop, deliver, by_context, by_error, by_mark,
}

-- The error that a round's context or sleep gave.
pub data IsInterruption (rounds : ℕ → Round) (e : Error) : Type 0 where
  at_context : (n : ℕ) → (rounds n).ctx_err ≡ some e → IsInterruption rounds e
  in_sleep : (n : ℕ) (pause : Int64) → (rounds n).sleep pause ≡ some e → IsInterruption rounds e

-- The letters of a call that has failed for good, where a callback is installed and where none is.
abbrev pub told : Bool → DeadLetter → List DeadLetter
told true l = l ∷ []
told false l = []

pub letter-told :
    (d : PushDriver) (target : Target) (payload : String) (e : Error)
    → letter d target payload e
      ≡ told d.on_dead_letter (record { target = target; payload = payload; last_err = e })
letter-told d target payload e = elim (Bool-cases d.on_dead_letter) [
  | inl there ↦ rw there refl
  | inr missing ↦ rw missing refl
]

-- How a call that signed its payload may end: with success and no letter, with an interruption and
-- no letter, or with an error of which the callback, where there is one, was told once.
pub data IsSettled (d : PushDriver) (rounds : ℕ → Round) (target : Target) (payload : String)
    (run : Delivery) : Type 0 where
  success : run.result ≡ none → run.dead_letters ≡ [] → IsSettled d rounds target payload run
  interrupted :
      (e : Error)
      → IsInterruption rounds e
      → run.result ≡ some e
      → run.dead_letters ≡ []
      → IsSettled d rounds target payload run
  failure :
      (e : Error)
      → run.result ≡ some e
      → run.dead_letters
        ≡ told d.on_dead_letter (record { target = target; payload = payload; last_err = e })
      → IsSettled d rounds target payload run

context_cancelled :
    (std : HeaderReading) (r : Round) {e : Error} → verdict std r ≡ cancelled e → r.ctx_err ≡ some e
unfolding verdict by_context by_error by_mark
context_cancelled std r h = ground arith

module _ (d : PushDriver) (std : HeaderReading) (target : Target) (payload jws : String)
    (rounds : ℕ → Round) where
  last-IsSettled :
      (n : ℕ) (v : Verdict)
      → verdict std (rounds n) ≡ v
      → IsSettled d rounds target payload (last_round d std target payload jws v)
  unfolding last_round
  last-IsSettled n (cancelled e) h =
      interrupted e (at_context n (context_cancelled std (rounds n) h)) refl refl
  last-IsSettled n delivered h = success refl refl
  last-IsSettled n (rejected e) h = failure e refl (letter-told d target payload e)
  last-IsSettled n (transient hint e) h = failure e refl (letter-told d target payload e)

  slept-IsSettled :
      (n : ℕ) (pause : Int64) (o : Option Error) (rest : Delivery)
      → (rounds n).sleep pause ≡ o
      → IsSettled d rounds target payload rest
      → IsSettled d rounds target payload (after_sleep d std target payload jws pause o rest)
  unfolding after_sleep
  slept-IsSettled n pause (some e) rest h s = interrupted e (in_sleep n pause h) refl refl
  slept-IsSettled n pause none rest h (success r l) = success r l
  slept-IsSettled n pause none rest h (interrupted e i r l) = interrupted e i r l
  slept-IsSettled n pause none rest h (failure e r l) = failure e r l

  next-IsSettled :
      (n : ℕ) (backoff : Int64) (v : Verdict) (rest : Delivery)
      → verdict std (rounds n) ≡ v
      → IsSettled d rounds target payload rest
      → IsSettled d rounds target payload
          (next_round d std target payload jws (rounds n) backoff v rest)
  unfolding next_round
  next-IsSettled n backoff (cancelled e) rest h s =
      interrupted e (at_context n (context_cancelled std (rounds n) h)) refl refl
  next-IsSettled n backoff delivered rest h s = success refl refl
  next-IsSettled n backoff (rejected e) rest h s = failure e refl (letter-told d target payload e)
  next-IsSettled n backoff (transient hint e) rest h s =
      slept-IsSettled n _ ((rounds n).sleep (sleep_for d (rounds n) backoff hint)) rest refl s

  loop-IsSettled :
      (left n : ℕ) (backoff : Int64)
      → IsSettled d rounds target payload
          (deliver_loop d std target payload jws rounds left n backoff)
  unfolding deliver_loop
  loop-IsSettled zero n backoff = last-IsSettled n (verdict std (rounds n)) refl
  loop-IsSettled (suc left) n backoff =
      next-IsSettled n backoff (verdict std (rounds n)) _ refl
        (loop-IsSettled left (suc n) (grow d backoff))

-- A call to a target with a URL, whose payload the signer signs, ends in one of three ways: it
-- returns nil and reports no dead letter; it returns the error that the context or a sleep of some
-- round gave, and reports none; or it returns an error and reports it, with the target and the
-- unsigned payload, exactly once if a callback is installed.
pub deliver-IsSettled :
    (d : PushDriver) (sign : String → Result String) (std : HeaderReading) (rounds : ℕ → Round)
    (target : Target) (payload : String) {jws : String}
    → (target.endpoint_url == "") ≡ false
    → sign payload ≡ ok jws
    → IsSettled d rounds target payload (deliver d sign std rounds target payload)
unfolding deliver
deliver-IsSettled d sign std rounds target payload {jws} given e =
    rw (given, e, after_sign)
      (loop-IsSettled d std target payload jws rounds d.max_retries 0 d.initial_backoff)
