-- ===== src/Receiver/Challenge/Matched.antt =====
-- receiver/verification.go: the SET that a successful Challenge returns.
use go_ssf.Prelude.{
  ℕ, ◌+◌, Option, none, some, List, String, ◌==◌, ◌≡◌, refl, sym, arith, Bool-cases, inl, inr,
}
use go_ssf.Prelude.Map.{put, has}
use go_ssf.Errors.{Result, ok, err}
use go_ssf.Receiver.Challenge.{VerificationChallenger, register, ClaimsReading, steps}
use go_ssf.Receiver.Challenge.Table.{IsSound, in_put}
use go_ssf.Receiver.Challenge.Answer.{IsOwned, Arrived, answered}
use go_ssf.Receiver.Challenge.Call.{
  ChallengeOptions, ChallengeOption, ChallengeWorld, Wake, on_answer, on_timer, on_context,
  no_options, resolve_options, received, wait, post_challenge, after_post, after_register,
  chosen_state, with_chosen, challenge_with, challenge,
}

received_ok :
    (o : Option String) (payload : String) → received o ≡ some (ok payload) → o ≡ some payload
received_ok none payload e = ground (arith, e)
received_ok (some p) payload e = ground (arith, e)

waited :
    (c : VerificationChallenger) (w : ℕ) (wake : Wake) (payload : String)
    → wait c w wake ≡ some (ok payload)
    → c.inbox w ≡ some payload
unfolding wait
waited c w on_answer payload e = received_ok (c.inbox w) payload e
waited c w on_timer payload e = ground (arith, e)
waited c w (on_context x) payload e = ground (arith, e)

posted :
    (x : ChallengeWorld) (c : VerificationChallenger) (state : String) (w : ℕ)
    (r : Result (Unit {0})) (payload : String)
    → (after_post x c state w r).0 ≡ some (ok payload)
    → c.inbox w ≡ some payload
unfolding after_post
posted x c state w (ok d) payload e = waited c w x.wake payload e
posted x c state w (err y) payload e = ground (arith, e)

module _ (json : ClaimsReading) (x : ChallengeWorld) where
  registered :
      (cfg : ChallengeOptions) (c : VerificationChallenger) (state payload : String)
      → IsSound c
      → (after_register json x cfg state (register c state)).0 ≡ some (ok payload)
      → Arrived json state payload x.events
  unfolding after_register register
  registered cfg c state payload h e = elim (Bool-cases (has c.pending state)) [
    | inl there ↦ let refused = rw there at e in ground (arith, refused)
    | inr free ↦
        let made : VerificationChallenger = record c {
          pending = put c.pending state c.fresh;
          fresh = c.fresh + 1;
        } in
        let owned : IsOwned made c.fresh (λ k. k ≡ state) = (
          omega arith,
          λ k f. elim (in_put c.pending state k c.fresh c.fresh f) [
            | inl new ↦ sym new.0
            | inr old ↦ absurd (omega (arith, h.made k c.fresh old))
          ],
        ) in
        answered json x.events made c.fresh state payload owned (h.unmade c.fresh (omega arith)) (
          posted x (steps json made x.events) state c.fresh (post_challenge x cfg state) payload
            (rw free at e))
  ]

  chosen :
      (cfg : ChallengeOptions) (c : VerificationChallenger) (o : Result String) (payload : String)
      → IsSound c
      → (with_chosen json x cfg c o).0 ≡ some (ok payload)
      → (state : String) × (o ≡ ok state) × Arrived json state payload x.events
  unfolding with_chosen
  chosen cfg c (ok state) payload h e = (state, refl, registered cfg c state payload h e)
  chosen cfg c (err y) payload h e = ground (arith, e)

  -- When Challenge, called on a sound table with any options, succeeds with a payload, then this payload is of
  -- a verification SET with the very state that the call chose, the one of its options or else the generated
  -- one, and the wrapped Sink took it after the call had registered, whatever other calls did meanwhile.
  pub challenge-Arrived :
      (c : VerificationChallenger) (os : List ChallengeOption) (payload : String)
      → IsSound c
      → (challenge json x c os).0 ≡ some (ok payload)
      → (state : String) × (chosen_state x (resolve_options no_options os) ≡ ok state)
        × Arrived json state payload x.events
  unfolding challenge challenge_with
  challenge-Arrived c os payload h e =
      let cfg = resolve_options no_options os in
      elim (Bool-cases (cfg.endpoint == "")) [
        | inl missing ↦ let refused = rw missing at e in ground (arith, refused)
        | inr there ↦ chosen cfg c (chosen_state x cfg) payload h (rw there at e)
      ]
