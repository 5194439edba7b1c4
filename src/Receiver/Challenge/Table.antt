-- ===== src/Receiver/Challenge/Table.antt =====
-- receiver/verification.go: the table of challenges in flight, after any interleaving of the calls.
use go_ssf.Receiver.Sink.{Sink}
use go_ssf.Prelude.{
  subst, ℕ, ◌+◌, ◌≤◌, ◌<◌, false, Option, none, some, List, [], ◌∷◌, String, eqb, ◌≡◌, ◌≢◌, refl,
  sym, ◌∙◌, arith, ◌⊎◌, inl, inr, if◌then◌else◌, ◌==◌, eq_iff, Bool-cases,
}
use go_ssf.Prelude.Map.{Map, get, put, remove, has, get-put, get-remove}
use go_ssf.Errors.{Error}
use go_ssf.Receiver.Challenge.{
  VerificationChallenger, new_verification_challenger, register, unregister, ClaimsReading, Event,
  begin, cleanup, arrive, step, steps, extract_verification_state, send, hand_over, match_state,
  intercept, pass_on, wrap_sink,
}

-- Each state in flight has a channel of its own, which was made before and holds nothing yet.
pub record IsSound (c : VerificationChallenger) : Type 0 where
  pub made : (k : String) (w : ℕ) → get c.pending k ≡ some w → w < c.fresh
  pub unsent : (k : String) (w : ℕ) → get c.pending k ≡ some w → c.inbox w ≡ none
  pub apart : (k j : String) (w : ℕ) → get c.pending k ≡ some w → get c.pending j ≡ some w → k ≡ j
  pub unmade : (w : ℕ) → c.fresh ≤ w → c.inbox w ≡ none

new-IsSound : IsSound new_verification_challenger
unfolding new_verification_challenger get
new-IsSound = record {
  made = λ k w e. ground (arith, e);
  unsent = λ k w e. refl;
  apart = λ k j w e f. ground (arith, e);
  unmade = λ w h. refl;
}

-- What an entry of a changed map says of the map before.
pub in_removed :
    (m : Map ℕ) (s k : String) (w : ℕ)
    → get (remove m s) k ≡ some w
    → (get m k ≡ some w) × ((s == k) ≡ false)
in_removed m s k w e = elim (Bool-cases (s == k)) [
  | inl same ↦ ground (arith, sym (get-remove m s k) ∙ e, same)
  | inr other ↦ (ground (arith, sym (get-remove m s k) ∙ e, other), other)
]

pub in_put :
    (m : Map ℕ) (s k : String) (v w : ℕ)
    → get (put m s v) k ≡ some w
    → ((s ≡ k) × (v ≡ w)) ⊎ (get m k ≡ some w)
in_put m s k v w e = elim (Bool-cases (s == k)) [
  | inl same ↦ inl ((eq_iff s k).0 same, ground (arith, sym (get-put m s k v) ∙ e, same))
  | inr other ↦ inr (ground (arith, sym (get-put m s k v) ∙ e, other))
]

unregister-IsSound :
    (c : VerificationChallenger) (state : String) → IsSound c → IsSound (unregister c state)
unfolding unregister
unregister-IsSound c state h = record {
  made = λ k w e. h.made k w (in_removed c.pending state k w e).0;
  unsent = λ k w e. h.unsent k w (in_removed c.pending state k w e).0;
  apart = λ k j w e f.
      h.apart k j w (in_removed c.pending state k w e).0 (in_removed c.pending state j w f).0;
  unmade = h.unmade;
}

added-IsSound :
    (c : VerificationChallenger) (state : String)
    → IsSound c
    → IsSound (record c { pending = put c.pending state c.fresh; fresh = c.fresh + 1 })
added-IsSound c state h = record {
  made = λ k w e. elim (in_put c.pending state k c.fresh w e) [
    | inl new ↦ omega (arith, new.1)
    | inr old ↦ omega (arith, h.made k w old)
  ];
  unsent = λ k w e. elim (in_put c.pending state k c.fresh w e) [
    | inl new ↦ h.unmade w (omega (arith, new.1))
    | inr old ↦ h.unsent k w old
  ];
  apart = λ k j w e f. elim (in_put c.pending state k c.fresh w e) [
    | inl new ↦ elim (in_put c.pending state j c.fresh w f) [
      | inl too ↦ sym new.0 ∙ too.0
      | inr old ↦ absurd (omega (arith, new.1, h.made j w old))
    ]
    | inr old ↦ elim (in_put c.pending state j c.fresh w f) [
      | inl new ↦ absurd (omega (arith, new.1, h.made k w old))
      | inr too ↦ h.apart k j w old too
    ]
  ];
  unmade = λ w le. h.unmade w (omega (arith, le));
}

register-IsSound :
    (c : VerificationChallenger) (state : String) → IsSound c → IsSound (register c state).0
unfolding register
register-IsSound c state h = elim (Bool-cases (has c.pending state)) [
  | inl there ↦ rw there h
  | inr free ↦ rw free (added-IsSound c state h)
]

handed-IsSound :
    (c : VerificationChallenger) (state payload : String) (w : ℕ)
    → get c.pending state ≡ some w
    → IsSound c
    → IsSound (send (record c { pending = remove c.pending state }) w payload)
handed-IsSound c state payload w e h = record {
  made = λ k v f. h.made k v (in_removed c.pending state k v f).0;
  unsent = λ k v f.
      let (old, other) = in_removed c.pending state k v f in
      elim (Bool-cases (eqb v w)) [
        | inl same ↦
            let at : v ≡ w = ground (arith, same) in
            absurd (ground (arith, h.apart k state w (rw (← at) old) e, other, (eq_iff state k).1))
        | inr differ ↦ rw differ (h.unsent k v old)
      ];
  apart = λ k j v f g.
      h.apart k j v (in_removed c.pending state k v f).0 (in_removed c.pending state j v g).0;
  unmade = λ v le.
      let differ : eqb v w ≡ false = ground (arith, h.made state w e, le) in
      rw differ (h.unmade v le);
}

hand_over-IsSound :
    (c : VerificationChallenger) (state payload : String) (w : Option ℕ)
    → get c.pending state ≡ w
    → IsSound c
    → IsSound (hand_over c state payload w).0
unfolding hand_over
hand_over-IsSound c state payload none e h = h
hand_over-IsSound c state payload (some w) e h = handed-IsSound c state payload w e h

match_state-IsSound :
    (c : VerificationChallenger) (payload : String) (state : Option String)
    → IsSound c
    → IsSound (match_state c payload state).0
unfolding match_state
match_state-IsSound c payload none h = h
match_state-IsSound c payload (some state) h =
    hand_over-IsSound c state payload (get c.pending state) refl h

module _ (json : ClaimsReading) where
  step-IsSound : (c : VerificationChallenger) (e : Event) → IsSound c → IsSound (step json c e)
  unfolding step intercept
  step-IsSound c (begin state) h = register-IsSound c state h
  step-IsSound c (cleanup state) h = unregister-IsSound c state h
  step-IsSound c (arrive payload) h =
      match_state-IsSound c payload (extract_verification_state json payload) h

  steps_from-IsSound :
      (c : VerificationChallenger) (es : List Event) → IsSound c → IsSound (steps json c es)
  unfolding steps
  steps_from-IsSound c [] h = h
  steps_from-IsSound c (e ∷ es) h = steps_from-IsSound (step json c e) es (step-IsSound c e h)

  -- After any interleaving of the beginnings and ends of challenges and of the SETs that arrive, no
  -- two states in flight share a channel, and the channel of a state in flight is empty, so that the
  -- send of a matching SET does not block.
  pub steps-IsSound : (es : List Event) → IsSound (steps json new_verification_challenger es)
  steps-IsSound es = steps_from-IsSound new_verification_challenger es new-IsSound

other_inbox :
    (c : VerificationChallenger) (w : ℕ) (payload : String) (v : ℕ)
    → v ≢ w
    → (send c w payload).inbox v ≡ c.inbox v
other_inbox c w payload v apart = elim (Bool-cases (eqb v w)) [
  | inl same ↦ absurd (apart (ground (arith, same)))
  | inr other ↦ rw other refl
]

-- How the wrapped Sink treats a payload: it takes one with a state in flight, the Sink below sees
-- nothing of it, the waiter has it, no other channel changes and the state is free again; every other one it passes on.
pub data Treatment (json : ClaimsReading) (S : Type 0) (downstream : Sink S)
    (c : VerificationChallenger) (s : S) (payload : String)
    (result : Option Error × VerificationChallenger × S) : Type 0 where
  claimed :
      (state : String) (w : ℕ)
      → extract_verification_state json payload ≡ some state
      → get c.pending state ≡ some w
      → result.0 ≡ none
      → result.2 ≡ s
      → result.1.inbox w ≡ some payload
      → ((v : ℕ) → v ≢ w → result.1.inbox v ≡ c.inbox v)
      → ((k : String) → get result.1.pending k ≡ (if state == k then none else get c.pending k))
      → Treatment json S downstream c s payload result
  forwarded :
      ((state : String)
        → extract_verification_state json payload ≡ some state
        → get c.pending state ≡ none)
      → result ≡ (let (answer, s') = downstream s payload in (answer, c, s'))
      → Treatment json S downstream c s payload result

module _ {S : Type 0} (json : ClaimsReading) (downstream : Sink S) where
  found-Treatment :
      (c : VerificationChallenger) (s : S) (payload state : String) (w : Option ℕ)
      → extract_verification_state json payload ≡ some state
      → get c.pending state ≡ w
      → Treatment json S downstream c s payload (
          let (c', taken) = hand_over c state payload w in
          let (answer, s') = downstream s payload in
          if taken then (none, c', s) else (answer, c', s'))
  unfolding hand_over
  found-Treatment c s payload state none x e =
      let same : (k : String) → extract_verification_state json payload ≡ some k → state ≡ k =
        λ k y. ground (arith, x, y) in
      forwarded (λ k y. subst (λ z. get c.pending z ≡ none) (same k y) e) refl
  found-Treatment c s payload state (some w) x e =
      claimed state w x e refl refl (ground arith) (other_inbox c w payload)
        (λ k. get-remove c.pending state k)

  read-Treatment :
      (c : VerificationChallenger) (s : S) (payload : String) (state : Option String)
      → extract_verification_state json payload ≡ state
      → Treatment json S downstream c s payload (
          let (c', taken) = match_state c payload state in
          let (answer, s') = downstream s payload in
          if taken then (none, c', s) else (answer, c', s'))
  unfolding match_state
  read-Treatment c s payload none x = forwarded (λ k y. ground (arith, x, y)) refl
  read-Treatment c s payload (some state) x =
      found-Treatment c s payload state (get c.pending state) x refl

  -- A SET whose state is in flight goes to the waiter of that state alone, once, and the Sink below
  -- does not see it; every other payload goes to the Sink below, whose answer is passed on, and
  -- leaves the table as it is.
  pub wrap_sink-Treatment :
      (c : VerificationChallenger) (s : S) (payload : String)
      → Treatment json S downstream c s payload (wrap_sink json (some downstream) (c, s) payload)
  unfolding wrap_sink intercept pass_on
  wrap_sink-Treatment c s payload =
      read-Treatment c s payload (extract_verification_state json payload) refl
