-- ===== src/Receiver/Challenge/Answer.antt =====
-- receiver/verification.go: how a channel of the table gets its payload, whatever other calls do meanwhile.
use go_ssf.Prelude.{
  ℕ, ◌<◌, true, false, Option, none, some, List, [], ◌∷◌, String, eqb, ◌≡◌, refl, sym, ap, ◌∙◌,
  arith, ◌⊎◌, inl, inr, ◌==◌, eq_iff, Bool-cases,
}
use go_ssf.Prelude.Map.{get, remove, has}
use go_ssf.Receiver.Challenge.{
  VerificationChallenger, register, unregister, ClaimsReading, Event, begin, cleanup, arrive, step,
  steps, extract_verification_state, send, hand_over, match_state, intercept,
}
use go_ssf.Receiver.Challenge.Table.{in_removed, in_put}

-- The channel is not one to be made, and only a state that `owns` holds has it.
abbrev pub IsOwned : VerificationChallenger → ℕ → (String → Type 0) → Type 0
IsOwned c w owns = (w < c.fresh) × ((k : String) → get c.pending k ≡ some w → owns k)

-- What the arrival of a payload does: nothing, or it is sent to the channel of its state.
abbrev pub ArrivalCase :
    ClaimsReading → VerificationChallenger → String → VerificationChallenger → Type 0
ArrivalCase json c payload after =
    (after ≡ c)
    ⊎ ((state : String) × (v : ℕ) × (extract_verification_state json payload ≡ some state)
        × (get c.pending state ≡ some v)
        × (after ≡ send (record c { pending = remove c.pending state }) v payload))

handed_case :
    (json : ClaimsReading) (c : VerificationChallenger) (payload state : String) (o : Option ℕ)
    → extract_verification_state json payload ≡ some state
    → get c.pending state ≡ o
    → ArrivalCase json c payload (hand_over c state payload o).0
unfolding hand_over
handed_case json c payload state none e f = inl refl
handed_case json c payload state (some v) e f = inr (state, v, e, f, refl)

matched_case :
    (json : ClaimsReading) (c : VerificationChallenger) (payload : String) (o : Option String)
    → extract_verification_state json payload ≡ o
    → ArrivalCase json c payload (match_state c payload o).0
unfolding match_state
matched_case json c payload none e = inl refl
matched_case json c payload (some state) e =
    handed_case json c payload state (get c.pending state) e refl

arrival_case :
    (json : ClaimsReading) (c : VerificationChallenger) (payload : String)
    → ArrivalCase json c payload (intercept json c payload).0
unfolding intercept
arrival_case json c payload =
    matched_case json c payload (extract_verification_state json payload) refl

begun-IsOwned :
    (c : VerificationChallenger) (state : String) (w : ℕ) (owns : String → Type 0)
    → IsOwned c w owns
    → IsOwned (register c state).0 w owns × ((register c state).0.inbox w ≡ c.inbox w)
unfolding register
begun-IsOwned c state w owns (made, only) = elim (Bool-cases (has c.pending state)) [
  | inl there ↦ rw there ((made, only), refl)
  | inr free ↦ rw free (
    (
      omega (arith, made),
      λ k e. elim (in_put c.pending state k c.fresh w e) [
        | inl new ↦ absurd (omega (arith, new.1, made))
        | inr old ↦ only k old
      ],
    ),
    refl,
  )
]

cleaned-IsOwned :
    (c : VerificationChallenger) (state : String) (w : ℕ) (owns : String → Type 0)
    → IsOwned c w owns
    → IsOwned (unregister c state) w owns × ((unregister c state).inbox w ≡ c.inbox w)
unfolding unregister
cleaned-IsOwned c state w owns (made, only) =
    ((made, λ k e. only k (in_removed c.pending state k w e).0), refl)

-- After a payload was sent to a channel, the other channels hold what they held.
sent_elsewhere :
    (c : VerificationChallenger) (state payload : String) (v w : ℕ) (owns : String → Type 0)
    → eqb w v ≡ false
    → IsOwned c w owns
    → IsOwned (send (record c { pending = remove c.pending state }) v payload) w owns
      × ((send (record c { pending = remove c.pending state }) v payload).inbox w ≡ c.inbox w)
sent_elsewhere c state payload v w owns apart (made, only) =
    ((made, λ k e. only k (in_removed c.pending state k w e).0), rw apart refl)

other_key :
    (c : VerificationChallenger) (s k : String) (w : ℕ) (state : String)
    → s ≡ state
    → k ≡ state
    → (s == k) ≡ false
    → ⊥
other_key c s k w state own too apart =
    let same : (s == k) ≡ true = (eq_iff s k).1 (own ∙ sym too) in
    absurd (ground (arith, same, apart))

module _ (json : ClaimsReading) where
  arrived_to :
      (es : List Event) (c after : VerificationChallenger) (payload : String) (w : ℕ)
      → (intercept json c payload).0 ≡ after
      → (steps json c (arrive payload ∷ es)).inbox w ≡ (steps json after es).inbox w
  unfolding steps step
  arrived_to es c after payload w e = ap (λ d. (steps json d es).inbox w) e

  -- A channel that no state has keeps what it holds.
  settled :
      (es : List Event) (c : VerificationChallenger) (w : ℕ)
      → IsOwned c w (λ k. ⊥)
      → (steps json c es).inbox w ≡ c.inbox w
  unfolding steps step
  settled [] c w h = refl
  settled (begin state ∷ es) c w h =
      let kept = begun-IsOwned c state w (λ k. ⊥) h in
      settled es (register c state).0 w kept.0 ∙ kept.1
  settled (cleanup state ∷ es) c w h =
      let kept = cleaned-IsOwned c state w (λ k. ⊥) h in
      settled es (unregister c state) w kept.0 ∙ kept.1
  settled (arrive payload ∷ es) c w h = elim (arrival_case json c payload) [
    | inl same ↦ arrived_to es c c payload w same ∙ settled es c w h
    | inr sent ↦
        let (state, v, reads, found, after) = sent in
        elim (Bool-cases (eqb w v)) [
          | inl hit ↦
              let here : v ≡ w = ground (arith, hit) in
              absurd (h.1 state (found ∙ ap (λ n. some n) here))
          | inr miss ↦
              let kept = sent_elsewhere c state payload v w (λ k. ⊥) miss h in
              let next = send (record c { pending = remove c.pending state }) v payload in
              arrived_to es c next payload w after ∙ (settled es next w kept.0 ∙ kept.1)
        ]
  ]

  -- A payload with a state arrives among some events.
  abbrev pub Arrived : String → String → List Event → Type 0
  Arrived state payload [] = ⊥
  Arrived state payload (begin s ∷ es) = Arrived state payload es
  Arrived state payload (cleanup s ∷ es) = Arrived state payload es
  Arrived state payload (arrive q ∷ es) =
      ((q ≡ payload) × (extract_verification_state json q ≡ some state)) ⊎ Arrived state payload es

  pub answered :
      (es : List Event) (c : VerificationChallenger) (w : ℕ) (state payload : String)
      → IsOwned c w (λ k. k ≡ state)
      → c.inbox w ≡ none
      → (steps json c es).inbox w ≡ some payload
      → Arrived state payload es
  unfolding steps step
  answered [] c w state payload h empty got = absurd (ground (arith, empty, got))
  answered (begin s ∷ es) c w state payload h empty got =
      let kept = begun-IsOwned c s w (λ k. k ≡ state) h in
      answered es (register c s).0 w state payload kept.0 (kept.1 ∙ empty) got
  answered (cleanup s ∷ es) c w state payload h empty got =
      let kept = cleaned-IsOwned c s w (λ k. k ≡ state) h in
      answered es (unregister c s) w state payload kept.0 (kept.1 ∙ empty) got
  answered (arrive q ∷ es) c w state payload h empty got = elim (arrival_case json c q) [
    | inl same ↦
        inr (answered es c w state payload h empty (sym (arrived_to es c c q w same) ∙ got))
    | inr sent ↦
        let (s, v, reads, found, after) = sent in
        let next = send (record c { pending = remove c.pending s }) v q in
        elim (Bool-cases (eqb w v)) [
          | inl hit ↦
              let here : v ≡ w = ground (arith, hit) in
              let own : s ≡ state = h.1 s (found ∙ ap (λ n. some n) here) in
              let freed : IsOwned next w (λ k. ⊥) = (
                h.0,
                λ k e.
                    other_key c s k w state own (h.1 k (in_removed c.pending s k w e).0)
                      (in_removed c.pending s k w e).1,
              ) in
              let held : next.inbox w ≡ some q = rw hit refl in
              let last =
                sym held
                ∙ (sym (settled es next w freed) ∙ (sym (arrived_to es c next q w after) ∙ got)) in
              inl (ground (arith, last), reads ∙ ap (λ t. some t) own)
          | inr miss ↦
              let kept = sent_elsewhere c s q v w (λ k. k ≡ state) miss h in
              inr (
                answered es next w state payload kept.0 (kept.1 ∙ empty)
                  (sym (arrived_to es c next q w after) ∙ got))
        ]
  ]
