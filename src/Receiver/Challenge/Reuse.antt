-- ===== src/Receiver/Challenge/Reuse.antt =====
-- receiver/verification.go: a state that is used again while the challenge that had it cleans up.
use go_ssf.Prelude.{ℕ, ◌+◌, true, false, none, some, [], ◌∷◌, String, ◌≡◌, refl, ap, eq_refl, ◌∙◌}
use go_ssf.Prelude.Map.{get, put, remove, get-put, get-remove}
use go_ssf.Errors.{ok}
use go_ssf.Receiver.Challenge.{
  VerificationChallenger, register, unregister, ClaimsReading, begin, arrive, steps, step,
  extract_verification_state, intercept, match_state, hand_over, send,
}

module _ (json : ClaimsReading) (c : VerificationChallenger) (state payload : String)
    (reads : extract_verification_state json payload ≡ some state) where
  intercepted :
      (d : VerificationChallenger) (w : ℕ)
      → get d.pending state ≡ some w
      → intercept json d payload
        ≡ (send (record d { pending = remove d.pending state }) w payload, true)
  unfolding intercept
  intercepted d w e = rw (reads, match_state) (rw (e, hand_over))

  ignored :
      (d : VerificationChallenger)
      → get d.pending state ≡ none
      → (intercept json d payload).1 ≡ false
  unfolding intercept
  ignored d e = rw (reads, match_state) (rw (e, hand_over))

  registered :
      (d : VerificationChallenger)
      → get d.pending state ≡ none
      → register d state
        ≡ (record d { pending = put d.pending state d.fresh; fresh = d.fresh + 1 }, ok d.fresh)
  unfolding register
  registered d e = rw e

  taken_again :
      (d : VerificationChallenger)
      → get d.pending state ≡ none
      → let (again, answer) = register d state in
        (answer ≡ ok d.fresh)
        × ((intercept json again payload).1 ≡ true)
        × ((intercept json (unregister again state) payload).1 ≡ false)
  unfolding unregister
  taken_again d free = rw (registered d free) (
    refl,
    rw (
        intercepted (record d { pending = put d.pending state d.fresh; fresh = d.fresh + 1 })
          d.fresh (simp (get-put, eq_refl))),
    ignored (record d { pending = remove (put d.pending state d.fresh) state; fresh = d.fresh + 1 })
        (simp (get-remove, eq_refl)),
  )

  freed_pending :
      get c.pending state ≡ none
      → get (steps json c (begin state ∷ arrive payload ∷ [])).pending state ≡ none
  unfolding steps step
  freed_pending free =
      let begun : VerificationChallenger = record c {
        pending = put c.pending state c.fresh;
        fresh = c.fresh + 1;
      } in
      ap (λ r. get (intercept json r.0 payload).0.pending state) (registered c free)
      ∙ ap (λ i. get i.0.pending state) (intercepted begun c.fresh (simp (get-put, eq_refl)))
      ∙ simp (get-remove, eq_refl)

  -- If a matching SET has freed a state whose first challenge has not cleaned up yet, a second
  -- challenge may register that state, and would get the next matching SET; but the cleanup of the
  -- first one removes the second one's entry, after which that SET is no longer intercepted.
  pub cleanup_takes_other_slot :
      get c.pending state ≡ none
      → let freed = steps json c (begin state ∷ arrive payload ∷ []) in
        let (again, answer) = register freed state in
        (answer ≡ ok freed.fresh)
        × ((intercept json again payload).1 ≡ true)
        × ((intercept json (unregister again state) payload).1 ≡ false)
  cleanup_takes_other_slot free =
      taken_again (steps json c (begin state ∷ arrive payload ∷ [])) (freed_pending free)
