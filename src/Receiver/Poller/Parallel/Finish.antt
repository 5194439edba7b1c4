-- ===== src/Receiver/Poller/Parallel/Finish.antt =====
-- receiver/poller.go: the workers of a batch do not block one another.
use go_ssf.Receiver.Sink.{Sink}
use go_ssf.Prelude.{
  ℕ, zero, suc, ◌+◌, ◌*◌, ◌<◌, ◌≤◌, true, List, [], ◌∷◌, String, ◌≡◌, refl, ◌⊎◌, inl, inr, ap,
  arith, ltb,
}
use go_ssf.Prelude.Lists.{length, length-append}
use go_ssf.Errors.{Result}
use go_ssf.Receiver.Rounds.{PollerConfig}
use go_ssf.Receiver.Poller.Parallel.{
  Pool, Move, take_next, deliver, record_answer, step, run_pool, IsDone, taken, delivered, recorded,
  start_pool, Entry,
}

List-cases : {A : Type 0} (xs : List A) → (xs ≡ []) ⊎ ((x : A) × (ys : List A) × (xs ≡ x ∷ ys))
List-cases [] = inl refl
List-cases (x ∷ xs) = inr (x, xs, refl)

module _ {S : Type 0} (verify : String → Result String) (deliver_set : Sink S)
    (config : PollerConfig) (workers : ℕ) where
  -- The moves that are left: three for an entry in the channel, two for one at a worker, one for an answer.
  abbrev pub moves_left : Pool S → ℕ
  moves_left p = 3 * length p.queue + (2 * length p.held + length p.answered)

  advance :
      (p : Pool S)
      → 0 < workers
      → IsDone verify deliver_set config p
        ⊎ ((m : Move) × (moves_left (step verify deliver_set config workers p m) < moves_left p))
  unfolding step taken delivered recorded
  advance p h = elim (List-cases p.answered) [
    | inr (a, others, e) ↦ inr (record_answer 0, rw e (omega (arith, ap (length {0}) e)))
    | inl none_answered ↦ elim (List-cases p.held) [
      | inr (x, others, e) ↦ inr (deliver 0, rw e (omega (arith, ap (length {0}) e)))
      | inl none_held ↦ elim (List-cases p.queue) [
        | inr (x, rest, e) ↦ inr (
          take_next,
          let free : ltb (length p.held + length p.answered) workers ≡ true =
                ground (arith, ap (length {0}) none_held, ap (length {0}) none_answered) in
              rw (free, e) (omega (arith, ap (length {0}) e, length-append p.held (x ∷ []))),
        )
        | inl none_queued ↦ inl (none_queued, none_held, none_answered)
      ]
    ]
  ]

  finishes :
      (n : ℕ) (p : Pool S)
      → 0 < workers
      → moves_left p < n
      → (ms : List Move) × IsDone verify deliver_set config
          (run_pool verify deliver_set config workers p ms)
        × (length ms ≤ moves_left p)
  unfolding run_pool
  finishes zero p h lt = elim lt [ ]
  finishes (suc n) p h lt = elim (advance p h) [
    | inl done ↦ ([], done, omega arith)
    | inr (m, less) ↦
        let (ms, done, few) =
          finishes n (step verify deliver_set config workers p m) h (omega arith) in
        (m ∷ ms, done, omega arith)
  ]

  -- No schedule gets the workers of a batch stuck: whatever they have done so far, there are moves after
  -- which the channel is empty and nothing is in hand, at most three for each entry still in the channel, two
  -- for each that a worker holds and one for each answer.
  pub parallel_finishes :
      (entries : List Entry) (s : S) (ms : List Move)
      → 0 < workers
      → let p =
          run_pool verify deliver_set config workers
            (start_pool verify deliver_set config entries s)
            ms in
        (more : List Move) × IsDone verify deliver_set config
          (run_pool verify deliver_set config workers p more)
        × (length more ≤ moves_left p)
  parallel_finishes entries s ms h =
      let p =
        run_pool verify deliver_set config workers (start_pool verify deliver_set config entries s)
          ms in
      finishes (suc (moves_left p)) p h (omega arith)
