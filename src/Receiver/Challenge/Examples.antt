-- ===== src/Receiver/Challenge/Examples.antt =====
-- receiver/verification.go: the theorems on a payload that carries the state "s".
use go_ssf.Prelude.{true, false, Option, none, some, List, [], ◌∷◌, String, ◌≡◌, refl}
use go_ssf.Prelude.Map.{get, put, remove}
use go_ssf.Errors.{Error, ok}
use go_ssf.Receiver.Challenge.{
  new_verification_challenger, register, unregister, ClaimsReading, Event, begin, cleanup, arrive,
  steps, step, match_state, hand_over, event_type_verification, extract_verification_state,
  intercept, wrap_sink,
}
use go_ssf.Receiver.Challenge.Table.{IsSound, steps-IsSound, Treatment, wrap_sink-Treatment}
use go_ssf.Receiver.Challenge.Answer.{Arrived}
use go_ssf.Receiver.Challenge.Call.{
  ChallengeWorld, on_answer, with_endpoint, with_state, no_options, resolve_options,
  apply_challenge_option, chosen_state, challenge, challenge_with, with_chosen, after_register,
  after_post, wait, post_challenge, build_verification_url, by_reply,
}
use go_ssf.Receiver.Challenge.Matched.{challenge-Arrived}
use go_ssf.Receiver.Challenge.Reuse.{cleanup_takes_other_slot}

-- A reader for which every payload carries its own text as the state.
abbrev json : ClaimsReading
json = record {
  events = λ payload. some ((event_type_verification, payload) ∷ []);
  event_state = λ raw. some raw;
}

abbrev one_challenge : List Event
one_challenge = begin "s" ∷ arrive "s" ∷ cleanup "s" ∷ []

steps-IsSound_example : IsSound (steps json new_verification_challenger one_challenge)
steps-IsSound_example = steps-IsSound json one_challenge

abbrev below : List String → String → Option Error × List String
below seen payload = (none, payload ∷ seen)

wrap_sink-Treatment_example :
    let c = (register new_verification_challenger "s").0 in
    Treatment json (List String) below c [] "s" (wrap_sink json (some below) (c, []) "s")
wrap_sink-Treatment_example =
    wrap_sink-Treatment json below (register new_verification_challenger "s").0 [] "s"

cleanup_takes_other_slot_example :
    let freed = steps json new_verification_challenger (begin "s" ∷ arrive "s" ∷ []) in
    let (again, answer) = register freed "s" in
    (answer ≡ ok freed.fresh)
    × ((intercept json again "s").1 ≡ true)
    × ((intercept json (unregister again "s") "s").1 ≡ false)
unfolding extract_verification_state new_verification_challenger get
cleanup_takes_other_slot_example =
    cleanup_takes_other_slot json new_verification_challenger "s" "s" refl refl

-- A call with the state "s", whose SET arrives while another challenge begins.
abbrev answering : ChallengeWorld
answering = record {
  generate = ok "generated";
  with_query = λ endpoint id. ok endpoint;
  encode_err = λ state. none;
  build_err = λ target. none;
  reply = λ r. ok 200;
  events = begin "other" ∷ arrive "s" ∷ [];
  wake = on_answer;
}

challenge-Arrived_example :
    (state : String) × (chosen_state answering (
        resolve_options no_options
          (with_endpoint "https://tr.example/verify" ∷ with_state "s" ∷ []))
      ≡ ok state)
    × Arrived json state "s" answering.events
unfolding steps step new_verification_challenger challenge challenge_with with_chosen after_register
    after_post wait post_challenge build_verification_url by_reply resolve_options
    apply_challenge_option chosen_state register unregister get put remove intercept match_state
    hand_over extract_verification_state
challenge-Arrived_example =
    challenge-Arrived json answering new_verification_challenger
      (with_endpoint "https://tr.example/verify" ∷ with_state "s" ∷ []) "s" (steps-IsSound json [])
      refl
