-- ===== src/Receiver/Challenge/Timeout.antt =====
-- receiver/verification.go: how long `Challenge` waits.
use go_ssf.Prelude.{◌<◌, min, none, some, ◌≡◌, arith, if◌then◌else◌}
use go_ssf.Prelude.Int64.{Int64, modulus, sign_bit, slt, sle}
use go_ssf.Receiver.Challenge.{
  default_challenge_timeout, resolve_timeout, by_deadline, choose_timeout,
}

-- The wait is the shorter of the option's timeout and of the time that the context leaves, of those
-- that are positive; without either it is the default, and with a deadline that is past it is the
-- shortest wait there is. It is always a positive duration.
resolve_timeout_lem :
    (opt left : Int64)
    → opt < modulus
    → left < modulus
    → (resolve_timeout opt none ≡ (if slt 0 opt then opt else default_challenge_timeout))
      × (resolve_timeout opt (some left)
          ≡ (if sle left 0 then 1 else if slt 0 opt then min opt left else left))
      × (0 < resolve_timeout opt none)
      × (resolve_timeout opt none < sign_bit)
      × (0 < resolve_timeout opt (some left))
      × (resolve_timeout opt (some left) < sign_bit)
unfolding resolve_timeout by_deadline choose_timeout
resolve_timeout_lem opt left o l =
    (ground arith, ground arith, ground arith, ground arith, ground arith, ground arith)
