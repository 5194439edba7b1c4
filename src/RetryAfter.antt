-- ===== src/RetryAfter.antt =====
-- The Retry-After header, which transmitter/pushdriver.go and receiver/poller.go parse alike but for
-- the trimming of spaces. What the standard library reads in a text is a parameter.
use go_ssf.Prelude.{Option, none, some, String, ◌==◌, if◌then◌else◌}
use go_ssf.Prelude.Int64.{Int64, to_int64, slt, sle, smul}

-- `strings.TrimSpace`, `strconv.Atoi`, and `http.ParseTime` followed by a subtraction of the
-- present time; `none` for an error. The numbers are taken as int64 patterns.
pub record HeaderReading : Type 0 where
  pub trim : String → String
  pub atoi : String → Option Int64
  pub until : String → Option Int64

-- `time.Duration(secs) * time.Second`
abbrev pub seconds : Int64 → Int64
seconds n = smul n 1000000000

from_date : Option Int64 → Int64
from_date none = 0
from_date (some raw) = let delta = to_int64 raw in if sle delta 0 then 0 else delta

from_number : Option Int64 → Int64 → Int64
from_number none other = other
from_number (some raw) other = let secs = to_int64 raw in if sle secs 0 then 0 else seconds secs

-- `PushDriver.parseRetryAfter`
unfoldable pub push_retry_after : HeaderReading → String → Int64
unfolding from_date from_number
push_retry_after std header =
    let value = std.trim header in
    if value == "" then 0 else from_number (std.atoi value) (from_date (std.until value))

poll_date : Option Int64 → Int64
poll_date none = 0
poll_date (some raw) = let delta = to_int64 raw in if slt delta 0 then 0 else delta

poll_number : Option Int64 → Int64 → Int64
poll_number none other = other
poll_number (some raw) other = let secs = to_int64 raw in if slt secs 0 then 0 else seconds secs

-- `parseRetryAfter` of the poller
unfoldable pub poll_retry_after : HeaderReading → String → Int64
unfolding poll_date poll_number
poll_retry_after std header =
    if header == "" then 0 else poll_number (std.atoi header) (poll_date (std.until header))
