-- ===== src/Health.antt =====
-- Polling a readiness endpoint: cli/internal/health/health.go. Times and durations are nanoseconds.
-- The client, the texts of the log and the per-request deadline are left out.
pub mod Wait
pub mod Psql
pub mod Watermark
use canton_localnet.Base.{
  ℕ, ℤ, pos, negsuc, zero, suc, ◌+◌, Bool, true, false, Text, lit, Option, none, some, ltb, ◌==◌,
  is_empty, if◌then◌else◌,
}

pub record Options : Type 0 where
  pub url : Text
  pub timeout : ℤ
  pub poll_interval : ℤ

-- What `ctx.Err()` gives.
pub data Context : Type 0 where
  alive deadline_exceeded cancelled : Context

-- What `probe` gives: a status, or the text of an error.
pub data Probe : Type 0 where
  status : ℕ → Probe
  failure : Text → Probe

-- What one turn of the loop meets: the probe, the error of `Abort` if it is set and fails, the clock
-- and the context behind it, and the context if it is what ends the `select`.
pub record Attempt : Type 0 where
  pub probe : Probe
  pub abort : Option Text
  pub now : ℕ
  pub context : Context
  pub interrupt : Option Context

-- What `formatTimeout` tells beside the URL.
pub data Report : Type 0 where
  last_status : ℕ → Report
  last_error : Text → Report
  nothing_seen : Report

pub data Ending : Type 0 where
  ready : ℕ → Ending
  aborted : Text → Ending
  context_ended : Ending
  timed_out : Text → Report → Ending

unfoldable pub format_timeout : ℕ → Option Text → Report
format_timeout (suc n) last_err = last_status (suc n)
format_timeout zero (some e) = last_error e
format_timeout zero none = nothing_seen

-- The closure `timedOut`.
unfoldable pub time_out : Text → Context → ℕ → Option Text → Ending
unfolding format_timeout
time_out url cancelled status_seen err_seen = context_ended
time_out url alive status_seen err_seen = timed_out url (format_timeout status_seen err_seen)
time_out url deadline_exceeded status_seen err_seen =
    timed_out url (format_timeout status_seen err_seen)

abbrev pub is_ready : Probe → Bool
is_ready (status n) = n == 200
is_ready (failure e) = false

abbrev pub status_after : Probe → ℕ → ℕ
status_after (status n) seen = n
status_after (failure e) seen = seen

abbrev pub err_after : Probe → Option Text → Option Text
err_after (status n) seen = seen
err_after (failure e) seen = some e

-- A duration that is not above 0 is the default.
unfoldable pub or_default : ℕ → ℤ → ℕ
or_default d (negsuc n) = d
or_default d (pos zero) = d
or_default d (pos (suc n)) = suc n

unfoldable pub timeout_of : Options → ℕ
unfolding or_default
timeout_of opts = or_default 300000000000 opts.timeout

unfoldable pub poll_of : Options → ℕ
unfolding or_default
poll_of opts = or_default 5000000000 opts.poll_interval

unfoldable pub url_of : Options → Text
unfolding lit
url_of opts = if is_empty opts.url then lit "http://localhost:11975/readyz" else opts.url

module _ (url : Text) (poll deadline : ℕ) (attempts : ℕ → Attempt) where
  -- The loop from its turn `n`; the first one counts as 0.
  unfoldable pub turns : ℕ → ℕ → ℕ → Option Text → Option Ending
  unfolding time_out
  turns zero n seen err_seen = none
  turns (suc fuel) n seen err_seen =
      let a = attempts n in
      let seen' = status_after a.probe seen in
      let err_seen' = err_after a.probe err_seen in
      let later = turns fuel (suc n) seen' err_seen' in
      if is_ready a.probe then some (ready n) else elim a.abort [
        | some e ↦ some (aborted e)
        | none ↦
            if ltb deadline (a.now + poll)
            then some (time_out url a.context seen' err_seen')
            else elim a.interrupt [ some c ↦ some (time_out url c seen' err_seen') | none ↦ later ]
      ]

-- `WaitReady` from the time `start`.
unfoldable pub wait_ready : Options → ℕ → (ℕ → Attempt) → ℕ → Option Ending
unfolding url_of poll_of timeout_of turns
wait_ready opts start attempts fuel =
    turns (url_of opts) (poll_of opts) (start + timeout_of opts) attempts fuel 0 0 none
