-- ===== src/Wallet.antt =====
-- Retrying a wallet call: cli/internal/wallet/retry.go. A `time.Duration` is its 64 bits, as a
-- number below 2 ^ 64. Reading an answer is left out.
pub mod Budget
pub mod Amount
pub mod Client
pub mod Fund
use canton_localnet.Base.{
  ℕ, zero, suc, ◌+◌, ◌*◌, ◌%◌, ◌^◌, min, Bool, true, false, not, ◌&&◌, ◌||◌, Option, none, some,
  ltb, ◌==◌, if◌then◌else◌,
}

abbrev pub two_64 : ℕ
two_64 = 18446744073709551616

abbrev pub two_63 : ℕ
two_63 = 9223372036854775808

-- Nanoseconds.
abbrev pub default_budget : ℕ
default_budget = 60000000000

abbrev pub initial_backoff : ℕ
initial_backoff = 1000000000

abbrev pub max_backoff : ℕ
max_backoff = 8000000000

-- `a + b`, which wraps around.
unfoldable pub add_64 : ℕ → ℕ → ℕ
add_64 a b = (a + b) % two_64

-- `a > b` on signed numbers.
unfoldable pub greater_64 : ℕ → ℕ → Bool
greater_64 a b = ltb ((b + two_63) % two_64) ((a + two_63) % two_64)

-- The errors of a call that the loop tells apart.
pub data CallError : Type 0 where
  refused other_error : CallError

-- `answer` without its body, and the error beside it.
pub record Answer : Type 0 where
  pub status : ℕ
  pub retry_after : ℕ
  pub call_error : Option CallError

unfoldable pub is_refused : CallError → Bool
is_refused refused = true
is_refused other_error = false

unfoldable pub transient_answer : ℕ → Option CallError → Bool
unfolding is_refused
transient_answer status (some e) = is_refused e
transient_answer status none = status == 429 || status == 502 || status == 503 || status == 504

unfoldable pub request_never_processed : ℕ → Option CallError → Bool
unfolding is_refused
request_never_processed status (some e) = is_refused e
request_never_processed status none = status == 429

-- How a run ends: with the last answer, or with the error of the sleep that a cancelled context
-- cut short.
pub data Ending : Type 0 where
  answered interrupted : Answer → Ending

unfoldable pub delay_of : Answer → ℕ → ℕ
unfolding greater_64
delay_of got backoff = if greater_64 got.retry_after 0 then got.retry_after else backoff

-- `min(backoff*backoffMultiple, maxBackoff)`
unfoldable pub next_backoff : ℕ → ℕ
next_backoff backoff = if ltb max_backoff (backoff * 2) then max_backoff else backoff * 2

-- `r.Budget`, with its default.
unfoldable pub budget_of : ℕ → ℕ
budget_of budget = if budget == 0 then default_budget else budget

-- One call, the sleep and the turns after it: `send` gives the answer to each call by its number,
-- and `cut_short` says whether the sleep behind it fails.
module _ (retryable : ℕ → Option CallError → Bool) (send : ℕ → Answer) (cut_short : ℕ → Bool)
    (budget : ℕ) where
  unfoldable pub turns : ℕ → ℕ → ℕ → ℕ → Option (Ending × ℕ)
  unfolding delay_of add_64 greater_64 next_backoff
  turns zero n waited backoff = none
  turns (suc fuel) n waited backoff =
      let got = send n in
      let later = add_64 waited (delay_of got backoff) in
      let next = turns fuel (suc n) later (next_backoff backoff) in
      if not (retryable got.status got.call_error)
      then some (answered got, waited)
      else if greater_64 later budget
      then some (answered got, waited)
      else if cut_short n
      then some (interrupted got, waited)
      else next

-- `run`, with the time waited at its end.
unfoldable pub run :
    (ℕ → Option CallError → Bool) → (ℕ → Answer) → (ℕ → Bool) → ℕ → ℕ → Option (Ending × ℕ)
unfolding turns budget_of
run retryable send cut_short budget fuel =
    turns retryable send cut_short (budget_of budget) fuel 0 0 initial_backoff
