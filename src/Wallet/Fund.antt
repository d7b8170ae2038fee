-- ===== src/Wallet/Fund.antt =====
-- `TapAtLeast`: cli/internal/wallet/fund.go.
pub mod Taps
pub mod Cover
use canton_localnet.Base.{
  ℕ, zero, suc, ◌+◌, ◌-◌, ◌*◌, ◌^◌, Bool, true, false, Text, List, [], ◌∷◌, Option, none, some,
  Result, ok, err, if◌then◌else◌,
}
use canton_localnet.Wallet.Amount.{Decimal, validate_amount, parse_decimal, at_least, round_up_usd}
use canton_localnet.Wallet.Client.{
  Request, Run, Service, WalletError, still_below, after, done, ◌>>=◌, wrapped, tap, balance,
  amulet_price,
}

-- `maxFundingTaps`
abbrev pub max_funding_taps : ℕ
max_funding_taps = 3

-- What `parseDecimal` gives where its error is dropped, on a text that it has accepted before.
abbrev pub decimal_or_zero : Option Decimal → Decimal
decimal_or_zero none = record { units = 0; scale = 0 }
decimal_or_zero (some d) = d

-- `(target - held) * price` as a fraction, where `held` is below `target`.
unfoldable pub gap_num : Decimal → Decimal → Decimal → ℕ
gap_num target held price =
    (target.units * 10 ^ held.scale - held.units * 10 ^ target.scale) * price.units

unfoldable pub gap_den : Decimal → Decimal → Decimal → ℕ
gap_den target held price = 10 ^ target.scale * 10 ^ held.scale * 10 ^ price.scale

unfoldable pub tap_amount : Decimal → Decimal → Text → Text
unfolding parse_decimal round_up_usd gap_num gap_den
tap_amount target held price_text =
    let price = decimal_or_zero (parse_decimal price_text) in
    round_up_usd (gap_num target held price) (gap_den target held price)

-- A price, a tap, and the balance after it.
unfoldable pub tap_once : Service → Decimal → Decimal → Run Text
unfolding amulet_price tap_amount tap balance
tap_once s target held = do
  price ← (λ t. amulet_price s (s.clock t) t)
  contract ← tap s (tap_amount target held price)
  balance s

-- The loop, by the number of taps that are left.
unfoldable pub fund : Service → Decimal → ℕ → Text → Run Text
unfolding at_least parse_decimal tap_once
fund s target zero held = done (
    if at_least (decimal_or_zero (parse_decimal held)) target
    then ok held
    else err (still_below held))
fund s target (suc left) held =
    if at_least (decimal_or_zero (parse_decimal held)) target
    then done (ok held)
    else (tap_once s target (decimal_or_zero (parse_decimal held)) >>= fund s target left)

-- `TapAtLeast`, with the requests that it makes.
unfoldable pub tap_at_least : Service → Text → Result WalletError Text × List Request
unfolding validate_amount parse_decimal balance fund
tap_at_least s target =
    (done (wrapped (validate_amount target)) >>= λ u.
    balance s >>= λ held. fund s (decimal_or_zero (parse_decimal target)) max_funding_taps held)
      []
