-- ===== src/Wallet/Amount.antt =====
-- The amounts of the wallet: cli/internal/wallet/wallet.go and fund.go. A decimal is kept as its
-- digits and their scale, and a `big.Rat` as a fraction that need not be in lowest terms.
pub mod Digits
pub mod Trim
pub mod Places
pub mod RoundUp
use canton_localnet.Base.Decimal.{is_digit, value_from, decimal}
use canton_localnet.Base.{
  ℕ, zero, suc, ◌+◌, ◌-◌, ◌*◌, ◌/◌, ◌%◌, ◌^◌, Bool, true, false, not, ◌&&◌, Text, lit, List, [],
  ◌∷◌, ◌++◌, Option, none, some, Result, ok, err, ◌>>◌, guard, ltb, leb, ◌==◌, is_empty, all_true,
  cut, trim_left_by, trim_right_by, length, if◌then◌else◌,
}

pub data AmountError : Type 0 where
  not_decimal too_precise not_positive : Text → AmountError

-- `[0-9]+`
unfoldable pub digits : Text → Bool
unfolding all_true
digits s = not (is_empty s) && all_true is_digit s

-- `whole, fraction, _ := strings.Cut(amount, ".")`, and whether there is a dot.
unfoldable pub cut_dot : Text → Option (Text × Text)
unfolding cut
cut_dot amount = cut amount (b'.' ∷ [])

abbrev pub fits : Option (Text × Text) → Text → Bool
unfolding digits
fits none amount = digits amount
fits (some (whole, fraction)) amount = digits whole && digits fraction

-- `positiveDecimal.MatchString`
unfoldable pub positive_decimal : Text → Bool
unfolding fits cut_dot
positive_decimal amount = fits (cut_dot amount) amount

abbrev pub parts : Option (Text × Text) → Text → Text × Text
parts none amount = (amount, [])
parts (some p) amount = p

-- `strings.Trim(s, "0")`
unfoldable pub trim_zeros : Text → Text
unfolding trim_left_by trim_right_by
trim_zeros s = trim_right_by (λ c. c == b'0') (trim_left_by (λ c. c == b'0') s)

-- `ValidateAmount`
unfoldable pub validate_amount : Text → Result AmountError (Unit {0})
unfolding positive_decimal cut_dot trim_zeros
validate_amount amount =
    let (whole, fraction) = parts (cut_dot amount) amount in
    guard (positive_decimal amount) (not_decimal amount)
    >> (guard (leb (length fraction) 10) (too_precise amount)
        >> guard (not (is_empty (trim_zeros (whole ++ fraction)))) (not_positive amount))

-- The number of the digits, and how many of them stand behind the dot.
pub record Decimal : Type 0 where
  pub units : ℕ
  pub scale : ℕ

-- `parseDecimal`
unfoldable pub parse_decimal : Text → Option Decimal
unfolding positive_decimal cut_dot value_from
parse_decimal text =
    let (whole, fraction) = parts (cut_dot text) text in
    if positive_decimal text
    then some (record { units = value_from 0 (whole ++ fraction); scale = length fraction })
    else none

-- `a.Cmp(b) >= 0`
unfoldable pub at_least : Decimal → Decimal → Bool
at_least a b = leb (b.units * 10 ^ a.scale) (a.units * 10 ^ b.scale)

abbrev pub divisor : ℕ
divisor = 10000000000

unfoldable pub zeros : ℕ → Text
zeros zero = []
zeros (suc n) = b'0' ∷ zeros n

unfoldable pub drop : ℕ → Text → Text
drop zero s = s
drop (suc n) [] = []
drop (suc n) (c ∷ cs) = drop n cs

-- `padded[len(padded)-fractionalDigits:]`
unfoldable pub padded : ℕ → Text
unfolding drop zeros decimal
padded fraction = let s = zeros 10 ++ decimal fraction in drop (length s - 10) s

-- The units of the tenth place that a fraction takes, rounded up.
unfoldable pub units_up : ℕ → ℕ → ℕ
units_up num den =
    let q = (num * divisor) / den in if ltb 0 ((num * divisor) % den) then q + 1 else q

unfoldable pub render_units : ℕ → Text
unfolding decimal padded trim_right_by
render_units units =
    trim_right_by (λ c. c == b'.')
      (trim_right_by (λ c. c == b'0')
        (decimal (units / divisor) ++ b'.' ∷ padded (units % divisor)))

-- `roundUpUSD` on `num / den`.
unfoldable pub round_up_usd : ℕ → ℕ → Text
unfolding units_up render_units
round_up_usd num den = render_units (units_up num den)
