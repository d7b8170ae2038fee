-- ===== src/Wallet/Fund/Cover.antt =====
-- The amount of a tap in `TapAtLeast`: cli/internal/wallet/fund.go.
use native.Mathlib.Nat.{one-le-pow, mul-le-mul}
use canton_localnet.Base.{
  ◌≡◌, ℕ, ◌+◌, ◌-◌, ◌*◌, ◌^◌, ◌≤◌, ◌<◌, false, Text, some, ok, arith, subst, leb,
}
use canton_localnet.Wallet.Amount.{Decimal, validate_amount, parse_decimal, at_least, divisor}
use canton_localnet.Wallet.Amount.RoundUp.{round_up_usd_lem}
use canton_localnet.Wallet.Fund.{gap_num, gap_den, tap_amount}

positive : (a b : ℕ) → 0 < a → 0 < b → 0 < a * b
positive a b h k = let m : 1 * 1 ≤ a * b = mul-le-mul h k in omega (arith, m)

above : (a b : ℕ) → leb a b ≡ false → b < a
above a b h = ground arith

filled : (a b p s x : ℕ) → b < a → (a - b) * p * s ≤ x → a * p * s ≤ b * p * s + x
filled a b p s x h k =
    let e : (a - b) + b ≡ a = omega (arith, h) in
    let f : ((a - b) + b) * p * s ≡ (a - b) * p * s + b * p * s = grind arith in
    let g : a * p * s ≡ (a - b) * p * s + b * p * s =
      subst (λ y. y * p * s ≡ (a - b) * p * s + b * p * s) e f in
    omega (arith, g, k)

-- While the balance is below the target and the price is above 0, `Tap` accepts the amount that is
-- tapped. The balance at that price with the amount added is at least the target at that price, and
-- the amount is above the gap between the two by less than one unit of the tenth decimal place.
pub tap_amount-covers :
    (target held price : Decimal) (price_text : Text)
    → parse_decimal price_text ≡ some price
    → 0 < price.units
    → at_least held target ≡ false
    → (d : Decimal) × (validate_amount (tap_amount target held price_text) ≡ ok tt)
      × (parse_decimal (tap_amount target held price_text) ≡ some d)
      × (target.units * 10 ^ held.scale * price.units * 10 ^ d.scale
          ≤ held.units * 10 ^ target.scale * price.units * 10 ^ d.scale
            + d.units * (10 ^ target.scale * 10 ^ held.scale * 10 ^ price.scale))
      × (d.units * gap_den target held price * divisor
          < (gap_num target held price * divisor + gap_den target held price) * 10 ^ d.scale)
unfolding tap_amount gap_num gap_den at_least
tap_amount-covers target held price price_text e h b =
    let a : held.units * 10 ^ target.scale < target.units * 10 ^ held.scale = above _ _ b in
    let (d, v, q, low, high) =
      round_up_usd_lem (gap_num target held price) (gap_den target held price)
        (positive _ price.units (omega (arith, a)) h)
        (positive (10 ^ target.scale * 10 ^ held.scale) (10 ^ price.scale)
          (positive (10 ^ target.scale) (10 ^ held.scale) (one-le-pow target.scale 10 (omega arith))
            (one-le-pow held.scale 10 (omega arith)))
          (one-le-pow price.scale 10 (omega arith))) in
    rw e (
      d,
      v,
      q,
      filled (target.units * 10 ^ held.scale) (held.units * 10 ^ target.scale) price.units
          (10 ^ d.scale) (d.units * gap_den target held price) a low,
      high,
    )
