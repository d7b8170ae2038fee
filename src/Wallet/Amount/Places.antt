-- ===== src/Wallet/Amount/Places.antt =====
-- The places of a decimal: cli/internal/wallet/fund.go.
use mathlib.Core.List.{append_assoc}
use native.Mathlib.Nat.{pow-zero, pow-suc}
use canton_localnet.Base.{
  ◌≡◌, sym, ap, ◌∙◌, ℕ, zero, suc, ◌+◌, ◌-◌, ◌*◌, ◌^◌, Text, [], ◌∷◌, ◌++◌, arith, trim_right_by,
  length, length-append,
}
use canton_localnet.Base.Decimal.{value_from, value_from-append}
use canton_localnet.Wallet.Amount.{zeros, divisor}
use canton_localnet.Wallet.Amount.Digits.{value_from-zeros, length-zeros}
use canton_localnet.Wallet.Amount.Trim.{zero_digit, trim_right_by-zeros}

pow-add : (n j k : ℕ) → n ^ (j + k) ≡ n ^ j * n ^ k
pow-add n j zero = let e : j + 0 ≡ j = omega arith in rw (e, pow-zero) (omega arith)
pow-add n j (suc k) =
    let e : j + suc k ≡ suc (j + k) = omega arith in
    rw (e, pow-suc n (j + k), pow-suc n k, pow-add n j k) (grind arith)

pub value_from-shift :
    (acc : ℕ) (s : Text) → value_from acc s ≡ acc * 10 ^ length s + value_from 0 s
unfolding value_from
value_from-shift acc [] = omega arith
value_from-shift acc (c ∷ s) =
    let p : 10 ^ suc (length s) ≡ 10 ^ length s * 10 = pow-suc 10 (length s) in
    let q : value_from (0 * 10 + (c - b'0')) s
        ≡ (0 * 10 + (c - b'0')) * 10 ^ length s + value_from 0 s =
      value_from-shift (0 * 10 + (c - b'0')) s in
    value_from-shift (acc * 10 + (c - b'0')) s ∙ rw (p, q) (grind arith)

-- The digits kept of the fraction, and how many places they stand behind.
pub kept_digits :
    (w f : Text)
    → length f ≡ 10
    → value_from 0 (w ++ trim_right_by zero_digit f) * divisor
      ≡ value_from 0 (w ++ f) * 10 ^ length (trim_right_by zero_digit f)
kept_digits w f l =
    let (k, e) = trim_right_by-zeros f in
    let g = trim_right_by zero_digit f in
    let n : length g + k ≡ 10 = sum k g e in
    let v : value_from 0 (w ++ f) ≡ value_from 0 (w ++ g) * 10 ^ k =
      ap (λ u. value_from 0 (w ++ u)) e
      ∙ (ap (value_from 0) (sym (append_assoc w g (zeros k)))
          ∙ (value_from-append 0 (w ++ g) (zeros k)
              ∙ value_from-zeros (value_from 0 (w ++ g)) k)) in
    let d : divisor ≡ 10 ^ length g * 10 ^ k = ap (λ i. 10 ^ i) (sym n) ∙ pow-add 10 (length g) k in
    rw v (scaled (value_from 0 (w ++ g)) (10 ^ length g) (10 ^ k) d)
  where
    scaled : (x a b : ℕ) → divisor ≡ a * b → x * divisor ≡ x * b * a
    scaled x a b d = ap (λ y. x * y) d ∙ grind arith

    sum : (k : ℕ) (g : Text) → f ≡ g ++ zeros k → length g + k ≡ 10
    sum k g e = omega (arith, l, ap length e, length-append g (zeros k), length-zeros k)
