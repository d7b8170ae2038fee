-- ===== src/Wallet/Amount/Digits.antt =====
-- The digits of a number, and the number of digits: cli/internal/wallet/fund.go.
use native.Mathlib.Nat.{pow-suc}
use canton_localnet.Base.{
  ◌≡◌, refl, ◌∙◌, ℕ, zero, suc, ◌+◌, ◌-◌, ◌*◌, ◌^◌, ◌≤◌, ◌<◌, true, Text, ◌++◌, all_true, length,
  length-append, arith,
}
use canton_localnet.Base.Decimal.{
  is_digit, value_from, decimal, all_digits-append, value-digits_of, all_digits-digits_of,
  length-digits_of,
}
use canton_localnet.Wallet.Amount.{zeros, drop, padded}

pub value_from-zeros : (acc k : ℕ) → value_from acc (zeros k) ≡ acc * 10 ^ k
unfolding value_from zeros
value_from-zeros acc zero = omega arith
value_from-zeros acc (suc k) =
    value_from-zeros (acc * 10 + (b'0' - b'0')) k ∙ rw (pow-suc 10 k) (grind arith)

all_digits-zeros : (k : ℕ) → all_true is_digit (zeros k) ≡ true
unfolding all_true zeros
all_digits-zeros zero = refl
all_digits-zeros (suc k) = all_digits-zeros k

value_from-zeros_append : (k : ℕ) (s : Text) → value_from 0 (zeros k ++ s) ≡ value_from 0 s
unfolding value_from zeros
value_from-zeros_append zero s = refl
value_from-zeros_append (suc k) s = value_from-zeros_append k s

pub length-zeros : (k : ℕ) → length (zeros k) ≡ k
unfolding zeros
length-zeros zero = refl
length-zeros (suc k) = omega (arith, length-zeros k)

drop-zeros : (j k i : ℕ) (s : Text) → k ≡ j + i → drop j (zeros k ++ s) ≡ zeros i ++ s
unfolding drop zeros
drop-zeros zero k i s e = let f : k ≡ i = omega arith in rw f refl
drop-zeros (suc j) zero i s e = absurd (omega arith)
drop-zeros (suc j) (suc k) i s e = drop-zeros j k i s (omega arith)

padded-zeros : (n : ℕ) → n < 10000000000 → padded n ≡ zeros (10 - length (decimal n)) ++ decimal n
unfolding padded
padded-zeros n h =
    let l : length (decimal n) ≤ 10 = unfold decimal in length-digits_of (suc n) n 9 h in
    let e : length (zeros 10 ++ decimal n) - 10 ≡ length (decimal n) =
      omega (arith, length-append (zeros 10) (decimal n), length-zeros 10) in
    rw e
      (drop-zeros (length (decimal n)) 10 (10 - length (decimal n)) (decimal n) (omega (arith, l)))

-- The digits of a number below 10 ^ 10, to ten places.
pub padded_lem :
    (n : ℕ)
    → n < 10000000000
    → (length (padded n) ≡ 10)
      × (all_true is_digit (padded n) ≡ true)
      × (value_from 0 (padded n) ≡ n)
padded_lem n h =
    let l : length (decimal n) ≤ 10 = unfold decimal in length-digits_of (suc n) n 9 h in
    rw (padded-zeros n h) (
      omega (
        arith,
        l,
        length-append (zeros (10 - length (decimal n))) (decimal n),
        length-zeros (10 - length (decimal n)),
      ),
      all_digits-append (zeros (10 - length (decimal n))) (decimal n) (all_digits-zeros _)
          (unfold decimal in all_digits-digits_of (suc n) n),
      value_from-zeros_append (10 - length (decimal n)) (decimal n)
          ∙ (unfold decimal in value-digits_of (suc n) n (omega arith)),
    )
