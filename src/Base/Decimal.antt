-- ===== src/Base/Decimal.antt =====
-- The decimal digits of a number, and the number that digits stand for.
use native.Mathlib.Nat.{pow-suc}
use canton_localnet.Base.{
  ◌≡◌, refl, ℕ, zero, suc, ◌+◌, ◌-◌, ◌*◌, ◌/◌, ◌%◌, ◌^◌, ◌≤◌, ◌<◌, Bool, true, false, ◌&&◌, Text,
  [], ◌∷◌, ◌++◌, all_true, length, length-append, ltb, leb, if◌then◌else◌, arith, Bool-cases, inl,
  inr, is_empty,
}

abbrev pub is_digit : ℕ → Bool
is_digit c = leb b'0' c && leb c b'9'

unfoldable pub value_from : ℕ → Text → ℕ
value_from acc [] = acc
value_from acc (c ∷ cs) = value_from (acc * 10 + (c - b'0')) cs

-- The decimal digits of a number, with as many turns as the number allows.
unfoldable pub digits_of : ℕ → ℕ → Text
digits_of zero n = []
digits_of (suc fuel) n =
    let front = digits_of fuel (n / 10) in
    if ltb n 10 then (b'0' + n) ∷ [] else front ++ ((b'0' + n % 10) ∷ [])

-- As `strconv.Itoa` and `big.Int.String` print it.
unfoldable pub decimal : ℕ → Text
unfolding digits_of
decimal n = digits_of (suc n) n

pub value_from-append :
    (acc : ℕ) (s t : Text) → value_from acc (s ++ t) ≡ value_from (value_from acc s) t
unfolding value_from
value_from-append acc [] t = refl
value_from-append acc (c ∷ s) t = value_from-append (acc * 10 + (c - b'0')) s t

pub all_digits-append :
    (s t : Text)
    → all_true is_digit s ≡ true
    → all_true is_digit t ≡ true
    → all_true is_digit (s ++ t) ≡ true
unfolding all_true
all_digits-append [] t h k = k
all_digits-append (c ∷ s) t h k = ground (arith, all_digits-append s t)

pub value-digits_of : (fuel n : ℕ) → n < fuel → value_from 0 (digits_of fuel n) ≡ n
unfolding digits_of value_from
value-digits_of zero n h = absurd (omega arith)
value-digits_of (suc fuel) n h = elim (Bool-cases (ltb n 10)) [
  | inl e ↦ rw e (omega arith)
  | inr e ↦
      rw (e, value_from-append 0 (digits_of fuel (n / 10)) ((b'0' + n % 10) ∷ []))
        (ground (arith, value-digits_of fuel (n / 10)))
]

pub all_digits-digits_of : (fuel n : ℕ) → all_true is_digit (digits_of fuel n) ≡ true
unfolding digits_of
all_digits-digits_of zero n = unfold all_true in refl
all_digits-digits_of (suc fuel) n = elim (Bool-cases (ltb n 10)) [
  | inl e ↦ rw e (unfold all_true in ground arith)
  | inr e ↦
      rw e (
        all_digits-append _ _ (all_digits-digits_of fuel (n / 10))
          (unfold all_true in ground arith))
]

is_empty-digits_of : (fuel n : ℕ) → is_empty (digits_of (suc fuel) n) ≡ false
unfolding digits_of
is_empty-digits_of fuel n = elim (Bool-cases (ltb n 10)) [
  | inl e ↦ rw e refl
  | inr e ↦ rw e (last (digits_of fuel (n / 10)))
]
  where
    last : (s : Text) → is_empty (s ++ ((b'0' + n % 10) ∷ [])) ≡ false
    last [] = refl
    last (c ∷ s) = refl

pub length-digits_of : (fuel n k : ℕ) → n < 10 ^ suc k → length (digits_of fuel n) ≤ suc k
unfolding digits_of
length-digits_of zero n k h = omega arith
length-digits_of (suc fuel) n k h = elim (Bool-cases (ltb n 10)) [
  | inl e ↦ rw e (omega arith)
  | inr e ↦
      rw (e, length-append (digits_of fuel (n / 10)) ((b'0' + n % 10) ∷ []))
        (more k h e (length-digits_of fuel (n / 10)))
]
  where
    more :
        (j : ℕ)
        → n < 10 ^ suc j
        → ltb n 10 ≡ false
        → ((i : ℕ) → n / 10 < 10 ^ suc i → length (digits_of fuel (n / 10)) ≤ suc i)
        → length (digits_of fuel (n / 10)) + 1 ≤ suc j
    more zero b e rec = absurd (ground arith)
    more (suc j) b e rec =
        let p : 10 ^ suc (suc j) ≡ 10 ^ suc j * 10 = pow-suc 10 (suc j) in
        let q : n / 10 < 10 ^ suc j = omega (arith, p, b) in omega (arith, rec j q)

-- `decimal` prints a number in digits, at least one.
pub decimal_lem :
    (n : ℕ)
    → (is_empty (decimal n) ≡ false)
      × (all_true is_digit (decimal n) ≡ true)
      × (value_from 0 (decimal n) ≡ n)
unfolding decimal
decimal_lem n = (
  is_empty-digits_of n n,
  all_digits-digits_of (suc n) n,
  value-digits_of (suc n) n (omega arith),
)
