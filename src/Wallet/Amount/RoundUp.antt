-- ===== src/Wallet/Amount/RoundUp.antt =====
-- The amount that `roundUpUSD` writes: cli/internal/wallet/fund.go and wallet.go.
use native.Mathlib.Nat.{
  div-add-mod', mod-lt, one-le-pow, le_of_mul-le-mul_right, mul-le-mul_right,
  mul-lt-mul_of_pos_right,
}
use canton_localnet.Base.{
  ◌≡◌, ◌≢◌, refl, sym, ap, ◌∙◌, ℕ, zero, suc, ◌+◌, ◌*◌, ◌/◌, ◌%◌, ◌^◌, ◌≤◌, ◌<◌, Bool, true, false,
  Text, [], ◌∷◌, ◌++◌, some, ok, leb, ltb, if◌then◌else◌, arith, Bool-cases, inl, inr, subst,
  is_empty, trim_right_by, length, length-append,
}
use canton_localnet.Base.Decimal.{value_from, decimal, value_from-append, decimal_lem}
use canton_localnet.Wallet.Amount.{
  Decimal, zeros, cut_dot, trim_zeros, digits, positive_decimal, validate_amount, parse_decimal,
  padded, units_up, render_units, round_up_usd, divisor, parts, fits,
}
use canton_localnet.Wallet.Amount.Digits.{padded_lem}
use canton_localnet.Wallet.Amount.Trim.{
  zero_digit, dot, IsDigits, trim_right_by-zeros, trim_zeros-value, trim_right_by-keep,
  trim_dot-end, trim_dot-fraction, cut_dot-digits, cut_dot-fraction, IsDigits-trim_right_by,
}
use canton_localnet.Wallet.Amount.Places.{value_from-shift, kept_digits}

-- A whole part, and a fraction behind a dot where there is one.
abbrev pub with_fraction : Text → Text → Text
with_fraction w [] = w
with_fraction w (c ∷ g) = w ++ b'.' ∷ c ∷ g

-- Such a text is read as the two parts.
cut-with_fraction :
    (w g : Text)
    → IsDigits w
    → is_empty w ≡ false
    → IsDigits g
    → (positive_decimal (with_fraction w g) ≡ true)
      × (parts (cut_dot (with_fraction w g)) (with_fraction w g) ≡ (w, g))
unfolding positive_decimal digits fits
cut-with_fraction w [] h n k = rw (cut_dot-digits w h) (rw (h, n) refl, refl)
cut-with_fraction w (c ∷ g) h n k = rw (cut_dot-fraction w (c ∷ g) h) (rw (h, n, k) refl, refl)

read-with_fraction :
    (w g : Text)
    → IsDigits w
    → is_empty w ≡ false
    → IsDigits g
    → length g ≤ 10
    → value_from 0 (w ++ g) ≢ 0
    → (validate_amount (with_fraction w g) ≡ ok tt)
      × (parse_decimal (with_fraction w g)
          ≡ some (record { units = value_from 0 (w ++ g); scale = length g }))
unfolding validate_amount parse_decimal
read-with_fraction w g h n k l v =
    let (p, q) = cut-with_fraction w g h n k in
    let b : leb (length g) 10 ≡ true = ground arith in
    rw (p, q) (rw (b, left (is_empty (trim_zeros (w ++ g))) refl) refl, refl)
  where
    left : (b : Bool) → is_empty (trim_zeros (w ++ g)) ≡ b → is_empty (trim_zeros (w ++ g)) ≡ false
    left true e = absurd (v (trim_zeros-value (w ++ g) e))
    left false e = e

render_units-with_fraction :
    (units : ℕ)
    → render_units units
      ≡ with_fraction
          (decimal (units / divisor))
          (trim_right_by zero_digit (padded (units % divisor)))
unfolding render_units
render_units-with_fraction units =
    ap (trim_right_by dot) (
      trim_right_by-keep zero_digit b'.' refl (decimal (units / divisor))
        (padded (units % divisor)))
    ∙ by_fraction (trim_right_by zero_digit (padded (units % divisor))) (
        IsDigits-trim_right_by (padded (units % divisor))
          (padded_lem (units % divisor) (mod-lt units (omega arith))).1)
  where
    by_fraction :
        (g : Text)
        → IsDigits g
        → trim_right_by dot (decimal (units / divisor) ++ b'.' ∷ g)
          ≡ with_fraction (decimal (units / divisor)) g
    by_fraction [] k = trim_dot-end (decimal (units / divisor)) (decimal_lem (units / divisor)).1
    by_fraction (c ∷ g) k = trim_dot-fraction (decimal (units / divisor)) (c ∷ g) k refl

read-render_units :
    (units : ℕ)
    → 0 < units
    → (d : Decimal) × (validate_amount (render_units units) ≡ ok tt)
      × (parse_decimal (render_units units) ≡ some d)
      × (d.units * divisor ≡ units * 10 ^ d.scale)
read-render_units units h =
    let w = decimal (units / divisor) in
    let f = padded (units % divisor) in
    let g = trim_right_by zero_digit f in
    let (l, k, v) = padded_lem (units % divisor) (mod-lt units (omega arith)) in
    let (n, i, x) = decimal_lem (units / divisor) in
    let whole : value_from 0 (w ++ f) ≡ units = whole_value w f x l v in
    let q : value_from 0 (w ++ g) * divisor ≡ units * 10 ^ length g =
      subst (λ y. value_from 0 (w ++ g) * divisor ≡ y * 10 ^ length g) whole (kept_digits w f l) in
    let (a, b) = read-with_fraction w g i n (IsDigits-trim_right_by f k) (length-trim f l) (λ z.
      positive (10 ^ length g) (one-le-pow (length g) 10 (omega arith))
        (subst (λ y. y * divisor ≡ units * 10 ^ length g) z q)) in
    let d : Decimal = record { units = value_from 0 (w ++ g); scale = length g } in
    (
      d,
      subst (λ t. validate_amount t ≡ ok tt) (sym (render_units-with_fraction units)) a,
      subst (λ t. parse_decimal t ≡ some d) (sym (render_units-with_fraction units)) b,
      q,
    )
  where
    positive : (b : ℕ) → 1 ≤ b → 0 * divisor ≡ units * b → ⊥
    positive b p e = grind arith

    length-trim : (f : Text) → length f ≡ 10 → length (trim_right_by zero_digit f) ≤ 10
    length-trim f l =
        let (j, e) = trim_right_by-zeros f in
        omega (arith, l, ap length e, length-append (trim_right_by zero_digit f) (zeros j))

    whole_value :
        (w f : Text)
        → value_from 0 w ≡ units / divisor
        → length f ≡ 10
        → value_from 0 f ≡ units % divisor
        → value_from 0 (w ++ f) ≡ units
    whole_value w f x l v =
        value_from-append 0 w f
        ∙ value_from-shift (value_from 0 w) f
        ∙ rw (x, l, v) (div-add-mod' units divisor)

units_up-bounds :
    (num den : ℕ)
    → 0 < den
    → (num * divisor ≤ units_up num den * den) × (units_up num den * den < num * divisor + den)
unfolding units_up
units_up-bounds num den h =
    up (num * divisor / den) (num * divisor % den) (div-add-mod' (num * divisor) den)
      (mod-lt (num * divisor) h)
  where
    up :
        (q r : ℕ)
        → q * den + r ≡ num * divisor
        → r < den
        → (num * divisor ≤ (if ltb 0 r then q + 1 else q) * den)
          × ((if ltb 0 r then q + 1 else q) * den < num * divisor + den)
    up q r e l = elim (Bool-cases (ltb 0 r)) [
      | inl t ↦ rw t (let m : (q + 1) * den ≡ q * den + den = grind arith in ground (arith, m))
      | inr t ↦ rw t (ground arith)
    ]

-- For an amount `num / den` above 0, `roundUpUSD` writes a text that `ValidateAmount` accepts and that
-- is read back as a decimal of at least `num / den`, by less than one unit of the tenth place.
pub round_up_usd_lem :
    (num den : ℕ)
    → 0 < num
    → 0 < den
    → (d : Decimal) × (validate_amount (round_up_usd num den) ≡ ok tt)
      × (parse_decimal (round_up_usd num den) ≡ some d)
      × (num * 10 ^ d.scale ≤ d.units * den)
      × (d.units * den * divisor < (num * divisor + den) * 10 ^ d.scale)
unfolding round_up_usd
round_up_usd_lem num den h k =
    let (low, high) = units_up-bounds num den k in
    let (d, a, b, e) = read-render_units (units_up num den) (positive (units_up num den) low) in
    (
      d,
      a,
      b,
      below d.units (units_up num den) (10 ^ d.scale) e low,
      above d.units (units_up num den) (10 ^ d.scale) (one-le-pow d.scale 10 (omega arith)) e high,
    )
  where
    positive : (u : ℕ) → num * divisor ≤ u * den → 0 < u
    positive zero l = absurd (omega (arith, l))
    positive (suc u) l = omega arith

    commuted : (a b c : ℕ) → a * b * c ≡ a * c * b
    commuted a b c = grind arith

    moved : (x u s : ℕ) → x * divisor ≡ u * s → x * den * divisor ≡ u * den * s
    moved x u s e = commuted x den divisor ∙ (ap (λ y. y * den) e ∙ commuted u s den)

    below : (x u s : ℕ) → x * divisor ≡ u * s → num * divisor ≤ u * den → num * s ≤ x * den
    below x u s e l =
        le_of_mul-le-mul_right {k = divisor}
          (subst (λ y. num * s * divisor ≤ y) (sym (moved x u s e))
            (subst (λ y. y ≤ u * den * s) (commuted num divisor s) (mul-le-mul_right s l)))
          (omega arith)

    above :
        (x u s : ℕ)
        → 1 ≤ s
        → x * divisor ≡ u * s
        → u * den < num * divisor + den
        → x * den * divisor < (num * divisor + den) * s
    above x u s p e l =
        subst (λ y. y < (num * divisor + den) * s) (sym (moved x u s e))
          (mul-lt-mul_of_pos_right l p)
