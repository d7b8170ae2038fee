-- ===== src/Wallet/Fund/Taps.antt =====
-- The taps of `TapAtLeast`, and what it returns: cli/internal/wallet/fund.go.
use canton_localnet.Base.{
  ◌==◌, if◌then◌else◌, ◌≡◌, refl, ap, ℕ, zero, suc, ◌+◌, ◌≤◌, true, Text, List, [], ◌∷◌, Option,
  none, some, Result, ok, err, arith, Bool-cases, inl, inr, subst, ok-injective,
}
use canton_localnet.Wallet.Amount.{
  Decimal, validate_amount, parse_decimal, at_least, positive_decimal, not_decimal,
}
use canton_localnet.Wallet.Client.{
  amount, Request, read_balance, read_rounds, tap_request, Run, Service, WalletError, still_below,
  after, done, wrapped, send, tap, balance, amulet_price, price_at, if_decimal, pick_round,
  check_price, decoded, text_field,
}
use canton_localnet.Wallet.Fund.{
  decimal_or_zero, tap_amount, tap_once, fund, tap_at_least, max_funding_taps,
}

abbrev tap_of : Request → ℕ
tap_of (tap_request asked) = 1
tap_of _ = 0

abbrev pub taps : List Request → ℕ
taps [] = 0
taps (r ∷ rs) = tap_of r + taps rs

-- A run makes so many taps at most.
abbrev Costs : {A : Type 0} → ℕ → Run A → Type 0
Costs n m = (t : List Request) → taps (m t).1 ≤ n + taps t

after-Costs :
    {A B : Type 0} (n k : ℕ) (r : Result WalletError A × List Request) (f : A → Run B)
    (t : List Request)
    → taps r.1 ≤ n + taps t
    → ((a : A) → Costs k (f a))
    → taps (after r f).1 ≤ n + k + taps t
after-Costs n k (ok a, u) f t h c = omega (arith, h, c a u)
after-Costs n k (err e, u) f t h c = omega (arith, h)

module _ (s : Service) where
  balance-Costs : Costs 0 (balance s)
  unfolding balance send
  balance-Costs t =
      after-Costs 0 0 (send s read_balance t) _ t (omega arith)
        (λ v u. after-Costs 0 0 (done _ u) (λ held. done _) u (omega arith) (λ _ x. omega arith))

  price_at-Costs : (now : ℕ) → Costs 0 (price_at s now)
  unfolding price_at send
  price_at-Costs now t = after-Costs 0 0 (send s read_rounds t) _ t (omega arith) (λ v u.
      after-Costs 0 0 (done _ u) _ u (omega arith) (λ rounds x.
        after-Costs 0 0 (done (pick_round s.parse_time now rounds 0 []) x)
          (λ p. done (check_price p)) x (omega arith) (λ _ y. omega arith)))

  amulet_price-Costs : (now : ℕ) → Costs 0 (amulet_price s now)
  unfolding amulet_price
  amulet_price-Costs now t = price_at-Costs (if now == 0 then s.clock t else now) t

  tap-Costs : (asked : Text) → Costs 1 (tap s asked)
  unfolding tap send
  tap-Costs asked t = after-Costs 0 1 (done _ t) _ t (omega arith) (λ u x.
      after-Costs 1 0 (send s (tap_request asked) x) _ x (omega arith)
        (λ v y. after-Costs 0 0 (done _ y) (λ c. done _) y (omega arith) (λ _ z. omega arith)))

  tap_once-Costs : (target held : Decimal) → Costs 1 (tap_once s target held)
  unfolding tap_once
  tap_once-Costs target held t =
      after-Costs 0 1 (amulet_price s (s.clock t) t) _ t (amulet_price-Costs (s.clock t) t)
        (λ price u.
          after-Costs 1 0 (tap s (tap_amount target held price) u) _ u
            (tap-Costs (tap_amount target held price) u) (λ c. balance-Costs))

  fund-Costs : (target : Decimal) (left : ℕ) (held : Text) → Costs left (fund s target left held)
  unfolding fund
  fund-Costs target zero held t = omega arith
  fund-Costs target (suc left) held t =
      let c : taps (tap_once s target (decimal_or_zero (parse_decimal held)) t).1 ≤ 1 + taps t =
        tap_once-Costs target (decimal_or_zero (parse_decimal held)) t in
      let k : taps
            (after (tap_once s target (decimal_or_zero (parse_decimal held)) t)
              (fund s target left)).1
          ≤ 1 + left + taps t =
        after-Costs 1 left (tap_once s target (decimal_or_zero (parse_decimal held)) t)
          (fund s target left) t c (fund-Costs target left) in
      elim (Bool-cases (at_least (decimal_or_zero (parse_decimal held)) target)) [
        | inl e ↦ rw e (omega arith)
        | inr e ↦ rw e (omega (arith, k))
      ]

  -- Whatever the wallet answers, `TapAtLeast` taps three times at most.
  pub tap_at_least-taps : (target : Text) → taps (tap_at_least s target).1 ≤ 3
  unfolding tap_at_least
  tap_at_least-taps target =
      let k : taps (tap_at_least s target).1 ≤ 0 + 3 + taps [] =
        after-Costs 0 3 (done (wrapped (validate_amount target)) []) _ [] (omega arith) (λ u x.
          after-Costs 0 3 (balance s x) _ x (balance-Costs x)
            (λ held. fund-Costs (decimal_or_zero (parse_decimal target)) 3 held)) in
      omega (arith, k)

-- A run that succeeds has gone through its first part.
after-eq_ok :
    {A B : Type 0} (r : Result WalletError A × List Request) (f : A → Run B) (b : B)
    (u : List Request)
    → after r f ≡ (ok b, u)
    → (a : A) × (t : List Request) × (r ≡ (ok a, t)) × (f a t ≡ (ok b, u))
after-eq_ok (ok a, t) f b u h = (a, t, refl, h)
after-eq_ok (err e, t) f b u h = cc

abbrev IsDecimal : Text → Type 0
IsDecimal t = (d : Decimal) × (parse_decimal t ≡ some d)

if_decimal-IsDecimal :
    (held b : Text) (o : Option Decimal)
    → parse_decimal held ≡ o
    → if_decimal o held ≡ ok b
    → IsDecimal b
if_decimal-IsDecimal held b none e h = cc
if_decimal-IsDecimal held b (some d) e h =
    (d, subst (λ x. parse_decimal x ≡ some d) (ok-injective held b h) e)

module _ (s : Service) where
  balance-IsDecimal : (b : Text) (t u : List Request) → balance s t ≡ (ok b, u) → IsDecimal b
  unfolding balance
  balance-IsDecimal b t u h =
      let (v, x, p, q) = after-eq_ok (send s read_balance t) _ b u h in
      let (held, y, p', q') = after-eq_ok (done (decoded (text_field _ v)) x) _ b u q in
      if_decimal-IsDecimal held b (parse_decimal held) refl (ap (λ r. r.0) q')

  tap_once-IsDecimal :
      (target held : Decimal) (b : Text) (t u : List Request)
      → tap_once s target held t ≡ (ok b, u)
      → IsDecimal b
  unfolding tap_once
  tap_once-IsDecimal target held b t u h =
      let (price, x, p, q) = after-eq_ok (amulet_price s (s.clock t) t) _ b u h in
      let (c, y, p', q') = after-eq_ok (tap s (tap_amount target held price) x) _ b u q in
      balance-IsDecimal b y u q'

-- A balance that is a decimal of at least the target.
abbrev pub Reaches : Decimal → Text → Type 0
Reaches target b = (d : Decimal) × (parse_decimal b ≡ some d) × (at_least d target ≡ true)

settled :
    (target : Decimal) (held b : Text)
    → IsDecimal held
    → at_least (decimal_or_zero (parse_decimal held)) target ≡ true
    → ◌≡◌ {A = Result WalletError Text} (ok held) (ok b)
    → Reaches target b
settled target held b (d, p) e h =
    subst (Reaches target) (ok-injective held b h)
      (d, p, subst (λ o. at_least (decimal_or_zero o) target ≡ true) p e)

fund-Reaches :
    (s : Service) (target : Decimal) (left : ℕ) (held b : Text) (t u : List Request)
    → IsDecimal held
    → fund s target left held t ≡ (ok b, u)
    → Reaches target b
unfolding fund
fund-Reaches s target zero held b t u i h =
    elim (Bool-cases (at_least (decimal_or_zero (parse_decimal held)) target)) [
      | inl e ↦ settled target held b i e (ap (λ r. r.0) (rw e at h))
      | inr e ↦ absurd (refused (ap (λ r. r.0) (rw e at h)))
    ]
  where
    refused : ◌≡◌ {A = Result WalletError Text} (err (still_below held)) (ok b) → ⊥
    refused q = cc
fund-Reaches s target (suc left) held b t u i h =
    elim (Bool-cases (at_least (decimal_or_zero (parse_decimal held)) target)) [
      | inl e ↦ settled target held b i e (ap (λ r. r.0) (rw e at h))
      | inr e ↦
          let (now, x, p, q) =
            after-eq_ok (tap_once s target (decimal_or_zero (parse_decimal held)) t)
              (fund s target left) b u (rw e at h) in
          fund-Reaches s target left now b x u
            (tap_once-IsDecimal s target (decimal_or_zero (parse_decimal held)) now t x p) q
    ]

validate-IsDecimal :
    (target : Text) (u : Unit {0}) → wrapped (validate_amount target) ≡ ok u → IsDecimal target
unfolding validate_amount parse_decimal
validate-IsDecimal target u h = elim (Bool-cases (positive_decimal target)) [
  | inl e ↦ rw e (_, refl)
  | inr e ↦ absurd (refused (rw e at h))
]
  where
    refused : ◌≡◌ {A = Result WalletError (Unit {0})} (err (amount (not_decimal target))) (ok u) → ⊥
    refused q = cc

-- If `TapAtLeast` succeeds, whatever the wallet answers on the way, then the target is a decimal and
-- the balance returned is one that is at least the target.
pub tap_at_least-Reaches :
    (s : Service) (target b : Text) (u : List Request)
    → tap_at_least s target ≡ (ok b, u)
    → (goal : Decimal) × (parse_decimal target ≡ some goal) × Reaches goal b
unfolding tap_at_least
tap_at_least-Reaches s target b u h =
    let (x, t, p, q) = after-eq_ok (done (wrapped (validate_amount target)) []) _ b u h in
    let (held, y, p', q') = after-eq_ok (balance s t) _ b u q in
    let (goal, e) = validate-IsDecimal target x (ap (λ r. r.0) p) in
    (
      goal,
      e,
      subst (λ o. Reaches (decimal_or_zero o) b) e
          (fund-Reaches s (decimal_or_zero (parse_decimal target)) max_funding_taps held b y u
            (balance-IsDecimal s held t y p') q'),
    )
