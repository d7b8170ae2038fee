-- ===== src/Wallet/Amount/Trim.antt =====
-- What `strings.TrimRight` and `strings.Cut` leave of a decimal: cli/internal/wallet/fund.go.
use mathlib.Core.List.{append_assoc}
use canton_localnet.Base.{
  ◌≡◌, refl, sym, ap, ◌∙◌, ℕ, suc, ◌*◌, ◌^◌, Bool, true, false, Text, [], ◌∷◌, ◌++◌, none, some,
  all_true, ◌==◌, if◌then◌else◌, arith, Bool-cases, inl, inr, is_empty, trim_left_by, trim_right_by,
  cut, cut_prefix,
}
use canton_localnet.Base.Decimal.{is_digit, value_from, value_from-append}
use canton_localnet.Wallet.Amount.{zeros, cut_dot, trim_zeros}
use canton_localnet.Wallet.Amount.Digits.{value_from-zeros}

abbrev pub zero_digit : ℕ → Bool
zero_digit c = c == b'0'

abbrev pub dot : ℕ → Bool
dot c = c == b'.'

abbrev pub IsDigits : Text → Type 0
IsDigits s = all_true is_digit s ≡ true

-- What is cut off at the end are zeros.
pub trim_right_by-zeros : (s : Text) → (k : ℕ) × (s ≡ trim_right_by zero_digit s ++ zeros k)
unfolding trim_right_by zeros
trim_right_by-zeros [] = (0, refl)
trim_right_by-zeros (c ∷ s) = step (trim_right_by zero_digit s) refl (trim_right_by-zeros s)
  where
    step :
        (t : Text)
        → trim_right_by zero_digit s ≡ t
        → (k : ℕ) × (s ≡ trim_right_by zero_digit s ++ zeros k)
        → (k : ℕ) × (c ∷ s ≡ trim_right_by zero_digit (c ∷ s) ++ zeros k)
    step [] e (k, h) = elim (Bool-cases (c == b'0')) [
      | inl z ↦ (suc k, rw (e, z) (ground (arith, rw e at h)))
      | inr z ↦ (k, rw (e, z) (ap (λ u. c ∷ u) (rw e at h)))
    ]
    step (d ∷ ds) e (k, h) = (k, rw e (ap (λ u. c ∷ u) (rw e at h)))

trim_left_by-zeros : (s : Text) → (k : ℕ) × (s ≡ zeros k ++ trim_left_by zero_digit s)
unfolding trim_left_by zeros
trim_left_by-zeros [] = (0, refl)
trim_left_by-zeros (c ∷ s) =
    let (k, h) = trim_left_by-zeros s in
    elim (Bool-cases (c == b'0')) [
      | inl z ↦ (suc k, rw z (ground (arith, h)))
      | inr z ↦ (0, rw z refl)
    ]

-- Digits that `strings.Trim(s, "0")` removes altogether stand for 0.
pub trim_zeros-value : (s : Text) → is_empty (trim_zeros s) ≡ true → value_from 0 s ≡ 0
unfolding trim_zeros
trim_zeros-value s h =
    let (k, e) = trim_left_by-zeros s in
    let (j, f) = trim_right_by-zeros (trim_left_by zero_digit s) in
    let g : trim_right_by zero_digit (trim_left_by zero_digit s) ≡ [] = blank _ h in
    ap (value_from 0) (e ∙ ap (λ u. zeros k ++ u) (f ∙ ap (λ u. u ++ zeros j) g))
    ∙ (value_from-append 0 (zeros k) (zeros j)
        ∙ rw (value_from-zeros 0 k, value_from-zeros (0 * 10 ^ k) j) (omega arith))
  where
    blank : (t : Text) → is_empty t ≡ true → t ≡ []
    blank [] q = refl
    blank (c ∷ t) q = cc

-- A character that stays keeps what is before it.
pub trim_right_by-keep :
    (p : ℕ → Bool) (c : ℕ)
    → p c ≡ false
    → (xs ys : Text) → trim_right_by p (xs ++ c ∷ ys) ≡ xs ++ c ∷ trim_right_by p ys
unfolding trim_right_by
trim_right_by-keep p c h [] ys = step (trim_right_by p ys)
  where
    step :
        (t : Text)
        → elim t as (λ _. Text) [ [] ↦ if p c then [] else c ∷ [] | d ∷ ds ↦ c ∷ d ∷ ds ] ≡ c ∷ t
    step [] = rw h refl
    step (d ∷ ds) = refl
trim_right_by-keep p c h (x ∷ []) ys = rw (trim_right_by-keep p c h [] ys) refl
trim_right_by-keep p c h (x ∷ y ∷ xs) ys = rw (trim_right_by-keep p c h (y ∷ xs) ys) refl

pub trim_dot-digits : (s : Text) → IsDigits s → trim_right_by dot s ≡ s
unfolding trim_right_by all_true
trim_dot-digits [] h = refl
trim_dot-digits (c ∷ []) h = ground arith
trim_dot-digits (c ∷ d ∷ s) h = rw (trim_dot-digits (d ∷ s) (ground arith)) refl

pub trim_dot-end : (w : Text) → IsDigits w → trim_right_by dot (w ++ b'.' ∷ []) ≡ w
unfolding trim_right_by all_true
trim_dot-end [] h = refl
trim_dot-end (c ∷ []) h = ground arith
trim_dot-end (c ∷ d ∷ w) h = rw (trim_dot-end (d ∷ w) (ground arith)) refl

pub trim_dot-fraction :
    (w g : Text)
    → IsDigits g
    → is_empty g ≡ false
    → trim_right_by dot (w ++ b'.' ∷ g) ≡ w ++ b'.' ∷ g
unfolding all_true
trim_dot-fraction w [] h n = cc
trim_dot-fraction w (d ∷ g) h n =
    ap (trim_right_by dot) (sym (append_assoc w (b'.' ∷ []) (d ∷ g)))
    ∙ (trim_right_by-keep dot d (ground arith) (w ++ b'.' ∷ []) g
        ∙ (ap (λ u. (w ++ b'.' ∷ []) ++ d ∷ u) (trim_dot-digits g (ground arith))
            ∙ append_assoc w (b'.' ∷ []) (d ∷ g)))

pub cut_dot-digits : (w : Text) → IsDigits w → cut_dot w ≡ none
unfolding cut_dot cut cut_prefix all_true
cut_dot-digits [] h = refl
cut_dot-digits (c ∷ w) h =
    let k : cut w (b'.' ∷ []) ≡ none = cut_dot-digits w (ground arith) in
    let n : (c == b'.') ≡ false = ground arith in rw (cut_dot, cut, cut_prefix, n, k) refl

pub cut_dot-fraction : (w g : Text) → IsDigits w → cut_dot (w ++ b'.' ∷ g) ≡ some (w, g)
unfolding cut_dot cut cut_prefix all_true
cut_dot-fraction [] g h = refl
cut_dot-fraction (c ∷ w) g h =
    let k : cut (w ++ b'.' ∷ g) (b'.' ∷ []) ≡ some (w, g) = cut_dot-fraction w g (ground arith) in
    let n : (c == b'.') ≡ false = ground arith in rw (cut_dot, cut, cut_prefix, n, k) refl

-- The digits that `strings.TrimRight` leaves are digits.
pub IsDigits-trim_right_by : (s : Text) → IsDigits s → IsDigits (trim_right_by zero_digit s)
unfolding trim_right_by all_true
IsDigits-trim_right_by [] h = refl
IsDigits-trim_right_by (c ∷ s) h =
    step (trim_right_by zero_digit s) (IsDigits-trim_right_by s (ground arith))
  where
    step :
        (t : Text)
        → IsDigits t
        → IsDigits
            (elim t as (λ _. Text) [ [] ↦ if c == b'0' then [] else c ∷ [] | d ∷ ds ↦ c ∷ d ∷ ds ])
    step [] k = ground arith
    step (d ∷ ds) k = ground arith
