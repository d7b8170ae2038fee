-- ===== src/Base/Lists.antt =====
-- Lists: length over the native numbers, Boolean searches, and the predicates by recursion.
use Prim.Native.Nat.{ℕ, suc, ◌+◌}
use mathlib.Core.Path.{◌≡◌, refl, subst, sym, ap}
use mathlib.Core.Logic.{◌⊎◌, inl, inr, ◌↔◌}
use mathlib.Core.Bool.{Bool, true, false, ◌||◌, ◌&&◌}
use mathlib.Core.List.{List, [], ◌∷◌, ◌++◌}
use native.Mathlib.Omega.{arith}
use canton_localnet.Base.Nat.{if◌then◌else◌, Bool-cases}

module _ {ℓ} {A : Type ℓ} where
  abbrev pub length : List A → ℕ
  length [] = 0
  length (x ∷ xs) = suc (length xs)

  pub length-append : (xs ys : List A) → length (xs ++ ys) ≡ length xs + length ys
  length-append [] ys = omega arith
  length-append (x ∷ xs) ys = omega (arith, length-append xs ys)

  -- A loop that appends the elements passing a test.
  unfoldable pub filter : (A → Bool) → List A → List A
  filter p [] = []
  filter p (x ∷ xs) = let rest = filter p xs in if p x then x ∷ rest else rest

  -- A loop that returns true at the first element passing a test.
  unfoldable pub any : (A → Bool) → List A → Bool
  any p [] = false
  any p (x ∷ xs) = let rest = any p xs in if p x then true else rest

-- `sort.Slice` with a strict order: a stable insertion sort, from the back.
module _ {ℓ} {A : Type ℓ} (less : A → A → Bool) where
  unfoldable pub insert_by : A → List A → List A
  insert_by x [] = x ∷ []
  insert_by x (y ∷ ys) = let rest = insert_by x ys in if less y x then y ∷ rest else x ∷ y ∷ ys

  unfoldable pub sort_by : List A → List A
  unfolding insert_by
  sort_by [] = []
  sort_by (x ∷ xs) = insert_by x (sort_by xs)

-- The type with no value, at every level.
pub data Empty {ℓ} : Type ℓ where

pub none_in {ℓ} : Empty {ℓ} → ⊥
none_in e = elim e [ ]

-- Every element has the property.
abbrev pub All {ℓ κ} : {A : Type ℓ} → (A → Type κ) → List A → Type κ
All P [] = Unit
All P (x ∷ xs) = P x × All P xs

-- The value stands in the list.
abbrev pub Has {ℓ} : {A : Type ℓ} → A → List A → Type ℓ
Has x [] = Empty
Has x (y ∷ ys) = (x ≡ y) ⊎ Has x ys

module _ {ℓ} {A : Type ℓ} where
  pub Has-append_left : (x : A) (xs ys : List A) → Has x xs → Has x (xs ++ ys)
  Has-append_left x [] ys h = absurd (none_in h)
  Has-append_left x (z ∷ xs) ys (inl e) = inl e
  Has-append_left x (z ∷ xs) ys (inr h) = inr (Has-append_left x xs ys h)

  pub Has-append_right : (x : A) (xs ys : List A) → Has x ys → Has x (xs ++ ys)
  Has-append_right x [] ys h = h
  Has-append_right x (z ∷ xs) ys h = inr (Has-append_right x xs ys h)

  pub Has-append : (x : A) (xs ys : List A) → Has x (xs ++ ys) → Has x xs ⊎ Has x ys
  Has-append x [] ys h = inr h
  Has-append x (z ∷ xs) ys (inl e) = inl (inl e)
  Has-append x (z ∷ xs) ys (inr h) = elim (Has-append x xs ys h) [
    | inl l ↦ inl (inr l)
    | inr r ↦ inr r
  ]

  pub All-Has {κ} : (P : A → Type κ) (xs : List A) (x : A) → All P xs → Has x xs → P x
  All-Has P [] x p h = absurd (none_in h)
  All-Has P (y ∷ xs) x p (inl e) = subst P (sym e) p.0
  All-Has P (y ∷ xs) x p (inr h) = All-Has P xs x p.1 h

  -- No value stands in the list twice.
  abbrev pub Distinct : List A → Type ℓ
  Distinct [] = Unit
  Distinct (x ∷ xs) = (Has x xs → Empty {ℓ}) × Distinct xs

-- The sum of a measure over a list.
unfoldable pub sum_by {ℓ} : {A : Type ℓ} → (A → ℕ) → List A → ℕ
sum_by f [] = 0
sum_by f (x ∷ xs) = f x + sum_by f xs

module _ {ℓ} {A : Type ℓ} (p : A → Bool) where
  pub any-Has : (xs : List A) → any p xs ≡ true → (x : A) × Has x xs × (p x ≡ true)
  unfolding any
  any-Has [] h = cc
  any-Has (x ∷ xs) h = elim (Bool-cases (p x)) [
    | inl t ↦ (x, inl refl, t)
    | inr f ↦ let (y, m, q) = any-Has xs (rw f at h) in (y, inr m, q)
  ]

  pub Has-any : (xs : List A) (x : A) → Has x xs → p x ≡ true → any p xs ≡ true
  unfolding any
  Has-any [] x m h = absurd (none_in m)
  Has-any (y ∷ xs) x (inl e) h = rw (← e, h)
  Has-any (y ∷ xs) x (inr m) h = rw (Has-any xs x m h) (ground arith)

  pub any-append : (xs ys : List A) → any p (xs ++ ys) ≡ (any p xs || any p ys)
  unfolding any
  any-append [] ys = refl
  any-append (x ∷ xs) ys = ground (arith, any-append xs ys)

  pub Has-filter : (xs : List A) (x : A) → Has x (filter p xs) ↔ (Has x xs × (p x ≡ true))
  unfolding filter
  Has-filter [] x = (λ h. absurd (none_in h), λ h. absurd (none_in h.0))
  Has-filter (y ∷ xs) x = elim (Bool-cases (p y)) [
    | inl t ↦ rw t (
      λ h. elim h [
        | inl e ↦ (inl e, rw e t)
        | inr m ↦ let (i, q) = (Has-filter xs x).0 m in (inr i, q)
      ],
      λ (h, q). elim h [ inl e ↦ inl e | inr m ↦ inr ((Has-filter xs x).1 (m, q)) ],
    )
    | inr f ↦ rw f (
      λ h. let (i, q) = (Has-filter xs x).0 h in (inr i, q),
      λ (h, q). elim h [
        | inl e ↦ absurd (ground (arith, ap p e))
        | inr m ↦ (Has-filter xs x).1 (m, q)
      ],
    )
  ]

-- Every element passes a test, as a test.
unfoldable pub all_true {ℓ} : {A : Type ℓ} → (A → Bool) → List A → Bool
all_true p [] = true
all_true p (x ∷ xs) = p x && all_true p xs

pub all_true-All {ℓ} :
    {A : Type ℓ} (p : A → Bool) (xs : List A) → all_true p xs ≡ true → All (λ x. p x ≡ true) xs
unfolding all_true
all_true-All p [] h = tt
all_true-All p (x ∷ xs) h = (ground arith, all_true-All p xs (ground arith))

pub All-map {ℓ κ μ} :
    {A : Type ℓ} {P : A → Type κ} {Q : A → Type μ} (f : (x : A) → P x → Q x) (xs : List A)
    → All P xs
    → All Q xs
All-map f [] h = tt
All-map f (x ∷ xs) h = (f x h.0, All-map f xs h.1)
