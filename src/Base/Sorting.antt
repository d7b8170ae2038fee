-- ===== src/Base/Sorting.antt =====
-- What a sort returns: the same elements, in order.
use Prim.Native.Nat.{ℕ, ◌+◌}
use mathlib.Core.Path.{◌≡◌, refl}
use mathlib.Core.Logic.{◌⊎◌, inl, inr, ◌↔◌}
use mathlib.Core.Bool.{Bool, true, false}
use mathlib.Core.List.{List, [], ◌∷◌}
use native.Mathlib.Omega.{arith}
use canton_localnet.Base.Nat.{Bool-cases}
use canton_localnet.Base.Lists.{All, Has, sum_by, insert_by, sort_by}

module _ {ℓ} {A : Type ℓ} (less : A → A → Bool) where
  -- No element is less than one in front of it.
  abbrev pub IsSorted : List A → Type 0
  IsSorted [] = Unit
  IsSorted (x ∷ xs) = All (λ y. less y x ≡ false) xs × IsSorted xs

  sum_by-insert_by :
      (f : A → ℕ) (x : A) (xs : List A) → sum_by f (insert_by less x xs) ≡ f x + sum_by f xs
  unfolding insert_by sum_by
  sum_by-insert_by f x [] = refl
  sum_by-insert_by f x (y ∷ xs) = ground (arith, sum_by-insert_by f x xs)

  -- Sorting keeps every sum over the list, so it keeps how often each element stands in it.
  pub sum_by-sort_by : (f : A → ℕ) (xs : List A) → sum_by f (sort_by less xs) ≡ sum_by f xs
  unfolding sort_by sum_by
  sum_by-sort_by f [] = refl
  sum_by-sort_by f (x ∷ xs) =
      omega (arith, sum_by-insert_by f x (sort_by less xs), sum_by-sort_by f xs)

  Has-insert_by : (z x : A) (xs : List A) → Has z (insert_by less x xs) ↔ ((z ≡ x) ⊎ Has z xs)
  unfolding insert_by
  Has-insert_by z x [] = (λ h. h, λ h. h)
  Has-insert_by z x (y ∷ xs) = elim (Bool-cases (less y x)) [
    | inr f ↦ rw f (λ h. h, λ h. h)
    | inl t ↦ rw t (
      λ h. elim h [
        | inl e ↦ inr (inl e)
        | inr m ↦ elim ((Has-insert_by z x xs).0 m) [ inl e ↦ inl e | inr i ↦ inr (inr i) ]
      ],
      λ h. elim h [
        | inl e ↦ inr ((Has-insert_by z x xs).1 (inl e))
        | inr (inl e) ↦ inl e
        | inr (inr m) ↦ inr ((Has-insert_by z x xs).1 (inr m))
      ],
    )
  ]

  pub Has-sort_by : (z : A) (xs : List A) → Has z (sort_by less xs) ↔ Has z xs
  unfolding sort_by
  Has-sort_by z [] = (λ h. h, λ h. h)
  Has-sort_by z (x ∷ xs) = (
    λ h. elim ((Has-insert_by z x (sort_by less xs)).0 h) [
      | inl e ↦ inl e
      | inr m ↦ inr ((Has-sort_by z xs).0 m)
    ],
    λ h. elim h [
      | inl e ↦ (Has-insert_by z x (sort_by less xs)).1 (inl e)
      | inr m ↦ (Has-insert_by z x (sort_by less xs)).1 (inr ((Has-sort_by z xs).1 m))
    ],
  )

  module _ (asym : (x y : A) → less x y ≡ true → less y x ≡ false)
      (split : (x y z : A) → less z x ≡ true → (less z y ≡ true) ⊎ (less y x ≡ true)) where
    All-below :
        (x y : A) (ys : List A)
        → less y x ≡ false
        → All (λ z. less z y ≡ false) ys
        → All (λ z. less z x ≡ false) ys
    All-below x y [] h a = tt
    All-below x y (z ∷ ys) h a = (
      elim (Bool-cases (less z x)) [
        | inr f ↦ f
        | inl t ↦ elim (split x y z t) [
          | inl u ↦ absurd (ground arith)
          | inr u ↦ absurd (ground arith)
        ]
      ],
      All-below x y ys h a.1,
    )

    All-insert_by :
        (x y : A) (ys : List A)
        → less x y ≡ false
        → All (λ z. less z y ≡ false) ys
        → All (λ z. less z y ≡ false) (insert_by less x ys)
    unfolding insert_by
    All-insert_by x y [] h a = (h, tt)
    All-insert_by x y (z ∷ ys) h a = elim (Bool-cases (less z x)) [
      | inl t ↦ rw t (a.0, All-insert_by x y ys h a.1)
      | inr f ↦ rw f (h, a)
    ]

    insert_by-IsSorted : (x : A) (ys : List A) → IsSorted ys → IsSorted (insert_by less x ys)
    unfolding insert_by
    insert_by-IsSorted x [] s = (tt, tt)
    insert_by-IsSorted x (y ∷ ys) s = elim (Bool-cases (less y x)) [
      | inl t ↦ rw t (All-insert_by x y ys (asym y x t) s.0, insert_by-IsSorted x ys s.1)
      | inr f ↦ rw f ((f, All-below x y ys f s.0), s)
    ]

    pub sort_by-IsSorted : (xs : List A) → IsSorted (sort_by less xs)
    unfolding sort_by
    sort_by-IsSorted [] = tt
    sort_by-IsSorted (x ∷ xs) = insert_by-IsSorted x (sort_by less xs) (sort_by-IsSorted xs)
