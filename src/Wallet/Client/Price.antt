-- ===== src/Wallet/Client/Price.antt =====
-- The round that `AmuletPrice` picks: cli/internal/wallet/fund.go.
use canton_localnet.Base.{
  ◌≡◌, refl, sym, ap, ◌∙◌, ℕ, ◌≤◌, ◌<◌, true, false, Text, List, [], ◌∷◌, Option, none, some,
  Result, ok, err, arith, ltb, is_empty, All, Has, inl, inr, Bool-cases, ok-injective, ◌⊎◌, none_in,
}
use canton_localnet.Wallet.Client.{Round, WalletError, bad_opens_at, next_round, pick_round}

next_round-cases :
    (now o : ℕ) (next_price : Text) (latest : ℕ) (price : Text)
    → ((next_round now o next_price latest price ≡ (latest, price))
        × ((now < o) ⊎ ((is_empty price ≡ false) × (o ≤ latest))))
      ⊎ ((next_round now o next_price latest price ≡ (o, next_price))
          × (o ≤ now)
          × ((is_empty price ≡ true) ⊎ (latest ≤ o)))
unfolding next_round
next_round-cases now o next_price latest price = elim (Bool-cases (ltb now o)) [
  | inl a ↦ inl (rw a refl, inl (ground arith))
  | inr a ↦ elim (Bool-cases (is_empty price)) [
    | inl b ↦ inr (rw (a, b) refl, ground arith, inl b)
    | inr b ↦ elim (Bool-cases (ltb latest o)) [
      | inl c ↦ inr (rw (a, b, c) refl, ground arith, inr (ground arith))
      | inr c ↦ inl (rw (a, b, c) refl, inr (b, ground arith))
    ]
  ]
]

module _ (parse_time : Text → Option ℕ) (now : ℕ) (p : Text) (named : is_empty p ≡ false) where
  -- The price picked is that of a round of the list which opened at `at`, or the one before the loop.
  abbrev IsFrom : List Round → ℕ → Text → ℕ → Type 0
  IsFrom rounds latest price at =
      ((p ≡ price) × (at ≡ latest))
      ⊎ ((r : Round) × Has r rounds
          × (parse_time r.opens_at ≡ some at)
          × (at ≤ now)
          × (r.amulet_price ≡ p))

  abbrev IsLatest : List Round → ℕ → Type 0
  IsLatest rounds at =
      (r : Round) (o : ℕ) → Has r rounds → parse_time r.opens_at ≡ some o → o ≤ now → o ≤ at

  abbrev Picked : List Round → ℕ → Text → Type 0
  Picked rounds latest price =
      (at : ℕ) × IsFrom rounds latest price at
      × IsLatest rounds at
      × (is_empty price ≡ false → latest ≤ at)

  abbrev IsNamed : Round → Type 0
  IsNamed r = is_empty r.amulet_price ≡ false

  -- A round that is passed over.
  passed :
      (r : Round) (rounds : List Round) (latest o : ℕ) (price : Text)
      → parse_time r.opens_at ≡ some o
      → Picked rounds latest price
      → ((at : ℕ) → (is_empty price ≡ false → latest ≤ at) → o ≤ now → o ≤ at)
      → Picked (r ∷ rounds) latest price
  passed r rounds latest o price e (at, from, last, low) k = (at, widen from, bound, low)
    where
      widen : IsFrom rounds latest price at → IsFrom (r ∷ rounds) latest price at
      widen (inl q) = inl q
      widen (inr (x, h, q, f, g)) = inr (x, inr h, q, f, g)

      bound : IsLatest (r ∷ rounds) at
      bound x q (inl i) f l =
          let same : some o ≡ some q = sym e ∙ (ap (λ y. parse_time y.opens_at) (sym i) ∙ f) in
          ground (arith, same, k at low)
      bound x q (inr h) f l = last x q h f l

  -- A round that is taken.
  taken :
      (r : Round) (rounds : List Round) (latest o : ℕ) (price : Text)
      → parse_time r.opens_at ≡ some o
      → IsNamed r
      → o ≤ now
      → (is_empty price ≡ false → latest ≤ o)
      → Picked rounds o r.amulet_price
      → Picked (r ∷ rounds) latest price
  taken r rounds latest o price e n l lower (at, from, last, low) = (
    at,
    widen from,
    bound,
    λ q. let a : latest ≤ o = lower q in let b : o ≤ at = low n in omega (arith, a, b),
  )
    where
      widen : IsFrom rounds o r.amulet_price at → IsFrom (r ∷ rounds) latest price at
      widen (inl (q, f)) = inr (r, inl refl, e ∙ ap some (sym f), rw f l, sym q)
      widen (inr (x, h, q, f, g)) = inr (x, inr h, q, f, g)

      bound : IsLatest (r ∷ rounds) at
      bound x q (inl i) f m =
          let same : some o ≡ some q = sym e ∙ (ap (λ y. parse_time y.opens_at) (sym i) ∙ f) in
          ground (arith, same, low n)
      bound x q (inr h) f m = last x q h f m

  pick_round-Picked :
      (rounds : List Round) (latest : ℕ) (price : Text)
      → All IsNamed rounds
      → pick_round parse_time now rounds latest price ≡ ok p
      → Picked rounds latest price
  unfolding pick_round
  pick_round-Picked [] latest price n h = (
    latest,
    inl (sym (ok-injective price p h), refl),
    λ r o i. absurd (none_in i),
    λ q. omega arith,
  )
  pick_round-Picked (r ∷ rounds) latest price n h =
      step (parse_time r.opens_at) refl h (λ at q. pick_round-Picked rounds at q n.1)
    where
      step :
          (o : Option ℕ)
          → parse_time r.opens_at ≡ o
          → elim o as (λ _. Result WalletError Text) [
            | none ↦ err bad_opens_at
            | some opens_at ↦
                let (latest', price') = next_round now opens_at r.amulet_price latest price in
                pick_round parse_time now rounds latest' price'
          ]
            ≡ ok p
          → ((at : ℕ) (q : Text)
              → pick_round parse_time now rounds at q ≡ ok p
              → Picked rounds at q)
          → Picked (r ∷ rounds) latest price
      step none e k rec = cc
      step (some o) e k rec = elim (next_round-cases now o r.amulet_price latest price) [
        | inl (f, c) ↦ passed r rounds latest o price e (rec latest price (rw f at k)) (λ at low l.
            elim c [
              | inl late ↦ absurd (omega (arith, late, l))
              | inr (named', before) ↦ let a : latest ≤ at = low named' in omega (arith, a, before)
            ])
        | inr (f, l, c) ↦
            taken r rounds latest o price e n.0 l (λ q. elim c [ inl blank ↦ cc | inr a ↦ a ])
              (rec o r.amulet_price (rw f at k))
      ]

-- Where every round has a price, and one of them has opened at `o`, by now, the loop of `AmuletPrice`,
-- if it ends with a price and no error, ends with that of a round that has opened by now, and at `o`
-- or later.
pub pick_round-latest :
    (parse_time : Text → Option ℕ) (now : ℕ) (rounds : List Round) (price : Text) (r : Round)
    (o : ℕ)
    → All (λ x. is_empty x.amulet_price ≡ false) rounds
    → pick_round parse_time now rounds 0 [] ≡ ok price
    → is_empty price ≡ false
    → Has r rounds
    → parse_time r.opens_at ≡ some o
    → o ≤ now
    → (x : Round) × (at : ℕ) × Has x rounds
      × (x.amulet_price ≡ price)
      × (parse_time x.opens_at ≡ some at)
      × (at ≤ now)
      × (o ≤ at)
pick_round-latest parse_time now rounds price r o n h named i e l =
    let (at, from, last, low) = pick_round-Picked parse_time now price named rounds 0 [] n h in
    elim from [
      | inl (p, q) ↦ absurd (true_is_false (ap is_empty p))
      | inr (x, j, f, g, k) ↦ (x, at, j, k, f, g, last r o i e l)
    ]
  where
    true_is_false : is_empty price ≡ true → ⊥
    true_is_false q = cc
