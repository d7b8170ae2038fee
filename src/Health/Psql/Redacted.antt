-- ===== src/Health/Psql/Redacted.antt =====
-- What the probe of a PQS database discloses: cli/internal/pqs/pqs.go.
use canton_localnet.Base.{
  ◌≡◌, refl, sym, ◌∙◌, ℕ, zero, suc, ◌-◌, Bool, true, false, Text, [], ◌∷◌, Option, none, some, ok,
  has_prefix, contains, is_empty, any, ◌==◌, length, trim_space, trim_left_by, trim_right_by,
  is_space, if◌then◌else◌, arith, Bool-cases, inl, inr, subst, ok-injective, &&-eq_true,
}
use canton_localnet.Health.Psql.{
  Connection, Output, Command, stars_from, redact, psql_command, probe_result, psql_probe,
}

abbrev star : ℕ → Bool
star c = c == b'*'

-- The output of the scan begins with a text without a star only if the input does.
stars_from-prefix :
    (secret t p : Text)
    → any star p ≡ false
    → has_prefix (stars_from secret zero t) p ≡ true
    → has_prefix t p ≡ true
unfolding stars_from has_prefix any
stars_from-prefix secret t [] f h = refl
stars_from-prefix secret [] (x ∷ p) f h = h
stars_from-prefix secret (c ∷ t) (x ∷ p) f h = elim (Bool-cases (has_prefix (c ∷ t) secret)) [
  | inl e ↦ absurd (ground (arith, f, rw e at h))
  | inr e ↦ ground (arith, f, rw e at h, stars_from-prefix secret t p)
]

starred :
    (s : Text) (x : ℕ) (rest : Text)
    → any star (x ∷ s) ≡ false
    → contains rest (x ∷ s) ≡ false
    → contains (b'*' ∷ b'*' ∷ b'*' ∷ rest) (x ∷ s) ≡ false
unfolding contains has_prefix any
starred s x rest f h = ground (arith, f, h)

contains-stars_from :
    (x : ℕ) (s : Text) (skip : ℕ) (t : Text)
    → any star (x ∷ s) ≡ false
    → contains (stars_from (x ∷ s) skip t) (x ∷ s) ≡ false
unfolding stars_from contains
contains-stars_from x s skip [] f = unfold has_prefix in refl
contains-stars_from x s (suc skip) (c ∷ t) f = contains-stars_from x s skip t f
contains-stars_from x s zero (c ∷ t) f = elim (Bool-cases (has_prefix (c ∷ t) (x ∷ s))) [
  | inl e ↦ rw e (starred s x _ f (contains-stars_from x s (length (x ∷ s) - 1) t f))
  | inr e ↦ rw e (
      kept_at (has_prefix (c ∷ stars_from (x ∷ s) zero t) (x ∷ s)) refl e
        (λ h. stars_from-prefix (x ∷ s) (c ∷ t) (x ∷ s) f (rw e h))
        (contains-stars_from x s zero t f))
]
  where
    kept_at :
        (b : Bool)
        → has_prefix (c ∷ stars_from (x ∷ s) zero t) (x ∷ s) ≡ b
        → has_prefix (c ∷ t) (x ∷ s) ≡ false
        → (has_prefix (c ∷ stars_from (x ∷ s) zero t) (x ∷ s) ≡ true
            → has_prefix (c ∷ t) (x ∷ s) ≡ true)
        → contains (stars_from (x ∷ s) zero t) (x ∷ s) ≡ false
        → contains (c ∷ stars_from (x ∷ s) zero t) (x ∷ s) ≡ false
    kept_at false q e k g = rw q g
    kept_at true q e k g = let r : true ≡ false = sym (k q) ∙ e in cc

redact-contains :
    (text secret : Text)
    → is_empty secret ≡ false
    → any star secret ≡ false
    → contains (redact text secret) secret ≡ false
unfolding redact
redact-contains text [] n f = cc
redact-contains text (x ∷ s) n f = contains-stars_from x s zero text f

contains-trim_left :
    (p : ℕ → Bool) (t s : Text) → contains t s ≡ false → contains (trim_left_by p t) s ≡ false
unfolding contains trim_left_by
contains-trim_left p [] s h = h
contains-trim_left p (c ∷ t) s h = elim (Bool-cases (p c)) [
  | inl e ↦ rw e (contains-trim_left p t s (ground (arith, h)))
  | inr e ↦ rw e h
]

has_prefix-trim_right :
    (p : ℕ → Bool) (t s : Text) → has_prefix (trim_right_by p t) s ≡ true → has_prefix t s ≡ true
unfolding has_prefix trim_right_by
has_prefix-trim_right p t [] h = refl
has_prefix-trim_right p [] (x ∷ s) h = h
has_prefix-trim_right p (c ∷ t) (x ∷ s) h = step (trim_right_by p t) (has_prefix-trim_right p t s) h
  where
    step :
        (u : Text)
        → (has_prefix u s ≡ true → has_prefix t s ≡ true)
        → has_prefix
            (elim u as (λ _. Text) [ [] ↦ if p c then [] else c ∷ [] | d ∷ ds ↦ c ∷ d ∷ ds ])
            (x ∷ s)
          ≡ true
        → has_prefix (c ∷ t) (x ∷ s) ≡ true
    step [] k q = elim (Bool-cases (p c)) [
      | inl e ↦ absurd (ground (arith, rw e at q))
      | inr e ↦ let (a, b) = &&-eq_true (c == x) (has_prefix [] s) (rw e at q) in rw (a, k b) refl
    ]
    step (d ∷ ds) k q =
        let (a, b) = &&-eq_true (c == x) (has_prefix (d ∷ ds) s) q in rw (a, k b) refl

contains-trim_right :
    (p : ℕ → Bool) (t s : Text) → contains t s ≡ false → contains (trim_right_by p t) s ≡ false
unfolding contains trim_right_by
contains-trim_right p [] s h = h
contains-trim_right p (c ∷ t) s h =
    step (trim_right_by p t) (contains-trim_right p t s (ground (arith, h)))
      (has_prefix-trim_right p (c ∷ t) s)
  where
    without :
        (u : Text) → (has_prefix u s ≡ true → has_prefix (c ∷ t) s ≡ true) → has_prefix u s ≡ false
    without u k = elim (Bool-cases (has_prefix u s)) [
      | inl e ↦ absurd (ground (arith, h, k e))
      | inr e ↦ e
    ]

    step :
        (u : Text)
        → contains u s ≡ false
        → (has_prefix
                (elim u as (λ _. Text) [ [] ↦ if p c then [] else c ∷ [] | d ∷ ds ↦ c ∷ d ∷ ds ])
                s
              ≡ true
            → has_prefix (c ∷ t) s ≡ true)
        → contains
            (elim u as (λ _. Text) [ [] ↦ if p c then [] else c ∷ [] | d ∷ ds ↦ c ∷ d ∷ ds ])
            s
          ≡ false
    step [] g k = elim (Bool-cases (p c)) [
      | inl e ↦ rw e g
      | inr e ↦ rw e (rw (without (c ∷ []) (rw e at k)) g)
    ]
    step (d ∷ ds) g k = rw (without (c ∷ d ∷ ds) k) g

-- Where the password is not empty and has no star in it, the value that `PsqlProbe` returns does not
-- contain the password, whatever the command writes.
pub psql_probe-contains :
    (run : Command → Output) (container value : Text) (conn : Connection)
    → is_empty conn.password ≡ false
    → any star conn.password ≡ false
    → psql_probe run container conn ≡ ok value
    → contains value conn.password ≡ false
unfolding psql_probe probe_result trim_space
psql_probe-contains run container value conn n f h =
    let out = run (psql_command container conn) in
    shown out.failure (redact out.combined conn.password)
      (redact-contains out.combined conn.password n f) h
  where
    shown :
        (o : Option Text) (text : Text)
        → contains text conn.password ≡ false
        → probe_result o text ≡ ok value
        → contains value conn.password ≡ false
    shown (some e) text c q = cc
    shown none text c q =
        subst (λ v. contains v conn.password ≡ false) (ok-injective (trim_space text) value q)
          (contains-trim_right is_space (trim_left_by is_space text) conn.password
            (contains-trim_left is_space text conn.password c))
