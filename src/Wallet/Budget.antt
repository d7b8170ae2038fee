-- ===== src/Wallet/Budget.antt =====
-- The budget of the retry loop: `run` in cli/internal/wallet/retry.go.
use canton_localnet.Base.{
  ℕ, zero, suc, ◌+◌, ◌-◌, ◌≤◌, ◌<◌, ◌≡◌, refl, arith, Bool, false, Option, some, inl, inr, ltb,
  Bool-cases,
}
use canton_localnet.Wallet.{
  Answer, CallError, Ending, answered, interrupted, add_64, greater_64, delay_of, next_backoff,
  max_backoff, initial_backoff, budget_of, turns, run, two_63,
}

-- Half of the positive durations: about 146 years.
abbrev pub two_62 : ℕ
two_62 = 4611686018427387904

add_64-small : (a b : ℕ) → a < two_62 → b < two_62 → add_64 a b ≡ a + b
unfolding add_64
add_64-small a b h k = omega (arith, h, k)

delay-bounds :
    (got : Answer) (backoff : ℕ)
    → got.retry_after < two_62
    → 1 ≤ backoff
    → backoff ≤ max_backoff
    → (1 ≤ delay_of got backoff) × (delay_of got backoff < two_62)
unfolding delay_of greater_64
delay-bounds got backoff h low high = (ground arith, ground arith)

backoff-bounds : (b : ℕ) → 1 ≤ b → (1 ≤ next_backoff b) × (next_backoff b ≤ max_backoff)
unfolding next_backoff
backoff-bounds b low = (ground arith, ground arith)

greater-small : (a b : ℕ) → a < two_63 → b < two_63 → greater_64 a b ≡ ltb b a
unfolding greater_64
greater-small a b h k = ground arith

module _ (retryable : ℕ → Option CallError → Bool) (send : ℕ → Answer) (cut_short : ℕ → Bool)
    (budget : ℕ) (small : budget < two_62) (answers : (n : ℕ) → (send n).retry_after < two_62) where
  -- The loop ends within the fuel and within the budget.
  Ends : ℕ → ℕ → ℕ → ℕ → Type 0
  Ends fuel n waited backoff =
      (end : Ending) × (total : ℕ) × (turns retryable send cut_short budget fuel n waited backoff
        ≡ some (end, total))
      × (total ≤ budget)

  -- One turn, by what its tests say.
  turn-Ends :
      (fuel n waited backoff later : ℕ)
      → waited ≤ budget
      → add_64 waited (delay_of (send n) backoff) ≡ later
      → (greater_64 later budget ≡ false → Ends fuel (suc n) later (next_backoff backoff))
      → Ends (suc fuel) n waited backoff
  unfolding Ends turns
  turn-Ends fuel n waited backoff later w e next =
      elim (Bool-cases (retryable (send n).status (send n).call_error)) [
        | inr stop ↦ (answered (send n), waited, rw stop refl, w)
        | inl again ↦ elim (Bool-cases (greater_64 later budget)) [
          | inl over ↦ (answered (send n), waited, rw (again, e, over) refl, w)
          | inr under ↦ elim (Bool-cases (cut_short n)) [
            | inl cut ↦ (interrupted (send n), waited, rw (again, e, under, cut) refl, w)
            | inr slept ↦
                let (end, total, q, t) = next under in
                (end, total, rw (again, e, under, slept) q, t)
          ]
        ]
      ]

  turns-Ends :
      (fuel n waited backoff : ℕ)
      → waited ≤ budget
      → budget - waited < fuel
      → 1 ≤ backoff
      → backoff ≤ max_backoff
      → Ends fuel n waited backoff
  turns-Ends zero n waited backoff w f low high = absurd (omega (arith, f))
  turns-Ends (suc fuel) n waited backoff w f low high =
      let (dl, dh) = delay-bounds (send n) backoff (answers n) low high in
      let d = delay_of (send n) backoff in
      let (bl, bh) = backoff-bounds backoff low in
      turn-Ends fuel n waited backoff (waited + d) w
        (add_64-small waited d (omega (arith, w, small)) dh)
        (λ under.
          let le : waited + d ≤ budget = ground (
            arith,
            under,
            greater-small (waited + d) budget (omega (arith, w, small, dh)) (omega (arith, small)),
          ) in
          turns-Ends fuel (suc n) (waited + d) (next_backoff backoff) le (omega (arith, le, dl, f))
            bl bh)

-- With a budget and `Retry-After` delays below 146 years each, the retry loop ends, after at most
-- one turn more than the budget has nanoseconds, and the time it has waited is at most the budget.
pub run-Ends :
    (retryable : ℕ → Option CallError → Bool) (send : ℕ → Answer) (cut_short : ℕ → Bool)
    (budget : ℕ)
    → budget < two_62
    → ((n : ℕ) → (send n).retry_after < two_62)
    → (end : Ending) × (total : ℕ) × (run retryable send cut_short budget (suc (budget_of budget))
        ≡ some (end, total))
      × (total ≤ budget_of budget)
unfolding run Ends
run-Ends retryable send cut_short budget small answers =
    turns-Ends retryable send cut_short (budget_of budget) bound answers (suc (budget_of budget)) 0
      0 initial_backoff (omega arith) (omega arith) (omega arith) (omega arith)
  where
    bound : budget_of budget < two_62
    bound = unfold budget_of in ground arith
