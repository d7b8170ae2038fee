-- ===== src/Health/Watermark.antt =====
-- Waiting for the watermark of a PQS database: cli/internal/pqs/pqs.go. Times and durations are
-- nanoseconds. The texts of the log are left out.
use canton_localnet.Base.{
  ◌≡◌, refl, sym, ℕ, zero, suc, ◌+◌, ◌*◌, ◌≤◌, ◌<◌, Bool, true, false, Text, lit, Option, none,
  some, Result, ok, err, is_empty, Bool-cases, inl, inr, subst, arith, if◌then◌else◌, [],
}

-- What one turn of the loop meets: the probe, the clock behind it, and whether the context ends the
-- `select`.
pub record Poll : Type 0 where
  pub probe : Result Text Text
  pub now : ℕ
  pub context_done : Bool

-- The offset that is found, or the last problem.
pub data Ending : Type 0 where
  following : Text → Ending
  watermark_timeout : Text → Ending

unfoldable pub offset_of : Result Text Text → Text
offset_of (ok offset) = offset
offset_of (err problem) = []

-- `lastProblem`
unfoldable pub problem_of : Result Text Text → Text
unfolding lit
problem_of (ok offset) = lit "latest_offset() is NULL"
problem_of (err problem) = problem

module _ (polls : ℕ → Poll) where
  -- The loop of `WaitWatermark` from its turn `n`.
  unfoldable pub watermark_turns : ℕ → ℕ → Option Ending
  unfolding offset_of problem_of
  watermark_turns zero n = none
  watermark_turns (suc fuel) n =
      let later = watermark_turns fuel (suc n) in
      if is_empty (offset_of (polls n).probe)
      then (if (polls n).context_done
          then some (watermark_timeout (problem_of (polls n).probe))
          else later)
      else some (following (offset_of (polls n).probe))

-- `WaitWatermark`
unfoldable pub wait_watermark : (ℕ → Poll) → ℕ → Option Ending
unfolding watermark_turns
wait_watermark polls fuel = watermark_turns polls fuel 0

module _ (polls : ℕ → Poll) (start timeout interval : ℕ)
    (clock : (n : ℕ) → (polls n).now + interval ≤ (polls (suc n)).now)
    (expires : (n : ℕ) → start + timeout ≤ (polls n).now → (polls n).context_done ≡ true) where
  watermark_turns-ends :
      (fuel n : ℕ)
      → n * interval < timeout + interval
      → timeout + interval ≤ (fuel + n) * interval
      → start + n * interval ≤ (polls n).now
      → (e : Ending) × (watermark_turns polls fuel n ≡ some e)
  unfolding watermark_turns
  watermark_turns-ends zero n a b c =
      let e : 0 + n ≡ n = omega arith in
      absurd (under (subst (λ y. timeout + interval ≤ y * interval) e b))
    where
      under : timeout + interval ≤ n * interval → ⊥
      under q = omega (arith, a, q)
  watermark_turns-ends (suc fuel) n a b c =
      elim (Bool-cases (is_empty (offset_of (polls n).probe))) [
        | inr e ↦ (following (offset_of (polls n).probe), rw e refl)
        | inl e ↦ elim (Bool-cases (polls n).context_done) [
          | inl d ↦ (watermark_timeout (problem_of (polls n).probe), rw (e, d) refl)
          | inr d ↦
              let m : suc n * interval ≡ n * interval + interval = grind arith in
              let f : (suc fuel + n) ≡ fuel + suc n = omega arith in
              let (x, q) =
                watermark_turns-ends fuel (suc n) (omega (arith, m, early d))
                  (subst (λ y. timeout + interval ≤ y * interval) f b)
                  (omega (arith, m, c, clock n)) in
              (x, rw (e, d) q)
        ]
      ]
    where
      early : (polls n).context_done ≡ false → n * interval < timeout
      early d = ground (arith, c, expires n)

  -- Where each turn comes a poll interval above 0 after the one before, the first not before the start,
  -- and the context is done from the deadline on, the wait ends within any number of turns whose
  -- intervals are at least the timeout and one interval more.
  wait_watermark-ends :
      (fuel : ℕ)
      → 0 < interval
      → start ≤ (polls 0).now
      → timeout + interval ≤ fuel * interval
      → (e : Ending) × (wait_watermark polls fuel ≡ some e)
  unfolding wait_watermark
  wait_watermark-ends fuel p first enough =
      let e : fuel + 0 ≡ fuel = omega arith in
      watermark_turns-ends fuel 0 (omega (arith, p))
        (subst (λ y. timeout + interval ≤ y * interval) (sym e) enough) (omega (arith, first))
