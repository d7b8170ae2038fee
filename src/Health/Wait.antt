-- ===== src/Health/Wait.antt =====
-- How a wait ends: cli/internal/health/health.go.
use canton_localnet.Base.{
  ◌≡◌, refl, sym, ap, ◌∙◌, ℕ, ℤ, pos, negsuc, zero, suc, ◌+◌, ◌*◌, ◌≤◌, ◌<◌, Bool, true, false,
  Text, Option, none, some, arith, subst, ltb, ◌==◌, inl, inr, Bool-cases, Option-cases, ◌⊎◌,
}
use canton_localnet.Health.{
  Options, Context, alive, deadline_exceeded, cancelled, Probe, status, failure, Attempt, Ending,
  ready, aborted, time_out, is_ready, status_after, err_after, or_default, timeout_of, poll_of,
  url_of, turns, wait_ready,
}

poll_of-positive : (opts : Options) → 0 < poll_of opts
unfolding poll_of
poll_of-positive opts = positive opts.poll_interval
  where
    positive : (d : ℤ) → 0 < or_default 5000000000 d
    positive (pos zero) = unfold or_default in omega arith
    positive (pos (suc n)) = unfold or_default in omega arith
    positive (negsuc n) = unfold or_default in omega arith

is_ready-status : (p : Probe) → is_ready p ≡ true → p ≡ status 200
is_ready-status (status n) h = let e : n ≡ 200 = ground arith in ap status e
is_ready-status (failure e) h = cc

time_out-not_ready :
    (url : Text) (c : Context) (seen : ℕ) (err_seen : Option Text) (k : ℕ)
    → time_out url c seen err_seen ≡ ready k
    → ⊥
unfolding time_out
time_out-not_ready url alive seen err_seen k h = cc
time_out-not_ready url deadline_exceeded seen err_seen k h = cc
time_out-not_ready url cancelled seen err_seen k h = cc

module _ (url : Text) (poll start timeout : ℕ) (attempts : ℕ → Attempt) where
  abbrev is_late : ℕ → Bool
  is_late n = ltb (start + timeout) ((attempts n).now + poll)

  -- What ends the wait on a turn that is not ready.
  abbrev Stops : ℕ → Type 0
  Stops n =
      ((e : Text) × ((attempts n).abort ≡ some e))
      ⊎ ((is_late n ≡ true) ⊎ ((c : Context) × ((attempts n).interrupt ≡ some c)))

  abbrev loop : ℕ → ℕ → ℕ → Option Text → Option Ending
  loop = turns url poll (start + timeout) attempts

  abbrev Stopped : ℕ → Option Ending → Type 0
  Stopped n r = (e : Ending) × (r ≡ some e) × ((k : ℕ) → e ≡ ready k → ⊥) × Stops n

  abbrev NotReady : ℕ → Type 0
  NotReady n = (attempts n).probe ≡ status 200 → ⊥

  turns-cases :
      (fuel n seen : ℕ) (err_seen : Option Text)
      → (((attempts n).probe ≡ status 200) × (loop (suc fuel) n seen err_seen ≡ some (ready n)))
        ⊎ ((NotReady n × Stopped n (loop (suc fuel) n seen err_seen))
            ⊎ (NotReady n
                × (is_late n ≡ false)
                × (loop (suc fuel) n seen err_seen
                    ≡ loop fuel
                        (suc n)
                        (status_after (attempts n).probe seen)
                        (err_after (attempts n).probe err_seen))))
  unfolding turns
  turns-cases fuel n seen err_seen = elim (Bool-cases (is_ready (attempts n).probe)) [
    | inl r ↦ inl (is_ready-status (attempts n).probe r, rw r refl)
    | inr r ↦ elim (Option-cases (attempts n).abort) [
      | inr (e, f) ↦ inr (inl (other r, (aborted e, rw (r, f) refl, (λ k q. cc), inl (e, f))))
      | inl f ↦ elim (Bool-cases (is_late n)) [
        | inl l ↦
            let t = time_out url (attempts n).context seen' err_seen' in
            inr (
              inl (
                other r,
                (
                  t,
                  rw (r, f, l) refl,
                  time_out-not_ready url (attempts n).context seen' err_seen',
                  inr (inl l),
                ),
              ))
        | inr l ↦ elim (Option-cases (attempts n).interrupt) [
          | inr (c, g) ↦
              let t = time_out url c seen' err_seen' in
              inr (
                inl (
                  other r,
                  (
                    t,
                    rw (r, f, l, g) refl,
                    time_out-not_ready url c seen' err_seen',
                    inr (inr (c, g)),
                  ),
                ))
          | inl g ↦ inr (inr (other r, l, rw (r, f, l, g) refl))
        ]
      ]
    ]
  ]
    where
      other : is_ready (attempts n).probe ≡ false → NotReady n
      other r h = let e : false ≡ true = sym r ∙ ap is_ready h in cc

      seen' : ℕ
      seen' = status_after (attempts n).probe seen

      err_seen' : Option Text
      err_seen' = err_after (attempts n).probe err_seen

  turns-ends :
      ((n : ℕ) → (attempts n).now + poll ≤ (attempts (suc n)).now)
      → (fuel n seen : ℕ) (err_seen : Option Text) → n * poll ≤ timeout
      → timeout < (fuel + n) * poll
      → start + n * poll ≤ (attempts n).now
      → (e : Ending) × (loop fuel n seen err_seen ≡ some e)
  turns-ends clock zero n seen err_seen a b c =
      let e : 0 + n ≡ n = omega arith in
      absurd (ground (arith, subst (λ y. timeout < y * poll) e b))
  turns-ends clock (suc fuel) n seen err_seen a b c = elim (turns-cases fuel n seen err_seen) [
    | inl (p, q) ↦ (ready n, q)
    | inr (inl (x, (e, q, k, s))) ↦ (e, q)
    | inr (inr (x, l, q)) ↦
        let m : suc n * poll ≡ n * poll + poll = grind arith in
        let d : (suc fuel + n) ≡ fuel + suc n = omega arith in
        let (e, r) =
          turns-ends clock fuel (suc n) (status_after (attempts n).probe seen)
            (err_after (attempts n).probe err_seen) (ground (arith, m))
            (subst (λ y. timeout < y * poll) d b) (omega (arith, m, c, clock n)) in
        (e, q ∙ r)
  ]

  turns-status :
      (fuel n seen : ℕ) (err_seen : Option Text) (k : ℕ)
      → loop fuel n seen err_seen ≡ some (ready k)
      → (attempts k).probe ≡ status 200
  turns-status zero n seen err_seen k h = absurd (out h)
    where
      out : loop zero n seen err_seen ≡ some (ready k) → ⊥
      out q = unfold turns in ground arith
  turns-status (suc fuel) n seen err_seen k h = elim (turns-cases fuel n seen err_seen) [
    | inl (p, q) ↦
        let e : some (ready n) ≡ some (ready k) = sym q ∙ h in
        let f : n ≡ k = cc in subst (λ j. (attempts j).probe ≡ status 200) f p
    | inr (inl (x, (e, q, g, s))) ↦ let f : some e ≡ some (ready k) = sym q ∙ h in absurd (g k cc)
    | inr (inr (x, l, q)) ↦ turns-status fuel (suc n) _ _ k (sym q ∙ h)
  ]

  turns-ready :
      (k : ℕ)
      → (attempts k).probe ≡ status 200
      → ((j : ℕ) → j < k → Stops j → ⊥)
      → (fuel n seen : ℕ) (err_seen : Option Text) → n ≤ k
      → k < fuel + n
      → (j : ℕ) × (j ≤ k) × (loop fuel n seen err_seen ≡ some (ready j))
  turns-ready k p go zero n seen err_seen a b = absurd (omega (arith, a, b))
  turns-ready k p go (suc fuel) n seen err_seen a b = elim (turns-cases fuel n seen err_seen) [
    | inl (r, q) ↦ (n, a, q)
    | inr (inl (x, (e, q, g, s))) ↦ absurd (go n (before x) s)
    | inr (inr (x, l, q)) ↦
        let c : n < k = before x in
        let (j, d, h) =
          turns-ready k p go fuel (suc n) (status_after (attempts n).probe seen)
            (err_after (attempts n).probe err_seen) (omega (arith, c)) (omega (arith, b)) in
        (j, d, q ∙ h)
  ]
    where
      before : NotReady n → n < k
      before x = elim (Bool-cases (n == k)) [
        | inl e ↦
            let f : k ≡ n = ground arith in
            absurd (x (subst (λ j. (attempts j).probe ≡ status 200) f p))
        | inr e ↦ ground (arith, a)
      ]

-- Where each turn comes a poll interval or more after the one before, and the first not before the
-- start, the wait ends within any number of turns whose poll intervals exceed the timeout.
pub wait_ready-ends :
    (opts : Options) (start : ℕ) (attempts : ℕ → Attempt) (fuel : ℕ)
    → ((n : ℕ) → (attempts n).now + poll_of opts ≤ (attempts (suc n)).now)
    → start ≤ (attempts 0).now
    → timeout_of opts < fuel * poll_of opts
    → (e : Ending) × (wait_ready opts start attempts fuel ≡ some e)
unfolding wait_ready
wait_ready-ends opts start attempts fuel clock first enough =
    turns-ends (url_of opts) (poll_of opts) start (timeout_of opts) attempts clock fuel 0 0 none
      (omega arith)
      (let e : fuel + 0 ≡ fuel = omega arith in
        subst (λ y. timeout_of opts < y * poll_of opts) (sym e) enough)
      (omega (arith, first))

-- A wait that ends as ready names a turn that has met the status 200.
wait_ready-status :
    (opts : Options) (start : ℕ) (attempts : ℕ → Attempt) (fuel k : ℕ)
    → wait_ready opts start attempts fuel ≡ some (ready k)
    → (attempts k).probe ≡ status 200
unfolding wait_ready
wait_ready-status opts start attempts fuel k h =
    turns-status (url_of opts) (poll_of opts) start (timeout_of opts) attempts fuel 0 0 none k h

-- If turn `k` meets the status 200, and on no turn before it `Abort` fails, the next poll would pass the
-- deadline, or the context ends the sleep, then the wait, given more than `k` turns, ends as ready on
-- a turn up to `k`, which has met the status 200.
pub wait_ready-ready :
    (opts : Options) (start : ℕ) (attempts : ℕ → Attempt) (fuel k : ℕ)
    → (attempts k).probe ≡ status 200
    → ((j : ℕ) → j < k → (attempts j).abort ≡ none)
    → ((j : ℕ) → j < k → (attempts j).now + poll_of opts ≤ start + timeout_of opts)
    → ((j : ℕ) → j < k → (attempts j).interrupt ≡ none)
    → k < fuel
    → (j : ℕ) × (j ≤ k)
      × (wait_ready opts start attempts fuel ≡ some (ready j))
      × ((attempts j).probe ≡ status 200)
unfolding wait_ready
wait_ready-ready opts start attempts fuel k p calm early awake enough =
    let (j, l, h) =
      turns-ready (url_of opts) (poll_of opts) start (timeout_of opts) attempts k p goes fuel 0 0
        none (omega arith) (omega (arith, enough)) in
    (j, l, h, wait_ready-status opts start attempts fuel j (unfold wait_ready in h))
  where
    goes :
        (j : ℕ) → j < k → Stops (url_of opts) (poll_of opts) start (timeout_of opts) attempts j → ⊥
    goes j l (inl (e, f)) = let g : none ≡ some e = sym (calm j l) ∙ f in cc
    goes j l (inr (inl f)) = ground (arith, early j l)
    goes j l (inr (inr (c, f))) = let g : none ≡ some c = sym (awake j l) ∙ f in cc
