-- ===== src/Tests/Waiting.antt =====
-- The theorems on waiting for readiness, on callers that wait for a token, and on the probe of a PQS
-- database, applied to runs.
use canton_localnet.Base.{
  ◌≡◌, refl, ℕ, zero, suc, ◌+◌, ◌*◌, ◌≤◌, true, false, [], ◌∷◌, none, some, ok, err, arith, inl,
  inr, pos, Has, lit, contains, has_prefix, trim_space, trim_left_by, trim_right_by, is_space, any,
}
use canton_localnet.Health.{
  Options, Attempt, alive, status, Ending, ready, wait_ready, timeout_of, poll_of, or_default,
}
use canton_localnet.Health.Wait.{wait_ready-ends, wait_ready-ready}
use canton_localnet.Fixture.TokenProvider.{
  entering, waiting, leading, returned, no_answer, is_closed, enter, finish, wake, fetch_token,
  token_is_fresh, after_leader, transport,
}
use canton_localnet.Fixture.TokenProvider.Steps.{
  World, start, Moves, here, there, Step, call, enters, wakes, finishes, Reach, stay, next, issue,
}
use canton_localnet.Fixture.TokenProvider.OneFetch.{Runs, idle, view, Reach-Runs}
use canton_localnet.Fixture.TokenProvider.Progress.{token_of, waiting-goes_on}
use canton_localnet.Health.Psql.{
  Connection, Command, Output, psql_probe, probe_result, redact, stars_from,
}
use canton_localnet.Health.Psql.Redacted.{psql_probe-contains}

abbrev options : Options
options = record { url = []; timeout = pos 10; poll_interval = pos 3 }

-- Not ready before the third turn.
abbrev attempt : ℕ → Attempt
attempt n = record {
  probe = status (pick n);
  abort = none;
  now = 100 + n * 3;
  context = alive;
  interrupt = none;
}
  where
    pick : ℕ → ℕ
    pick zero = 503
    pick (suc zero) = 404
    pick (suc (suc n)) = 200

wait_ready-ends_example : (e : Ending) × (wait_ready options 100 attempt 4 ≡ some e)
wait_ready-ends_example =
    wait_ready-ends options 100 attempt 4 (λ n. unfold poll_of or_default in grind arith)
      (omega arith) (unfold timeout_of poll_of or_default in omega arith)

wait_ready-ready_example :
    (j : ℕ) × (j ≤ 2)
    × (wait_ready options 100 attempt 3 ≡ some (ready j))
    × ((attempt j).probe ≡ status 200)
wait_ready-ready_example =
    wait_ready-ready options 100 attempt 3 2 refl (λ j l. refl)
      (λ j l. unfold timeout_of poll_of or_default in omega (arith, l)) (λ j l. refl) (omega arith)

-- Two calls come in; one fetches, and the other waits.
abbrev first : World
first = record start { phases = entering ∷ entering ∷ [] }

abbrev led : World
led = record first { provider = (enter 0 first.provider).0; phases = leading ∷ entering ∷ [] }

abbrev both : World
both = record led { phases = leading ∷ waiting 1 ∷ [] }

Reach-led : Reach start led
unfolding enter token_is_fresh
Reach-led = next (next (next stay (call refl)) (call refl)) (enters 0 (here (entering ∷ [])) refl)

Reach-both : Reach start both
unfolding enter token_is_fresh
Reach-both = next Reach-led (enters 0 (there leading (here [])) refl)

Reach-Runs_example : Runs idle (view both)
Reach-Runs_example = Reach-Runs both Reach-both

waiting-goes_on_example :
    Has leading both.phases
    × ((u : World) × Step both u
        × Moves leading (returned (token_of (fetch_token 0 (no_answer true)))) both.phases u.phases
        × (u.issued ≡ issue (fetch_token 0 (no_answer true)) both.issued)
        × (u.provider.refreshing ≡ false)
        × Has (waiting 1) u.phases
        × (is_closed u.provider 1 ≡ true))
waiting-goes_on_example =
    waiting-goes_on both 1 0 (no_answer true) Reach-both (inr (inl refl))
      (unfold enter token_is_fresh is_closed in refl)

-- The fetch fails, a third call begins another, and the one that waits returns the empty text
-- without an error.
abbrev failed : World
failed = record both {
  provider = (finish (err transport) both.provider).0;
  phases = returned (err transport) ∷ waiting 1 ∷ [];
}

abbrev again : World
again = record failed {
  provider = (enter 0 failed.provider).0;
  phases = leading ∷ returned (err transport) ∷ waiting 1 ∷ [];
}

abbrev empty_handed : World
empty_handed = record again { phases = leading ∷ returned (err transport) ∷ returned (ok []) ∷ [] }

Reach-failed : Reach start failed
unfolding enter token_is_fresh finish fetch_token issue
Reach-failed = next Reach-both (finishes 0 (no_answer false) (here (waiting 1 ∷ [])) refl)

Reach-again : Reach start again
unfolding enter token_is_fresh finish
Reach-again =
    next (next Reach-failed (call refl))
      (enters 0 (here (returned (err transport) ∷ waiting 1 ∷ [])) refl)

Reach-empty_handed : Reach start empty_handed
unfolding enter token_is_fresh finish is_closed wake after_leader
Reach-empty_handed =
    next Reach-again
      (wakes 1 true refl (there leading (there (returned (err transport)) (here []))) refl)

abbrev connection : Connection
connection = record { database = lit "db"; user = lit "scribe"; password = lit "pw" }

-- A command that writes the password it is given.
abbrev leaky : Command → Output
leaky command = record { combined = lit " pw 42\n"; failure = none }

probed : psql_probe leaky (lit "postgres") connection ≡ ok (lit "*** 42")
unfolding psql_probe probe_result redact stars_from has_prefix trim_space trim_left_by trim_right_by
    is_space lit
probed = refl

psql_probe-contains_example : contains (lit "*** 42") (lit "pw") ≡ false
psql_probe-contains_example =
    psql_probe-contains leaky (lit "postgres") (lit "*** 42") connection (unfold lit in refl)
      (unfold lit any in refl) probed
