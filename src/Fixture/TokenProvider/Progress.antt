-- ===== src/Fixture/TokenProvider/Progress.antt =====
-- The callers of `Token` that wait for another's fetch: go/fixture/oauth2_token_provider.go.
use canton_localnet.Base.{
  ◌≡◌, refl, sym, ◌∙◌, ℕ, ◌≤◌, true, false, List, [], ◌∷◌, Text, Result, ok, err, arith, inl, inr,
  subst, Has, none_in,
}
use canton_localnet.Fixture.TokenProvider.{
  Provider, FetchError, Phase, entering, waiting, leading, returned, is_closed, finish, Answer,
  fetch_token,
}
use canton_localnet.Fixture.TokenProvider.Steps.{
  World, start, Moves, here, there, Step, finishes, Reach, issue,
}
use canton_localnet.Fixture.TokenProvider.Leader.{leaders, Reach-IsLed}

leaders-Has : (xs : List Phase) → 1 ≤ leaders xs → Has leading xs
leaders-Has [] h = absurd (omega arith)
leaders-Has (entering ∷ xs) h = inr (leaders-Has xs (omega arith))
leaders-Has (waiting d ∷ xs) h = inr (leaders-Has xs (omega arith))
leaders-Has (leading ∷ xs) h = inl refl
leaders-Has (returned r ∷ xs) h = inr (leaders-Has xs (omega arith))

-- A caller that stands in the list can move, and the callers in other phases stay.
Has-Moves :
    (from to kept : Phase) (xs : List Phase)
    → (kept ≡ from → ⊥)
    → Has from xs
    → (ys : List Phase) × Moves from to xs ys × (Has kept xs → Has kept ys)
Has-Moves from to kept [] n h = absurd (none_in h)
Has-Moves from to kept (x ∷ xs) n (inl e) = (
  to ∷ xs,
  subst (λ y. Moves from to (y ∷ xs) (to ∷ xs)) e (here xs),
  λ k. elim k [ inl i ↦ absurd (n (i ∙ sym e)) | inr m ↦ inr m ],
)
Has-Moves from to kept (x ∷ xs) n (inr h) =
    let (ys, m, k) = Has-Moves from to kept xs n h in
    (x ∷ ys, there x m, λ q. elim q [ inl e ↦ inl e | inr i ↦ inr (k i) ])

waiting-≢-leading : (d : ℕ) → waiting d ≡ leading → ⊥
waiting-≢-leading d e = cc

-- What a caller returns that fetched.
unfoldable pub token_of : Result FetchError (Text × ℕ) → Result FetchError Text
token_of (ok (token, expires_at)) = ok token
token_of (err e) = err e

finish-returned :
    (r : Result FetchError (Text × ℕ)) (p : Provider) → (finish r p).1 ≡ returned (token_of r)
unfolding finish token_of
finish-returned (err e) p = refl
finish-returned (ok (token, at)) p = refl

finish-refreshing :
    (r : Result FetchError (Text × ℕ)) (p : Provider) → (finish r p).0.refreshing ≡ false
unfolding finish
finish-refreshing (err e) p = refl
finish-refreshing (ok (token, at)) p = refl

finish-closed :
    (r : Result FetchError (Text × ℕ)) (p : Provider) (d : ℕ) → is_closed (finish r p).0 d ≡ true
unfolding is_closed finish
finish-closed (err e) p d = ground arith
finish-closed (ok (token, at)) p d = ground arith

leading-of_open :
    (t : World) → Reach start t → (d : ℕ) → is_closed t.provider d ≡ false → Has leading t.phases
unfolding is_closed
leading-of_open t r d c = leaders-Has t.phases (ground (arith, Reach-IsLed r))

-- While a caller of `Token` waits for a channel that is not closed, another caller is in its fetch,
-- and whatever that fetch answers, and whenever, its end is a step after which that caller has
-- returned the token or the error of the answer, no refresh is marked, the channel is closed, and
-- the caller that waits can go on.
pub waiting-goes_on :
    (t : World) (d now : ℕ) (reply : Answer)
    → Reach start t
    → Has (waiting d) t.phases
    → is_closed t.provider d ≡ false
    → Has leading t.phases
      × ((u : World) × Step t u
          × Moves leading (returned (token_of (fetch_token now reply))) t.phases u.phases
          × (u.issued ≡ issue (fetch_token now reply) t.issued)
          × (u.provider.refreshing ≡ false)
          × Has (waiting d) u.phases
          × (is_closed u.provider d ≡ true))
waiting-goes_on t d now reply r h c =
    let result = fetch_token now reply in
    let leads = leading-of_open t r d c in
    let (ys, m, k) =
      Has-Moves leading (finish result t.provider).1 (waiting d) t.phases (waiting-≢-leading d)
        leads in
    (
      leads,
      (
        record {
          provider = (finish result t.provider).0;
          phases = ys;
          issued = issue result t.issued;
        },
        finishes now reply m refl,
        subst (λ x. Moves leading x t.phases ys) (finish-returned result t.provider) m,
        refl,
        finish-refreshing result t.provider,
        k h,
        finish-closed result t.provider d,
      ),
    )
