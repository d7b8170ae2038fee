-- ===== src/Fixture/TokenProvider/OneFetch.antt =====
-- A source that fetches one token at a time, and the provider as one:
-- go/fixture/oauth2_token_provider.go.
use canton_localnet.Base.{
  ◌≡◌, refl, sym, ap, ℕ, ℤ, pos, negsuc, zero, suc, ◌+◌, false, ◌||◌, List, [], ◌∷◌, Text, Option,
  none, some, Result, ok, err, arith, Bool-cases, inl, inr, subst, is_empty, ltb, leb, ok-injective,
  ◌==◌,
}
use canton_localnet.Fixture.TokenProvider.{
  FetchError, http_error, no_access_token, Phase, enter, Answer, no_answer, answer, TokenResponse,
  fetch_token, check_response, check_expires_in,
}
use canton_localnet.Fixture.TokenProvider.Steps.{
  World, start, Step, call, enters, wakes, gives_up, finishes, invalidates, Reach, stay, next,
  issue,
}
use canton_localnet.Fixture.TokenProvider.Leader.{
  leads, leaders, flag, Moves-leaders, enter-leads, wake-leads, finish-leads, Reach-IsLed,
}

-- How many fetches run, and what they have yielded.
pub record Source : Type 0 where
  pub running : ℕ
  pub yielded : List Text

abbrev pub idle : Source
idle = record { running = 0; yielded = [] }

-- A fetch begins when none runs, and ends with a token that is not empty, or with none.
pub data Turn (a b : Source) : Type 0 where
  begins : a.running ≡ 0 → b ≡ record a { running = 1 } → Turn a b
  fails : a.running ≡ 1 → b ≡ record a { running = 0 } → Turn a b
  yields :
      (token : Text)
      → a.running ≡ 1
      → is_empty token ≡ false
      → b ≡ record { running = 0; yielded = token ∷ a.yielded }
      → Turn a b

pub data Runs (a : Source) : Source → Type 0 where
  still : Runs a a
  and_then : {b c : Source} → Runs a b → Turn b c → Runs a c

abbrev pub view : World → Source
view s = record { running = leaders s.phases; yielded = s.issued }

same_view :
    (a : Source) (n : ℕ) (issued : List Text)
    → Runs a (record { running = n; yielded = issued })
    → (m : ℕ) → m ≡ n
    → Runs a (record { running = m; yielded = issued })
same_view a n issued r m e =
    subst (λ k. Runs a (record { running = k; yielded = issued })) (sym e) r

fetch_token-non_empty :
    (now : ℕ) (a : Answer) (token : Text) (at : ℕ)
    → fetch_token now a ≡ ok (token, at)
    → is_empty token ≡ false
unfolding fetch_token check_response check_expires_in
fetch_token-non_empty now (no_answer b) token at h = cc
fetch_token-non_empty now (answer code document) token at h =
    elim (Bool-cases (ltb code 200 || leb 300 code)) [
      | inl e ↦ absurd (refused http_error (rw e at h))
      | inr e ↦ decoded document (rw e at h)
    ]
  where
    refused : (e : FetchError) → ◌≡◌ {A = Result FetchError (Text × ℕ)} (err e) (ok (token, at)) → ⊥
    refused e q = cc

    counted :
        (text : Text) (n : ℤ)
        → check_expires_in now text n ≡ ok (token, at)
        → is_empty text ≡ false
        → is_empty token ≡ false
    counted text (pos zero) q f = cc
    counted text (negsuc n) q f = cc
    counted text (pos (suc n)) q f =
        subst (λ t. is_empty t ≡ false) (ap (λ p. p.0) (ok-injective _ _ q)) f

    decoded :
        (d : Option TokenResponse) → check_response now d ≡ ok (token, at) → is_empty token ≡ false
    decoded none q = cc
    decoded (some tr) q = elim (Bool-cases (is_empty tr.access_token)) [
      | inl f ↦ absurd (refused no_access_token (rw f at q))
      | inr f ↦ counted tr.access_token tr.expires_in (rw f at q) f
    ]

enters-Runs :
    (a : Source) (now : ℕ) (s : World) (ys : List Phase)
    → leaders s.phases ≡ flag s.provider.refreshing
    → leaders ys + 0 ≡ leaders s.phases + leads (enter now s.provider).1
    → Runs a (view s)
    → Runs a (record { running = leaders ys; yielded = s.issued })
enters-Runs a now s ys l m r = elim (Bool-cases (leads (enter now s.provider).1 == 0)) [
  | inl e ↦ same_view a (leaders s.phases) s.issued r (leaders ys) (ground (arith, m))
  | inr e ↦
      let f = enter-leads now s.provider in
      and_then r (
        begins (ground (arith, l, f))
          (ap (λ k. record { running = k; yielded = s.issued }) (ground (arith, l, m, f))))
]

finishes-Runs :
    (a : Source) (now : ℕ) (w : Answer) (s : World) (n : ℕ)
    → leaders s.phases ≡ flag s.provider.refreshing
    → n + 1 ≡ leaders s.phases + 0
    → Runs a (view s)
    → Runs a (record { running = n; yielded = issue (fetch_token now w) s.issued })
finishes-Runs a now w s n l m r = by_result (fetch_token now w) refl
  where
    one : leaders s.phases ≡ 1
    one = ground (arith, l, m)

    none_left : n ≡ 0
    none_left = omega (arith, m, one)

    by_result :
        (x : Result FetchError (Text × ℕ))
        → fetch_token now w ≡ x
        → Runs a (record { running = n; yielded = issue x s.issued })
    by_result (err e) q =
        unfold issue in
        and_then r (fails one (ap (λ k. record { running = k; yielded = s.issued }) none_left))
    by_result (ok (token, at)) q =
        unfold issue in
        and_then r (
          yields token one (fetch_token-non_empty now w token at q)
            (ap (λ k. record { running = k; yielded = token ∷ s.issued }) none_left))

Step-Runs :
    (a : Source) (s t : World)
    → leaders s.phases ≡ flag s.provider.refreshing
    → Step s t
    → Runs a (view s)
    → Runs a (view t)
Step-Runs a s t l (call e) r =
    subst (λ w. Runs a (view w)) (sym e)
      (same_view a (leaders s.phases) s.issued r (0 + leaders s.phases) (omega arith))
Step-Runs a s t l (enters now {ys} m e) r =
    subst (λ w. Runs a (view w)) (sym e) (enters-Runs a now s ys l (Moves-leaders m) r)
Step-Runs a s t l (wakes done alive {ys} c m e) r =
    subst (λ w. Runs a (view w)) (sym e)
      (same_view a (leaders s.phases) s.issued r (leaders ys)
        (omega (arith, Moves-leaders m, wake-leads alive s.provider)))
Step-Runs a s t l (gives_up done {ys} m e) r =
    subst (λ w. Runs a (view w)) (sym e)
      (same_view a (leaders s.phases) s.issued r (leaders ys) (omega (arith, Moves-leaders m)))
Step-Runs a s t l (finishes now w {ys} m e) r =
    let (g, f) = finish-leads (fetch_token now w) s.provider in
    subst (λ w. Runs a (view w)) (sym e)
      (finishes-Runs a now w s (leaders ys) l (omega (arith, Moves-leaders m, g)) r)
Step-Runs a s t l (invalidates e) r = subst (λ w. Runs a (view w)) (sym e) r

-- However the calls of `Token` and `Invalidate` interleave, the fetches that run and the tokens that
-- they have yielded are those of a source that begins a fetch only when none runs, and that yields
-- no empty token.
pub Reach-Runs : (t : World) → Reach start t → Runs idle (view t)
Reach-Runs t stay = still
Reach-Runs t (next {t = s} r st) = Step-Runs idle s t (Reach-IsLed r) st (Reach-Runs s r)
