-- ===== src/Fixture/TokenProvider/Leader.antt =====
-- The callers of `Token` that fetch: go/fixture/oauth2_token_provider.go.
use canton_localnet.Base.{
  ◌≡◌, refl, sym, ℕ, ◌+◌, Bool, false, ◌&&◌, List, [], ◌∷◌, Text, Option, none, some, Result, ok,
  err, arith, if◌then◌else◌, Bool-cases, inl, inr, subst,
}
use canton_localnet.Fixture.TokenProvider.{
  Provider, FetchError, Phase, entering, waiting, leading, returned, enter, token_is_fresh,
  after_leader, is_context_error, wake, finish, invalidate, fetch_token,
}
use canton_localnet.Fixture.TokenProvider.Steps.{
  World, start, Moves, here, there, Step, call, enters, wakes, gives_up, finishes, invalidates,
  Reach, stay, next,
}

abbrev pub leads : Phase → ℕ
leads entering = 0
leads (waiting done) = 0
leads leading = 1
leads (returned r) = 0

abbrev pub leaders : List Phase → ℕ
leaders [] = 0
leaders (x ∷ xs) = leads x + leaders xs

abbrev pub flag : Bool → ℕ
flag b = if b then 1 else 0

pub Moves-leaders :
    {from to : Phase} {xs ys : List Phase}
    → Moves from to xs ys
    → leaders ys + leads from ≡ leaders xs + leads to
Moves-leaders (here xs) = omega arith
Moves-leaders (there x m) = omega (arith, Moves-leaders m)

pub enter-leads :
    (now : ℕ) (p : Provider)
    → leads (enter now p).1 + flag p.refreshing ≡ flag (enter now p).0.refreshing
unfolding enter
enter-leads now p = elim (Bool-cases (token_is_fresh p now)) [
  | inl e ↦ rw e (omega arith)
  | inr e ↦ elim (Bool-cases p.refreshing) [ inl f ↦ rw (e, f) refl | inr f ↦ rw (e, f) refl ]
]

pub wake-leads : (alive : Bool) (p : Provider) → leads (wake alive p) ≡ 0
unfolding wake
wake-leads alive p = by_err p.refresh_err
  where
    by_err : (o : Option FetchError) → leads (after_leader alive p o) ≡ 0
    by_err none = unfold after_leader in refl
    by_err (some e) =
        unfold after_leader in
        elim (Bool-cases (is_context_error e && alive)) [ inl t ↦ rw t refl | inr f ↦ rw f refl ]

pub finish-leads :
    (r : Result FetchError (Text × ℕ)) (p : Provider)
    → (leads (finish r p).1 ≡ 0) × ((finish r p).0.refreshing ≡ false)
unfolding finish
finish-leads (err e) p = (refl, refl)
finish-leads (ok (token, at)) p = (refl, refl)

-- The flag `refreshing` counts the fetches under way.
abbrev pub IsLed : World → Type 0
IsLed s = leaders s.phases ≡ flag s.provider.refreshing

Step-IsLed : (s t : World) → Step s t → IsLed s → IsLed t
Step-IsLed s t (call e) h = subst IsLed (sym e) (omega (arith, h))
Step-IsLed s t (enters now {ys} m e) h =
    subst IsLed (sym e) (omega (arith, Moves-leaders m, enter-leads now s.provider))
Step-IsLed s t (wakes done alive {ys} c m e) h =
    subst IsLed (sym e) (omega (arith, Moves-leaders m, wake-leads alive s.provider))
Step-IsLed s t (gives_up done {ys} m e) h = subst IsLed (sym e) (omega (arith, Moves-leaders m))
Step-IsLed s t (finishes now a {ys} m e) h = subst IsLed (sym e) (
    let (l, f) = finish-leads (fetch_token now a) s.provider in
    rw f (ground (arith, Moves-leaders m)))
Step-IsLed s t (invalidates e) h = subst IsLed (sym e) (unfold invalidate in h)

pub Reach-IsLed : {t : World} → Reach start t → IsLed t
Reach-IsLed stay = refl
Reach-IsLed (next {t} {u} r st) = Step-IsLed t u st (Reach-IsLed r)
