-- ===== src/Fixture/TokenProvider/Issued.antt =====
-- The tokens that `Token` returns: go/fixture/oauth2_token_provider.go.
use canton_localnet.Base.{
  ◌≡◌, refl, sym, ℕ, Bool, ◌&&◌, List, [], Text, Option, none, some, Result, ok, err, Bool-cases,
  inl, inr, subst, Has, ◌⊎◌, All, All-map, All-Has,
}
use canton_localnet.Fixture.TokenProvider.{
  Provider, FetchError, Phase, entering, waiting, leading, returned, enter, token_is_fresh,
  after_leader, is_context_error, wake, finish, invalidate, fetch_token,
}
use canton_localnet.Fixture.TokenProvider.Steps.{
  World, start, Moves, here, there, Step, call, enters, wakes, gives_up, finishes, invalidates,
  Reach, stay, next, issue,
}

abbrev pub IsEmptyOrIssued : List Text → Text → Type 0
IsEmptyOrIssued issued token = (token ≡ []) ⊎ Has token issued

-- What a caller has been given.
abbrev pub IsGood : List Text → Phase → Type 0
IsGood issued entering = Unit
IsGood issued (waiting d) = Unit
IsGood issued leading = Unit
IsGood issued (returned (err e)) = Unit
IsGood issued (returned (ok token)) = IsEmptyOrIssued issued token

Moves-All :
    (P : Phase → Type 0) {from to : Phase} {xs ys : List Phase}
    → Moves from to xs ys
    → P to
    → All P xs
    → All P ys
Moves-All P (here xs) p h = (p, h.1)
Moves-All P (there x m) p h = (h.0, Moves-All P m p h.1)

issue-IsEmptyOrIssued :
    (r : Result FetchError (Text × ℕ)) (issued : List Text) (token : Text)
    → IsEmptyOrIssued issued token
    → IsEmptyOrIssued (issue r issued) token
unfolding issue
issue-IsEmptyOrIssued (err e) issued token h = h
issue-IsEmptyOrIssued (ok (t, at)) issued token (inl e) = inl e
issue-IsEmptyOrIssued (ok (t, at)) issued token (inr h) = inr (inr h)

issue-IsGood :
    (r : Result FetchError (Text × ℕ)) (issued : List Text) (x : Phase)
    → IsGood issued x
    → IsGood (issue r issued) x
issue-IsGood r issued entering h = tt
issue-IsGood r issued (waiting d) h = tt
issue-IsGood r issued leading h = tt
issue-IsGood r issued (returned (err e)) h = tt
issue-IsGood r issued (returned (ok token)) h = issue-IsEmptyOrIssued r issued token h

enter-IsGood :
    (now : ℕ) (p : Provider) (issued : List Text)
    → IsEmptyOrIssued issued p.cached
    → IsGood issued (enter now p).1 × IsEmptyOrIssued issued (enter now p).0.cached
unfolding enter
enter-IsGood now p issued h = elim (Bool-cases (token_is_fresh p now)) [
  | inl e ↦ rw e (h, h)
  | inr e ↦ elim (Bool-cases p.refreshing) [ inl f ↦ rw (e, f) (tt, h) | inr f ↦ rw (e, f) (tt, h) ]
]

wake-IsGood :
    (alive : Bool) (p : Provider) (issued : List Text)
    → IsEmptyOrIssued issued p.cached
    → IsGood issued (wake alive p)
unfolding wake
wake-IsGood alive p issued h = by_err p.refresh_err
  where
    by_err : (o : Option FetchError) → IsGood issued (after_leader alive p o)
    by_err none = unfold after_leader in h
    by_err (some e) =
        unfold after_leader in
        elim (Bool-cases (is_context_error e && alive)) [ inl t ↦ rw t tt | inr f ↦ rw f tt ]

finish-IsGood :
    (r : Result FetchError (Text × ℕ)) (p : Provider) (issued : List Text)
    → IsEmptyOrIssued issued p.cached
    → IsGood (issue r issued) (finish r p).1
      × IsEmptyOrIssued (issue r issued) (finish r p).0.cached
unfolding finish issue
finish-IsGood (err e) p issued h = (tt, h)
finish-IsGood (ok (token, at)) p issued h = (inr (inl refl), inr (inl refl))

abbrev IsServed : World → Type 0
IsServed s = IsEmptyOrIssued s.issued s.provider.cached × All (IsGood s.issued) s.phases

Step-IsServed : (s t : World) → Step s t → IsServed s → IsServed t
Step-IsServed s t (call e) h = subst IsServed (sym e) (h.0, (tt, h.1))
Step-IsServed s t (enters now m e) h =
    let (g, c) = enter-IsGood now s.provider s.issued h.0 in
    subst IsServed (sym e) (c, Moves-All (IsGood s.issued) m g h.1)
Step-IsServed s t (wakes done alive c m e) h =
    subst IsServed (sym e)
      (h.0, Moves-All (IsGood s.issued) m (wake-IsGood alive s.provider s.issued h.0) h.1)
Step-IsServed s t (gives_up done m e) h =
    subst IsServed (sym e) (h.0, Moves-All (IsGood s.issued) m tt h.1)
Step-IsServed s t (finishes now a m e) h =
    let r = fetch_token now a in
    let (g, c) = finish-IsGood r s.provider s.issued h.0 in
    subst IsServed (sym e) (
      c,
      Moves-All (IsGood (issue r s.issued)) m g (All-map (issue-IsGood r s.issued) s.phases h.1),
    )
Step-IsServed s t (invalidates e) h = subst IsServed (sym e) (unfold invalidate in (inl refl, h.1))

Reach-IsServed : {t : World} → Reach start t → IsServed t
Reach-IsServed stay = (inl refl, tt)
Reach-IsServed (next {t} {u} r st) = Step-IsServed t u st (Reach-IsServed r)

-- However the calls of `Token` and `Invalidate` interleave, a call that returns a token without an
-- error returns the empty text or a token that the endpoint issued before.
returned-IsEmptyOrIssued :
    (t : World) (token : Text)
    → Reach start t
    → Has (returned (ok token)) t.phases
    → IsEmptyOrIssued t.issued token
returned-IsEmptyOrIssued t token r h = All-Has (IsGood t.issued) t.phases _ (Reach-IsServed r).1 h
