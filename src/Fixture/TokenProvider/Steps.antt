-- ===== src/Fixture/TokenProvider/Steps.antt =====
-- The interleavings of the callers of `Token` and `Invalidate`: go/fixture/oauth2_token_provider.go.
use canton_localnet.Base.{◌≡◌, ℕ, Bool, true, List, [], ◌∷◌, Text, Result, ok, err}
use canton_localnet.Fixture.TokenProvider.{
  Provider, new_provider, FetchError, context_error, Phase, entering, waiting, leading, returned,
  enter, is_closed, wake, finish, invalidate, Answer, fetch_token,
}

-- The provider, where each caller stands, and the tokens that the endpoint has issued.
pub record World : Type 0 where
  pub provider : Provider
  pub phases : List Phase
  pub issued : List Text

abbrev pub start : World
start = record { provider = new_provider; phases = []; issued = [] }

-- One caller moves from a phase to another; the others stay.
pub data Moves (from to : Phase) : List Phase → List Phase → Type 0 where
  here : (xs : List Phase) → Moves from to (from ∷ xs) (to ∷ xs)
  there : (x : Phase) {xs ys : List Phase} → Moves from to xs ys → Moves from to (x ∷ xs) (x ∷ ys)

unfoldable pub issue : Result FetchError (Text × ℕ) → List Text → List Text
issue (err e) issued = issued
issue (ok (token, expires_at)) issued = token ∷ issued

-- A call of `Token` or `Invalidate` comes in, or a caller runs to the next place where another may
-- come in between.
pub data Step (s t : World) : Type 0 where
  call : t ≡ record s { phases = entering ∷ s.phases } → Step s t
  enters :
      (now : ℕ) {ys : List Phase}
      → Moves entering (enter now s.provider).1 s.phases ys
      → t ≡ record s { provider = (enter now s.provider).0; phases = ys }
      → Step s t
  wakes :
      (done : ℕ) (alive : Bool) {ys : List Phase}
      → is_closed s.provider done ≡ true
      → Moves (waiting done) (wake alive s.provider) s.phases ys
      → t ≡ record s { phases = ys }
      → Step s t
  gives_up :
      (done : ℕ) {ys : List Phase}
      → Moves (waiting done) (returned (err context_error)) s.phases ys
      → t ≡ record s { phases = ys }
      → Step s t
  finishes :
      (now : ℕ) (answer : Answer) {ys : List Phase}
      → Moves leading (finish (fetch_token now answer) s.provider).1 s.phases ys
      → t ≡ record s {
        provider = (finish (fetch_token now answer) s.provider).0;
        phases = ys;
        issued = issue (fetch_token now answer) s.issued;
      }
      → Step s t
  invalidates : t ≡ record s { provider = invalidate s.provider } → Step s t

pub data Reach (s : World) : World → Type 0 where
  stay : Reach s s
  next : {t u : World} → Reach s t → Step t u → Reach s u
