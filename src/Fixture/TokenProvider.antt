-- ===== src/Fixture/TokenProvider.antt =====
-- The cached access token: go/fixture/oauth2_token_provider.go. A time is a number of nanoseconds,
-- with 0 for Go's zero time, and a Go `int64` its 64 bits. The sections under the mutex are functions.
pub mod Steps
pub mod Leader
pub mod Progress
pub mod Issued
pub mod OneFetch
use canton_localnet.Base.{
  ℕ, ℤ, pos, negsuc, zero, suc, ◌+◌, ◌-◌, ◌*◌, ◌%◌, Bool, true, false, not, ◌&&◌, ◌||◌, Text, lit,
  List, [], ◌∷◌, ◌++◌, Option, none, some, Result, ok, err, ◌>>=◌, ◌>>◌, guard, ltb, leb, is_empty,
  trim_space, if◌then◌else◌,
}

pub record OAuth2TokenProviderConfig : Type 0 where
  pub token_url : Text
  pub client_id : Text
  pub client_secret : Text
  pub audience : Text
  pub scope : Text

pub data FieldError : Type 0 where
  token_url_required client_id_required client_secret_required : FieldError

pub data FetchError : Type 0 where
  context_error transport http_error undecodable no_access_token bad_expires_in : FetchError

-- The number of `refresh_done` is that of the channel: it counts the channels made before it.
pub record Provider : Type 0 where
  pub cached : Text
  pub expires_at : ℕ
  pub refreshing : Bool
  pub refresh_done : ℕ
  pub refresh_err : Option FetchError

abbrev pub new_provider : Provider
new_provider = record {
  cached = [];
  expires_at = 0;
  refreshing = false;
  refresh_done = 0;
  refresh_err = none;
}

-- `NewOAuth2TokenProvider`, with the defaults of the client and the clock left out.
unfoldable pub new_oauth2_token_provider : OAuth2TokenProviderConfig → Result FieldError Provider
unfolding trim_space
new_oauth2_token_provider cfg = do
  guard (not (is_empty (trim_space cfg.token_url))) token_url_required
  guard (not (is_empty (trim_space cfg.client_id))) client_id_required
  guard (not (is_empty (trim_space cfg.client_secret))) client_secret_required
  ok new_provider

-- `RefreshSkew`
abbrev pub refresh_skew : ℕ
refresh_skew = 30000000000

unfoldable pub token_is_fresh : Provider → ℕ → Bool
token_is_fresh p now = not (is_empty p.cached) && ltb (now + refresh_skew) p.expires_at

unfoldable pub is_context_error : FetchError → Bool
is_context_error context_error = true
is_context_error _ = false

-- Where a caller of `Token` stands: before the first lock, behind `<-done`, in `fetchToken`, or
-- behind its return.
pub data Phase : Type 0 where
  entering : Phase
  waiting : ℕ → Phase
  leading : Phase
  returned : Result FetchError Text → Phase

-- The first section under the mutex.
unfoldable pub enter : ℕ → Provider → Provider × Phase
unfolding token_is_fresh
enter now p =
    if token_is_fresh p now
    then (p, returned (ok p.cached))
    else if p.refreshing
    then (p, waiting p.refresh_done)
    else (
      record p { refreshing = true; refresh_done = suc p.refresh_done; refresh_err = none },
      leading,
    )

-- The channel is closed: a later one was made, or its own leader has finished.
unfoldable pub is_closed : Provider → ℕ → Bool
is_closed p done = ltb done p.refresh_done || not p.refreshing

-- What follows `<-done`, with the state of the caller's own context.
unfoldable pub after_leader : Bool → Provider → Option FetchError → Phase
unfolding is_context_error
after_leader alive p none = returned (ok p.cached)
after_leader alive p (some e) = if is_context_error e && alive then entering else returned (err e)

unfoldable pub wake : Bool → Provider → Phase
unfolding after_leader
wake alive p = after_leader alive p p.refresh_err

-- The section after `fetchToken`.
unfoldable pub finish : Result FetchError (Text × ℕ) → Provider → Provider × Phase
finish (err e) p = (record p { refresh_err = some e; refreshing = false }, returned (err e))
finish (ok (token, expires_at)) p =
    (record p { cached = token; expires_at = expires_at; refreshing = false }, returned (ok token))

unfoldable pub invalidate : Provider → Provider
invalidate p = record p { cached = []; expires_at = 0 }

-- `client.Do` fails, by the context or not, or answers with a status and the decoded document.
pub record TokenResponse : Type 0 where
  pub access_token : Text
  pub expires_in : ℤ

pub data Answer : Type 0 where
  no_answer : Bool → Answer
  answer : ℕ → Option TokenResponse → Answer

-- `p.cfg.Now().Add(time.Duration(seconds) * time.Second)`
unfoldable pub expiry : ℕ → ℕ → ℕ
expiry now seconds =
    let d = (seconds * 1000000000) % 18446744073709551616 in
    if ltb d 9223372036854775808 then now + d else now - (18446744073709551616 - d)

unfoldable pub check_expires_in : ℕ → Text → ℤ → Result FetchError (Text × ℕ)
unfolding expiry
check_expires_in now token (negsuc n) = err bad_expires_in
check_expires_in now token (pos zero) = err bad_expires_in
check_expires_in now token (pos (suc n)) = ok (token, expiry now (suc n))

unfoldable pub check_response : ℕ → Option TokenResponse → Result FetchError (Text × ℕ)
unfolding check_expires_in
check_response now none = err undecodable
check_response now (some tr) =
    if is_empty tr.access_token
    then err no_access_token
    else check_expires_in now tr.access_token tr.expires_in

-- `fetchToken`, from the answer on.
unfoldable pub fetch_token : ℕ → Answer → Result FetchError (Text × ℕ)
unfolding check_response
fetch_token now (no_answer by_context) = err (if by_context then context_error else transport)
fetch_token now (answer status document) =
    if ltb status 200 || leb 300 status then err http_error else check_response now document
