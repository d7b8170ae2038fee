-- ===== src/Wallet/Client.antt =====
-- The calls of the wallet: cli/internal/wallet/wallet.go and fund.go. A reply is what the retries of
-- a call end with. Parsing a time is a parameter.
pub mod Price
use canton_localnet.Base.{
  ◌==◌, ℕ, suc, Bool, true, false, not, ◌||◌, ◌&&◌, Text, lit, List, [], ◌∷◌, Option, none, some,
  Result, ok, err, ltb, leb, is_empty, if◌then◌else◌,
}
use canton_localnet.Rights.Json.{Value, get, as_string, as_slice}
use canton_localnet.Wallet.Amount.{AmountError, Decimal, validate_amount, parse_decimal}

pub record Credentials : Type 0 where
  pub token_url : Text
  pub client_id : Text
  pub username : Text
  pub password : Text

-- The form of a token request, the two reads, and the amount of a tap.
pub data Request : Type 0 where
  token_request : Text → List (Text × Text) → Request
  read_balance read_rounds : Request
  tap_request : Text → Request

pub data Reply : Type 0 where
  lost : Reply
  replied : ℕ → Option Value → Reply

pub data WalletError : Type 0 where
  amount : AmountError → WalletError
  transport undecodable empty_token no_contract bad_balance bad_opens_at no_round bad_price :
      WalletError
  http_status : ℕ → WalletError
  still_below : Text → WalletError

-- The result of a run, and its requests, the newest first.
abbrev pub Run : Type 0 → Type 0
Run A = List Request → Result WalletError A × List Request

abbrev pub after :
    {A B : Type 0}
    → Result WalletError A × List Request
    → (A → Run B)
    → Result WalletError B × List Request
after (ok a, t) f = f a t
after (err e, t) f = (err e, t)

infixl 5 ◌>>=◌
abbrev pub ◌>>=◌ : {A B : Type 0} → Run A → (A → Run B) → Run B
m >>= f = λ t. after (m t) f

abbrev pub done : {A : Type 0} → Result WalletError A → Run A
done r = λ t. (r, t)

-- The wallet and the validator's scan proxy answer by the requests, and the clock goes by them.
pub record Service : Type 0 where
  pub reply : List Request → Reply
  pub clock : List Request → ℕ
  pub parse_time : Text → Option ℕ

unfoldable pub body_of : Reply → Result WalletError Value
body_of lost = err transport
body_of (replied status document) =
    if ltb status 200 || leb 300 status
    then err (http_status status)
    else elim document [ none ↦ err undecodable | some v ↦ ok v ]

unfoldable pub send : Service → Request → Run Value
unfolding body_of
send s r = λ t. (body_of (s.reply (r ∷ t)), r ∷ t)

abbrev pub decoded : {A : Type 0} → Option A → Result WalletError A
decoded none = err undecodable
decoded (some a) = ok a

-- A field into a Go string.
unfoldable pub text_field : Text → Value → Option Text
unfolding get as_string
text_field key v = elim (get key v) [ none ↦ none | some w ↦ as_string w ]

unfoldable pub non_empty : WalletError → Text → Result WalletError Text
non_empty e t = if is_empty t then err e else ok t

-- `MintToken`
unfoldable pub mint_token : Service → Credentials → Run Text
unfolding send text_field non_empty lit
mint_token s creds = do
  v ← send s (
      token_request creds.token_url (
        (lit "grant_type", lit "password")
        ∷ (lit "client_id", creds.client_id)
        ∷ (lit "username", creds.username)
        ∷ (lit "password", creds.password)
        ∷ (lit "scope", lit "openid")
        ∷ []))
  token ← done (decoded (text_field (lit "access_token") v))
  done (non_empty empty_token token)

abbrev pub wrapped : Result AmountError (Unit {0}) → Result WalletError (Unit {0})
wrapped (ok u) = ok u
wrapped (err e) = err (amount e)

-- `Tap`
unfoldable pub tap : Service → Text → Run Text
unfolding validate_amount send text_field non_empty lit
tap s asked = do
  u ← done (wrapped (validate_amount asked))
  v ← send s (tap_request asked)
  contract ← done (decoded (text_field (lit "contract_id") v))
  done (non_empty no_contract contract)

abbrev pub if_decimal : Option Decimal → Text → Result WalletError Text
if_decimal none t = err bad_balance
if_decimal (some d) t = ok t

-- `Balance`
unfoldable pub balance : Service → Run Text
unfolding send text_field parse_decimal lit
balance s = do
  v ← send s read_balance
  held ← done (decoded (text_field (lit "effective_unlocked_qty") v))
  done (if_decimal (parse_decimal held) held)

pub record Round : Type 0 where
  pub amulet_price : Text
  pub opens_at : Text

abbrev pub round_of : Option Text → Option Text → Option Round
round_of (some price) (some at) = some (record { amulet_price = price; opens_at = at })
round_of _ _ = none

-- `round.Contract.Payload` of a document.
unfoldable pub decode_round : Value → Option Round
unfolding get text_field lit
decode_round v = elim (get (lit "contract") v) [
  | none ↦ none
  | some contract ↦ elim (get (lit "payload") contract) [
    | none ↦ none
    | some payload ↦
        round_of (text_field (lit "amuletPrice") payload) (text_field (lit "opensAt") payload)
  ]
]

abbrev pub cons : {A : Type 0} → Option A → Option (List A) → Option (List A)
cons (some a) (some rest) = some (a ∷ rest)
cons _ _ = none

unfoldable pub decode_rounds : List Value → Option (List Round)
unfolding decode_round
decode_rounds [] = some []
decode_rounds (v ∷ vs) = cons (decode_round v) (decode_rounds vs)

unfoldable pub rounds_of : Value → Option (List Round)
unfolding get as_slice decode_rounds lit
rounds_of v = elim (get (lit "open_mining_rounds") v) [
  | none ↦ none
  | some w ↦ elim (as_slice w) [ none ↦ none | some vs ↦ decode_rounds vs ]
]

-- One turn of the loop: `latest` and `price` are the variables of that name.
unfoldable pub next_round : ℕ → ℕ → Text → ℕ → Text → ℕ × Text
next_round now opens_at round_price latest price =
    if ltb now opens_at || (not (is_empty price) && not (ltb latest opens_at))
    then (latest, price)
    else (opens_at, round_price)

-- The loop over the rounds.
unfoldable pub pick_round : (Text → Option ℕ) → ℕ → List Round → ℕ → Text → Result WalletError Text
unfolding next_round
pick_round parse_time now [] latest price = ok price
pick_round parse_time now (r ∷ rounds) latest price = elim (parse_time r.opens_at) [
  | none ↦ err bad_opens_at
  | some opens_at ↦
      let (latest', price') = next_round now opens_at r.amulet_price latest price in
      pick_round parse_time now rounds latest' price'
]

abbrev pub if_positive : Option Decimal → Text → Result WalletError Text
if_positive none t = err bad_price
if_positive (some d) t = if ltb 0 d.units then ok t else err bad_price

unfoldable pub check_price : Text → Result WalletError Text
unfolding parse_decimal
check_price price = if is_empty price then err no_round else if_positive (parse_decimal price) price

-- `AmuletPrice` behind the test of its time; the zero time before the first round is 0.
unfoldable pub price_at : Service → ℕ → Run Text
unfolding send rounds_of pick_round check_price
price_at s now = do
  v ← send s read_rounds
  rounds ← done (decoded (rounds_of v))
  price ← done (pick_round s.parse_time now rounds 0 [])
  done (check_price price)

-- `AmuletPrice`, which takes the current time for the zero time.
unfoldable pub amulet_price : Service → ℕ → Run Text
unfolding price_at
amulet_price s now t = price_at s (if now == 0 then s.clock t else now) t
