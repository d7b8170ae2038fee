-- ===== src/Slot/Api.antt =====
-- The calls that a slot's endpoints serve: cli/internal/slot/token.go, participant.go, party.go and
-- synchronizers.go. A call takes what the server answers at that moment, and returns its result with
-- the request it made, if it made one. Reading the bytes of an answer is left out.
use canton_localnet.Base.{
  ℕ, Bool, ◌||◌, ◌+◌, Text, lit, List, [], ◌∷◌, ◌++◌, Option, none, some, Result, ok, err, ◌>>=◌,
  ltb, leb, is_empty, trim_space, trim_right_by, ◌==◌, cut, if◌then◌else◌,
}
use canton_localnet.Rights.Json.{
  Value, object, field, empty, string, number, get, as_string, as_slice,
}
use canton_localnet.Slot.{AuthKind, oauth2, hs256, other}
use canton_localnet.Slot.Resolve.{Endpoints}

-- The form of a token request, the three queries with the bearer that they carry, and their URLs.
pub data Request : Type 0 where
  token_request : Text → List (Text × Text) → Request
  query : Text → Text → Request
  query_user : Text → Text → Text → Request

-- A call that fails before its body is read, or a status with the document of the body.
pub data Reply : Type 0 where
  failed : Reply
  reply : ℕ → Option Value → Reply

pub data ApiError : Type 0 where
  unknown_auth_kind : Text → ApiError
  no_token_url : ApiError
  no_client_secret : ApiError
  no_user_id : ApiError
  transport : ApiError
  http_status : ℕ → ApiError
  undecodable : ApiError
  empty_answer : ApiError
  malformed_id : Text → ApiError

-- The result of a call, and the requests that it made.
abbrev pub Call : Type 0 → Type 0
Call A = Result ApiError A × List Request

-- What follows the response: the test of the status, and the document.
unfoldable pub read_reply : Reply → Result ApiError Value
read_reply failed = err transport
read_reply (reply status body) =
    if ltb status 200 || leb 300 status
    then err (http_status status)
    else elim body [ none ↦ err undecodable | some v ↦ ok v ]

-- A field of a document into a Go string.
unfoldable pub string_field : Text → Value → Result ApiError Text
unfolding get as_string
string_field key v = elim (get key v) [
  | none ↦ err undecodable
  | some w ↦ elim (as_string w) [ none ↦ err undecodable | some s ↦ ok s ]
]

unfoldable pub non_empty : Bool → Text → Result ApiError Text
non_empty blank s = if blank then err empty_answer else ok s

-- `if value != "" { form.Set(key, value) }`
unfoldable pub form_entry : Text → Text → List (Text × Text)
form_entry key value = if is_empty value then [] else (key, value) ∷ []

unfoldable pub token_form : Endpoints → List (Text × Text)
unfolding lit form_entry
token_form ep =
    (lit "grant_type", lit "client_credentials")
    ∷ (lit "client_id", ep.client_id)
    ∷ (lit "client_secret", ep.client_secret)
    ∷ (form_entry (lit "audience") ep.audience ++ form_entry (lit "scope") ep.scope)

unfoldable pub decode_token : Reply → Result ApiError Text
unfolding read_reply string_field non_empty lit
decode_token r = do
  v ← read_reply r
  token ← string_field (lit "access_token") v
  non_empty (is_empty token) token

unfoldable pub mint_oauth2 : (Request → Reply) → Endpoints → Call Text
unfolding decode_token token_form
mint_oauth2 server ep =
    let request = token_request ep.token_url_host (token_form ep) in
    if is_empty ep.token_url_host
    then (err no_token_url, [])
    else if is_empty ep.client_secret
    then (err no_client_secret, [])
    else (decode_token (server request), request ∷ [])

-- The claims of a self-signed token; `decimal` prints the seconds.
unfoldable pub claims : (ℕ → Text) → ℕ → Endpoints → Value
unfolding lit
claims decimal now ep = object (
    field (lit "aud") (string ep.audience) (
      field (lit "exp") (number (decimal (now + 3600))) (
        field (lit "iat") (number (decimal now)) (field (lit "sub") (string ep.hs256_user) empty))))

-- The clock, the printing of a number, and `signHS256`, which is base64 and HMAC over JSON.
pub record Signer : Type 0 where
  pub now : ℕ
  pub decimal : ℕ → Text
  pub sign : Text → Value → Text

unfoldable pub mint_hs256 : Signer → Endpoints → Result ApiError Text
unfolding claims
mint_hs256 signer ep = ok (signer.sign ep.hs256_secret (claims signer.decimal signer.now ep))

unfoldable pub mint_by : AuthKind → Signer → (Request → Reply) → Endpoints → Call Text
unfolding mint_oauth2 mint_hs256
mint_by oauth2 signer server ep = mint_oauth2 server ep
mint_by hs256 signer server ep = (mint_hs256 signer ep, [])
mint_by (other kind) signer server ep = (err (unknown_auth_kind kind), [])

-- `MintToken`
unfoldable pub mint_token : Signer → (Request → Reply) → Endpoints → Call Text
unfolding mint_by
mint_token signer server ep = mint_by ep.slot.auth_kind signer server ep

-- `strings.TrimRight(ep.JSONLedgerAPIURL, "/")` and a path.
unfoldable pub api_url : Endpoints → Text → Text
unfolding trim_right_by
api_url ep path = trim_right_by (λ c. c == b'/') ep.json_ledger_api_url ++ path

unfoldable pub decode_participant_id : Reply → Result ApiError Text
unfolding read_reply string_field non_empty lit trim_space
decode_participant_id r = do
  v ← read_reply r
  participant ← string_field (lit "participantId") v
  non_empty (is_empty (trim_space participant)) participant

-- `FetchParticipantID`
unfoldable pub fetch_participant_id : (Request → Reply) → Endpoints → Text → Call Text
unfolding decode_participant_id api_url lit
fetch_participant_id server ep token =
    let request = query (api_url ep (lit "/v2/parties/participant-id")) token in
    (decode_participant_id (server request), request ∷ [])

-- `SplitParticipantID`
unfoldable pub split_participant_id : Text → Result ApiError (Text × Text)
unfolding cut lit
split_participant_id participant = elim (cut participant (lit "::")) [
  | none ↦ err (malformed_id participant)
  | some (hint, namespace) ↦
      if is_empty hint || is_empty namespace
      then err (malformed_id participant)
      else ok (hint, namespace)
]

unfoldable pub decode_user : Reply → Result ApiError Text
unfolding read_reply string_field non_empty get lit trim_space
decode_user r = do
  v ← read_reply r
  (elim (get (lit "user") v) [
    | none ↦ err undecodable
    | some user ↦ do
      party ← string_field (lit "primaryParty") user
      non_empty (is_empty (trim_space party)) party
  ])

-- `FetchPrimaryParty`
unfoldable pub fetch_primary_party : (Request → Reply) → Endpoints → Text → Call Text
unfolding decode_user api_url lit trim_space
fetch_primary_party server ep token =
    let request = query_user (api_url ep (lit "/v2/users/")) ep.validator_user_id token in
    if is_empty (trim_space ep.validator_user_id)
    then (err no_user_id, [])
    else (decode_user (server request), request ∷ [])

pub record Synchronizer : Type 0 where
  pub alias : Text
  pub id : Text

-- The entries of the document.
unfoldable pub decode_entries : List Value → Result ApiError (List Synchronizer)
unfolding string_field lit
decode_entries [] = ok []
decode_entries (v ∷ vs) = do
  alias ← string_field (lit "synchronizerAlias") v
  id ← string_field (lit "synchronizerId") v
  rest ← decode_entries vs
  ok (record { alias = alias; id = id } ∷ rest)

-- The loop over the decoded entries.
unfoldable pub check_entries : List Synchronizer → Result ApiError (List Synchronizer)
unfolding trim_space
check_entries [] = ok []
check_entries (s ∷ rest) = do
  kept ← non_empty (is_empty (trim_space s.id)) s.id
  others ← check_entries rest
  ok (s ∷ others)

unfoldable pub decode_synchronizer_list : Reply → Result ApiError (List Synchronizer)
unfolding read_reply get as_slice lit
decode_synchronizer_list r = do
  v ← read_reply r
  (elim (get (lit "connectedSynchronizers") v) [
    | none ↦ err undecodable
    | some w ↦ elim (as_slice w) [
      | none ↦ err undecodable
      | some vs ↦ decode_entries vs >>= check_entries
    ]
  ])

-- `FetchConnectedSynchronizers`
unfoldable pub fetch_synchronizers : (Request → Reply) → Endpoints → Text → Call (List Synchronizer)
unfolding decode_synchronizer_list api_url lit
fetch_synchronizers server ep token =
    let request = query (api_url ep (lit "/v2/state/connected-synchronizers")) token in
    (decode_synchronizer_list (server request), request ∷ [])
